-- ===== src/NetIp/Masks.antt =====
-- Which masks common/utils/network/netip.c accepts.
use Prim.Native.Nat.{digits, bit_and-bitwise}
use native.Mathlib.Omega.{pow_step}
use linux_comon.Prelude.{
  ℕ, zero, suc, ◌+◌, ◌-◌, ◌*◌, ◌/◌, ◌%◌, ◌^◌, ◌≤◌, ◌<◌, min, bit_and, ◌≡◌, ◌↔◌, ◌⊎◌, inl, inr, refl,
  sym, ap, ◌∙◌, Bool, true, false, ◌==◌, if◌then◌else◌, arith, Bool-cases, ==_iff, none, some,
}
use linux_comon.NetIp.Mask.{negate32, one_bit, is_valid_netmask2, is_valid_netmask, address_word}

-- The digits that two numbers share, from the lowest on.
abbrev shared : ℕ → ℕ → ℕ → ℕ
shared fuel x y = digits (λ z. zero) min fuel x y

shared-enough : (f g x y : ℕ) → x ≤ f → x ≤ g → shared f x y ≡ shared g x y
shared-enough zero zero x y h k = refl
shared-enough (suc f) zero zero y h k = refl
shared-enough zero (suc g) zero y h k = refl
shared-enough (suc f) (suc g) zero y h k = refl
shared-enough zero g (suc x) y h k = absurd (omega arith)
shared-enough (suc f) zero (suc x) y h k = absurd (omega arith)
shared-enough (suc f) (suc g) (suc x) y h k =
    omega (arith, shared-enough f g (suc x / 2) (y / 2) (omega arith) (omega arith))

bit_and-low : (x y : ℕ) → bit_and x y ≡ 2 * bit_and (x / 2) (y / 2) + min (x % 2) (y % 2)
bit_and-low zero y = omega (arith, bit_and-bitwise 0 y, bit_and-bitwise 0 (y / 2))
bit_and-low (suc x) y = omega (
  arith,
  shared-enough x (suc x / 2) (suc x / 2) (y / 2) (omega arith) (omega arith),
  bit_and-bitwise (suc x / 2) (y / 2),
  bit_and-bitwise (suc x) y,
)

bit_and_self : (fuel x : ℕ) → x ≤ fuel → bit_and x x ≡ x
bit_and_self fuel zero h = refl
bit_and_self zero (suc x) h = absurd (omega arith)
bit_and_self (suc fuel) (suc x) h =
    omega (arith, bit_and-low (suc x) (suc x), bit_and_self fuel (suc x / 2) (omega arith))

-- An even number, or an odd one, with the number below it.
even_step : (m : ℕ) → 0 < m → bit_and (2 * m) (2 * m - 1) ≡ 2 * bit_and m (m - 1)
even_step m h =
    let whole : (2 * m) / 2 ≡ m = omega arith in
    let half : (2 * m - 1) / 2 ≡ m - 1 = omega arith in
    bit_and-low (2 * m) (2 * m - 1) ∙ rw (whole, half) (omega arith)

odd_step : (m : ℕ) → bit_and (2 * m + 1) (2 * m) ≡ 2 * m
odd_step m =
    let whole : (2 * m + 1) / 2 ≡ m = omega arith in
    let half : (2 * m) / 2 ≡ m = omega arith in
    bit_and-low (2 * m + 1) (2 * m)
    ∙ rw (whole, half) (omega (arith, bit_and_self m m (omega arith)))

power_pos : (k : ℕ) → 0 < 2 ^ k
power_pos zero = omega arith
power_pos (suc k) = omega (arith, power_pos k, pow_step 2 k)

power_clears : (k : ℕ) → bit_and (2 ^ k) (2 ^ k - 1) ≡ 0
power_clears zero = refl
power_clears (suc k) =
    rw (pow_step 2 k) (even_step (2 ^ k) (power_pos k) ∙ ap (λ (t : ℕ). 2 * t) (power_clears k))

clears-power : (fuel b : ℕ) → b ≤ fuel → 0 < b → bit_and b (b - 1) ≡ 0 → (k : ℕ) × (b ≡ 2 ^ k)
clears-power zero b h p e = absurd (omega arith)
clears-power (suc fuel) b h p e =
    let c = b / 2 in
    elim (Bool-cases (b % 2 == 0)) [
      | inl even ↦
          let whole : b ≡ 2 * c = ground (arith, even) in
          let shifted : 2 * bit_and c (c - 1) ≡ 0 =
            sym (even_step c (omega arith)) ∙ (ap (λ x. bit_and x (x - 1)) (sym whole) ∙ e) in
          let (k, q) = clears-power fuel c (omega arith) (omega arith) (omega (arith, shifted)) in
          (suc k, omega (arith, whole, q, pow_step 2 k))
      | inr odd ↦
          let whole : b ≡ 2 * c + 1 = ground (arith, odd) in
          let zeroed : 2 * c ≡ 0 =
            sym (odd_step c)
            ∙ (ap (λ x. bit_and (2 * c + 1) x) (omega arith)
                ∙ (ap (λ x. bit_and x (x - 1)) (sym whole) ∙ e)) in
          (0, omega (arith, whole, zeroed))
    ]

-- Ones in front and zeros behind: 2^32 - 2^k for some k, or 0.
abbrev pub IsMask : ℕ → Type 0
IsMask m = (m ≡ 0) ⊎ ((k : ℕ) × (m + 2 ^ k ≡ 2 ^ 32))

one_bit-negate : (m : ℕ) → m < 2 ^ 32 → (one_bit (negate32 m) ≡ true) ↔ IsMask m
unfolding one_bit negate32
one_bit-negate zero h = (λ e. inl refl, λ m. refl)
one_bit-negate (suc m) h =
    let b = 2 ^ 32 - suc m in
    let same : (2 ^ 32 - 1 - suc m + 1) % 2 ^ 32 ≡ b = omega arith in
    let below : (b + 2 ^ 32 - 1) % 2 ^ 32 ≡ b - 1 = omega arith in
    rw (same, below)
      (
        λ e. inr (
            let (k, q) =
              clears-power b b (omega arith) (omega arith) ((==_iff (bit_and b (b - 1)) 0).0 e) in
            (k, omega (arith, q))),
        λ mask. (==_iff (bit_and b (b - 1)) 0).1 (cleared mask),
      )
  where
    cleared : IsMask (suc m) → bit_and (2 ^ 32 - suc m) (2 ^ 32 - suc m - 1) ≡ 0
    cleared (inl z) = absurd (omega arith)
    cleared (inr (k, q)) =
        let power : 2 ^ 32 - suc m ≡ 2 ^ k = omega (arith, q) in rw power (power_clears k)

expected_test : (m e : ℕ) → ((if e == 0 then true else m == e) ≡ true) ↔ ((e ≡ 0) ⊎ (m ≡ e))
expected_test m e = elim (Bool-cases (e == 0)) [
  | inl any ↦ rw any (λ _. inl ((==_iff e 0).0 any), λ _. refl)
  | inr one ↦ rw one (λ same. inr ((==_iff m e).0 same), λ h. this one h)
]
  where
    this : (e == 0) ≡ false → (e ≡ 0) ⊎ (m ≡ e) → (m == e) ≡ true
    this one (inl z) = ground arith
    this one (inr same) = (==_iff m e).1 same

both_tests :
    (b c : Bool) {P Q : Type 0}
    → (b ≡ true) ↔ P
    → (c ≡ true) ↔ Q
    → ((if b then c else false) ≡ true) ↔ (P × Q)
both_tests true c p q = (λ e. (p.0 refl, q.0 e), λ h. q.1 h.1)
both_tests false c p q = (λ e. cc, λ h. p.1 h.0)

-- `is_valid_netmask2` accepts exactly the masks of ones in front of zeros, 0 and 0xffffffff included,
-- and, where one is expected, only that one. `is_valid_netmask` accepts the same of the text of an
-- address, and no other text.
pub is_valid_netmask-IsMask :
    (netmask expected n3 n2 n1 n0 : ℕ)
    → netmask < 2 ^ 32
    → ((is_valid_netmask2 netmask expected ≡ true)
        ↔ (IsMask netmask × ((expected ≡ 0) ⊎ (netmask ≡ expected))))
      × (is_valid_netmask (some (n3, n2, n1, n0)) expected
          ≡ is_valid_netmask2 (address_word (n3, n2, n1, n0)) expected)
      × (is_valid_netmask none expected ≡ false)
unfolding is_valid_netmask2 is_valid_netmask
is_valid_netmask-IsMask netmask expected n3 n2 n1 n0 h = (
  both_tests (one_bit (negate32 netmask)) _ (one_bit-negate netmask h)
      (expected_test netmask expected),
  refl,
  refl,
)
