-- ===== src/Sd/Numbers.antt =====
-- That the partitions of project/iot-gw/app/mount_sd.c are told apart by their numbers.
use linux_comon.Prelude.{
  ℕ, zero, suc, ◌+◌, ◌-◌, ◌*◌, ◌/◌, ◌%◌, ◌^◌, ◌<◌, ◌≡◌, ◌≢◌, refl, ap, ◌∙◌, sym, Bool, true, false,
  none, some, List, [], ◌∷◌, ◌++◌, ltb, ◌==◌, if◌then◌else◌, arith, drop, Bool-cases, inl, inr,
  lt→ltb,
}
use native.Mathlib.Omega.{pow_step}
use linux_comon.Prelude.Int.{pos, nearest_int}
use linux_comon.Params.Strings.{decimal}
use linux_comon.Sd.Names.{
  digits_value, atoi, behind_last_p, get_partition_number, directory, directory_of, get_mount_point,
  is_digit,
}

-- Only digits.
abbrev pub all_digits : List ℕ → Bool
all_digits [] = true
all_digits (c ∷ cs) = let rest = all_digits cs in if is_digit c then rest else false

all_digits-append :
    (xs : List ℕ) (c : ℕ)
    → all_digits xs ≡ true
    → is_digit c ≡ true
    → all_digits (xs ++ (c ∷ [])) ≡ true
all_digits-append [] c h k = ground arith
all_digits-append (x ∷ xs) c h k = ground (arith, all_digits-append xs c)

pub all_digits-decimal : (fuel n : ℕ) → all_digits (decimal fuel n) ≡ true
all_digits-decimal zero n = refl
all_digits-decimal (suc fuel) n = elim (Bool-cases (ltb n 10)) [
  | inl last ↦ rw last (ground arith)
  | inr more ↦ rw more (
      all_digits-append (decimal fuel (n / 10)) (48 + n % 10) (all_digits-decimal fuel (n / 10))
        (ground arith))
]

digits_value-append :
    (acc c : ℕ) (xs : List ℕ)
    → all_digits xs ≡ true
    → is_digit c ≡ true
    → digits_value acc (xs ++ (c ∷ [])) ≡ digits_value acc xs * 10 + (c - 48)
digits_value-append acc c [] h k = ground arith
digits_value-append acc c (x ∷ xs) h k =
    ground (arith, digits_value-append (acc * 10 + (x - 48)) c xs)

pub digits_value-decimal : (fuel n : ℕ) → n < 10 ^ fuel → digits_value 0 (decimal fuel n) ≡ n
digits_value-decimal zero n h = omega arith
digits_value-decimal (suc fuel) n h = elim (Bool-cases (ltb n 10)) [
  | inl last ↦ rw last (ground arith)
  | inr more ↦
      rw
        (
          more,
          digits_value-append 0 (48 + n % 10) (decimal fuel (n / 10))
              (all_digits-decimal fuel (n / 10)) (ground arith),
          digits_value-decimal fuel (n / 10) (omega (arith, pow_step 10 fuel)),
        )
        (omega arith)
]

-- Digits hold no 'p'.
behind_last_p-digits : (cs : List ℕ) → all_digits cs ≡ true → behind_last_p cs ≡ none
behind_last_p-digits [] h = refl
behind_last_p-digits (c ∷ cs) h = ground (arith, behind_last_p-digits cs)

behind_last_p-append :
    (base cs : List ℕ) → all_digits cs ≡ true → behind_last_p (base ++ (112 ∷ cs)) ≡ some cs
behind_last_p-append [] cs h = rw (behind_last_p-digits cs h) refl
behind_last_p-append (b ∷ base) cs h = rw (behind_last_p-append base cs h) refl

atoi-digits : (cs : List ℕ) → all_digits cs ≡ true → atoi cs ≡ nearest_int (pos (digits_value 0 cs))
atoi-digits [] h = refl
atoi-digits (c ∷ cs) h = ground arith

get_partition_number-digits :
    (base cs : List ℕ)
    → all_digits cs ≡ true
    → get_partition_number (base ++ (112 ∷ cs)) ≡ nearest_int (pos (digits_value 0 cs))
unfolding get_partition_number
get_partition_number-digits base cs h =
    rw (behind_last_p-append base cs h, get_partition_number) (atoi-digits cs h)

-- The number of a partition is read back from its name: whatever stands in front, a 'p' and a number
-- below 2^31 in decimal give that number.
get_partition_number-decimal :
    (base : List ℕ) (n : ℕ)
    → n < 2 ^ 31
    → get_partition_number (base ++ (112 ∷ decimal 10 n)) ≡ pos n
get_partition_number-decimal base n h =
    get_partition_number-digits base (decimal 10 n) (all_digits-decimal 10 n)
    ∙ (ap (λ v. nearest_int (pos v)) (digits_value-decimal 10 n (omega (arith, h)))
        ∙ rw (lt→ltb n (2 ^ 31) h) refl)

-- The number that a directory stands for.
abbrev number_of : List ℕ → ℕ
number_of dir = elim (drop 11 dir) [ [] ↦ 1 | c ∷ cs ↦ digits_value 0 cs ]

number_of-directory : (n : ℕ) → n < 10 ^ 10 → number_of (directory n) ≡ n
number_of-directory n h = elim (Bool-cases (n == 1)) [
  | inl first ↦ rw first (ground arith)
  | inr other ↦ rw other (digits_value-decimal 10 n h)
]

directory_of-some : (n : ℕ) → n ≢ 0 → directory_of (pos n) ≡ some (directory n)
directory_of-some zero ne = absurd (ne refl)
directory_of-some (suc n) ne = refl

get_mount_point-decimal :
    (base : List ℕ) (n : ℕ)
    → n ≢ 0
    → n < 2 ^ 31
    → get_mount_point (base ++ (112 ∷ decimal 10 n)) ≡ some (directory n)
unfolding get_mount_point
get_mount_point-decimal base n ne h =
    ap directory_of (get_partition_number-decimal base n h) ∙ directory_of-some n ne

-- Two partitions with different numbers that are not 0 and below 2^31, the largest that an `int`
-- holds, never share a mount point.
pub mount_points_apart :
    (base other : List ℕ) (n m : ℕ)
    → n ≢ 0
    → m ≢ 0
    → n < 2 ^ 31
    → m < 2 ^ 31
    → n ≢ m
    → get_mount_point (base ++ (112 ∷ decimal 10 n))
      ≢ get_mount_point (other ++ (112 ∷ decimal 10 m))
mount_points_apart base other n m p q h k ne e = ne (
    sym (number_of-directory n (omega (arith, h)))
    ∙ (ap (λ o. elim o [ none ↦ 0 | some dir ↦ number_of dir ])
          (sym (get_mount_point-decimal base n p h) ∙ (e ∙ get_mount_point-decimal other m q k))
        ∙ number_of-directory m (omega (arith, k))))
