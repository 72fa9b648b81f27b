-- ===== src/Ping/Checksum.antt =====
-- `checksum` of common/utils/network/ping.c, on a machine that stores the low byte first.
use linux_comon.Prelude.{
  ℕ, ◌+◌, ◌-◌, ◌*◌, ◌/◌, ◌%◌, ◌^◌, ◌≤◌, ◌<◌, ◌≡◌, ap, ◌∙◌, ◌⊎◌, List, [], ◌∷◌, arith, length,
}

-- A `uint16_t` at an address.
abbrev pub word : ℕ → ℕ → ℕ
word lo hi = lo + 256 * hi

-- The `while` loop and the odd byte behind it, with what `sum` holds: a `uint32_t`.
unfoldable pub sum_from : ℕ → List ℕ → ℕ
sum_from sum [] = sum
sum_from sum (b ∷ []) = (sum + b) % 2 ^ 32
sum_from sum (lo ∷ (hi ∷ bytes)) = sum_from ((sum + word lo hi) % 2 ^ 32) bytes

-- The two lines that add the carries, and the 16 bits that are returned of the result.
unfoldable pub fold_carries : ℕ → ℕ
fold_carries sum = let once = sum / 2 ^ 16 + sum % 2 ^ 16 in (once + once / 2 ^ 16) % 2 ^ 16

-- (uint16_t)~sum
unfoldable pub checksum : List ℕ → ℕ
unfolding sum_from fold_carries
checksum bytes = 65535 - fold_carries (sum_from 0 bytes)

-- The words of a message added up, with no bound.
abbrev pub total : List ℕ → ℕ
total [] = 0
total (b ∷ []) = b
total (lo ∷ (hi ∷ bytes)) = word lo hi + total bytes

abbrev pub AllBytes : List ℕ → Type 0
AllBytes [] = Unit
AllBytes (b ∷ bytes) = (b < 256) × AllBytes bytes

pub total_bound : (bytes : List ℕ) → AllBytes bytes → total bytes ≤ 32768 * (length bytes + 1)
total_bound [] h = omega arith
total_bound (b ∷ []) h = omega arith
total_bound (lo ∷ (hi ∷ bytes)) (h, (k, r)) = omega (arith, h, k, total_bound bytes r)

-- No sum of a message of at most 65535 bytes wraps around.
sum_from-total :
    (bytes : List ℕ) (sum : ℕ) → sum + total bytes < 2 ^ 32 → sum_from sum bytes ≡ sum + total bytes
unfolding sum_from
sum_from-total [] sum h = omega arith
sum_from-total (b ∷ []) sum h = omega arith
sum_from-total (lo ∷ (hi ∷ bytes)) sum h =
    let small : (sum + word lo hi) % 2 ^ 32 ≡ sum + word lo hi = omega arith in
    rw small (sum_from-total bytes (sum + word lo hi) (omega arith) ∙ omega arith)

pub checksum-total :
    (bytes : List ℕ)
    → AllBytes bytes
    → length bytes < 65536
    → checksum bytes ≡ 65535 - fold_carries (total bytes)
unfolding checksum
checksum-total bytes h short =
    ap (λ s. 65535 - fold_carries s)
      (sum_from-total bytes 0 (omega (arith, total_bound bytes h)) ∙ omega arith)

-- A sum to which the complement of its carries has been added.
pub fold_carries-complement :
    (s : ℕ) → s < 2 ^ 31 → fold_carries (s + (65535 - fold_carries s)) ≡ 65535
unfolding fold_carries
fold_carries-complement s h = omega arith

-- The folded sum tells two words apart, but for 0 and 0xffff.
pub fold_carries-word :
    (s v w : ℕ)
    → s < 2 ^ 31
    → v < 2 ^ 16
    → w < 2 ^ 16
    → fold_carries (s + v) ≡ fold_carries (s + w)
    → (v ≡ w) ⊎ (((v ≡ 0) × (w ≡ 65535)) ⊎ ((v ≡ 65535) × (w ≡ 0)))
unfolding fold_carries
fold_carries-word s v w h hv hw e = ground arith
