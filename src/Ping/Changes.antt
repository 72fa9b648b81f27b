-- ===== src/Ping/Changes.antt =====
-- What `checksum` of common/utils/network/ping.c notices.
use linux_comon.Prelude.{
  ℕ, ◌+◌, ◌-◌, ◌%◌, ◌^◌, ◌<◌, ◌≡◌, sym, ap, ◌∙◌, ◌⊎◌, List, [], ◌∷◌, ◌++◌, arith, length,
  length-append,
}
use linux_comon.Ping.Checksum.{
  checksum, checksum-total, total, total_bound, AllBytes, fold_carries, fold_carries-word,
}
use linux_comon.Ping.Packet.{low, high}

-- A message with the word `v` behind `front`.
abbrev pub with_word : List ℕ → ℕ → List ℕ → List ℕ
with_word front v rest = front ++ (low v ∷ high v ∷ rest)

total-with_word :
    (front rest : List ℕ) (v : ℕ)
    → length front % 2 ≡ 0
    → total (with_word front v rest) ≡ total (with_word front 0 rest) + v
total-with_word [] rest v even = omega arith
total-with_word (b ∷ []) rest v even = absurd (omega arith)
total-with_word (lo ∷ (hi ∷ front)) rest v even =
    omega (arith, total-with_word front rest v (omega arith))

AllBytes-with_word :
    (front rest : List ℕ) (v : ℕ)
    → v < 2 ^ 16
    → AllBytes front
    → AllBytes rest
    → AllBytes (with_word front v rest)
AllBytes-with_word [] rest v h f r = (omega arith, (omega arith, r))
AllBytes-with_word (b ∷ front) rest v h f r = (f.0, AllBytes-with_word front rest v h f.1 r)

folded :
    (front rest : List ℕ) (v : ℕ)
    → v < 2 ^ 16
    → length front % 2 ≡ 0
    → AllBytes front
    → AllBytes rest
    → length front + length rest < 65520
    → checksum (with_word front v rest) ≡ 65535 - fold_carries (total (with_word front 0 rest) + v)
folded front rest v h even f r short =
    checksum-total (with_word front v rest) (AllBytes-with_word front rest v h f r)
      (omega (arith, length-append front (low v ∷ high v ∷ rest)))
    ∙ ap (λ t. 65535 - fold_carries t) (total-with_word front rest v even)

fold_bound : (s : ℕ) → fold_carries s < 2 ^ 16
unfolding fold_carries
fold_bound s = omega arith

-- A message in which one word of 16 bits is changed has another checksum, unless the word is changed
-- from 0 to 0xffff or back.
pub checksum-changed :
    (front rest : List ℕ) (v w : ℕ)
    → v < 2 ^ 16
    → w < 2 ^ 16
    → length front % 2 ≡ 0
    → AllBytes front
    → AllBytes rest
    → length front + length rest < 65520
    → checksum (with_word front v rest) ≡ checksum (with_word front w rest)
    → (v ≡ w) ⊎ (((v ≡ 0) × (w ≡ 65535)) ⊎ ((v ≡ 65535) × (w ≡ 0)))
checksum-changed front rest v w hv hw even f r short e =
    let base = with_word front 0 rest in
    let small : total base < 2 ^ 31 = omega (
      arith,
      total_bound base (AllBytes-with_word front rest 0 (omega arith) f r),
      length-append front (low 0 ∷ high 0 ∷ rest),
    ) in
    fold_carries-word (total base) v w small hv hw (
      omega (
        arith,
        sym (folded front rest v hv even f r short) ∙ (e ∙ folded front rest w hw even f r short),
        fold_bound (total base + v),
        fold_bound (total base + w),
      ))
