-- ===== src/Params/Strings.antt =====
-- The string functions that project/elec/module/src/ModParam.c calls, on arrays of bytes.
use linux_comon.Prelude.{
  ℕ, zero, suc, ◌+◌, ◌-◌, ◌/◌, ◌%◌, Option, none, some, List, [], ◌∷◌, ◌++◌, leb, ltb, ◌==◌,
  if◌then◌else◌, length, take, drop, replicate,
}

-- The string in an array; none where no byte is NUL, so that the code reads on behind it.
abbrev pub c_string : List ℕ → Option (List ℕ)
c_string [] = none
c_string (b ∷ bs) =
    let rest = c_string bs in
    if b == 0 then some [] else elim rest [ none ↦ none | some cs ↦ some (b ∷ cs) ]

-- strncpy(dst, src, n), for a string `src`; none where it writes behind the array `dst`.
unfoldable pub strncpy : List ℕ → List ℕ → ℕ → Option (List ℕ)
strncpy dst src n =
    if leb n (length dst) then some (take n (src ++ replicate n 0) ++ drop n dst) else none

-- snprintf(dst, sizeof(dst), …) of an array that is not empty, with the given output.
unfoldable pub snprintf : List ℕ → List ℕ → List ℕ
snprintf dst text = let cs = take (length dst - 1) text in cs ++ (0 ∷ drop (length cs + 1) dst)

-- The decimal digits of a number, at most `fuel` of them.
abbrev pub decimal : ℕ → ℕ → List ℕ
decimal zero n = []
decimal (suc fuel) n = (if ltb n 10 then [] else decimal fuel (n / 10)) ++ ((48 + n % 10) ∷ [])

-- "%u": a 32-bit number has at most ten digits.
abbrev pub unsigned_text : ℕ → List ℕ
unsigned_text n = decimal 10 n

infixl 5 ◌>>=◌
abbrev pub ◌>>=◌ {ℓ κ} : {A : Type ℓ} {B : Type κ} → Option A → (A → Option B) → Option B
none >>= f = none
some a >>= f = f a

-- strncpy(dst, src, strlen(src) + 1), for an array `src`.
unfoldable pub copy_string : List ℕ → List ℕ → Option (List ℕ)
unfolding strncpy
copy_string dst src = do cs ← c_string src; strncpy dst cs (length cs + 1)
