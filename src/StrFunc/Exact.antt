-- ===== src/StrFunc/Exact.antt =====
-- What the strings of project/SmartCam/module/src/strfunc.c stand for.
use linux_comon.Prelude.{
  ℕ, ◌+◌, ◌-◌, ◌*◌, ◌%◌, ◌^◌, ◌≤◌, ◌<◌, ◌≡◌, refl, Bool, true, false, ◌&&◌, ◌||◌, List, [], ◌∷◌,
  ltb, ◌==◌, if◌then◌else◌, arith, Bool-cases, inl, inr, lt→ltb, ltb→lt,
}
use linux_comon.Prelude.Int.{ℤ}
use linux_comon.Sd.Names.{is_digit}
use linux_comon.StrFunc.{
  hi_success, hi_failure, fits_ten, atoul_from, atoul, toupper, is_hex_letter, hex_number,
  atoulx_from, atoulx, str_to_number,
}

-- The value of digits to base ten and to base sixteen, without a bound.
abbrev pub ten_value : ℕ → List ℕ → ℕ
ten_value acc [] = acc
ten_value acc (c ∷ cs) = ten_value (acc * 10 + (c - 48)) cs

-- 0 to 9, A to F and a to f.
abbrev pub digit_of : ℕ → ℕ
digit_of c = if ltb c 58 then c - 48 else if ltb c 71 then c - 55 else c - 87

abbrev pub hex_value : ℕ → List ℕ → ℕ
hex_value acc [] = acc
hex_value acc (c ∷ cs) = hex_value (acc * 16 + digit_of c) cs

abbrev pub is_ten : ℕ → Bool
is_ten c = ltb 47 c && ltb c 58

abbrev pub all_ten : List ℕ → Bool
all_ten [] = true
all_ten (c ∷ cs) = is_ten c && all_ten cs

abbrev pub is_hex : ℕ → Bool
is_hex c = is_ten c || ((ltb 64 c && ltb c 71) || (ltb 96 c && ltb c 103))

abbrev pub all_hex : List ℕ → Bool
all_hex [] = true
all_hex (c ∷ cs) = is_hex c && all_hex cs

-- The characters that the two loops accept.
is_digit-ten : (c : ℕ) → is_digit c ≡ is_ten c
is_digit-ten c = ground arith

toupper-hex : (c : ℕ) → (is_digit (toupper c) || is_hex_letter (toupper c)) ≡ is_hex c
toupper-hex c = ground arith

hex_number-digit : (c : ℕ) → is_hex c ≡ true → hex_number (toupper c) ≡ digit_of c
hex_number-digit c h = ground (arith, h)

-- Success with the value, or failure.
abbrev pub Reads : Bool → ℕ → ℤ × ℕ → Type 0
Reads true v o = o ≡ (hi_success, v)
Reads false v o = o.0 ≡ hi_failure

ten_value-le : (acc : ℕ) (cs : List ℕ) → acc ≤ ten_value acc cs
ten_value-le acc [] = omega arith
ten_value-le acc (c ∷ cs) = omega (arith, ten_value-le (acc * 10 + (c - 48)) cs)

hex_value-le : (acc : ℕ) (cs : List ℕ) → acc ≤ hex_value acc cs
hex_value-le acc [] = omega arith
hex_value-le acc (c ∷ cs) = omega (arith, hex_value-le (acc * 16 + digit_of c) cs)

Reads-failure : (v w : ℕ) (a b : Bool) → b ≡ false → Reads (a && b) v (hi_failure, w)
Reads-failure v w true b e = rw e refl
Reads-failure v w false b e = refl

-- A value that is too large does not become smaller.
not_ltb : (a b : ℕ) → b ≤ a → ltb a b ≡ false
not_ltb a b h = ground (arith, h)

atoul_from-Reads :
    (r : ℕ) (cs : List ℕ)
    → r < 2 ^ 32
    → Reads (all_ten cs && ltb (ten_value r cs) (2 ^ 32)) (ten_value r cs) (atoul_from r cs)
unfolding atoul_from
atoul_from-Reads r [] h = rw (lt→ltb r (2 ^ 32) h) refl
atoul_from-Reads r (c ∷ cs) h = elim (Bool-cases (is_ten c)) [
  | inl d ↦ elim (Bool-cases (fits_ten r c)) [
    | inl fits ↦
        let step : (r * 10 + c + 2 ^ 32 - 48) % 2 ^ 32 ≡ r * 10 + (c - 48) =
          ground (arith, d, fits) in
        let less : r * 10 + (c - 48) < 2 ^ 32 = ground (arith, d, fits) in
        rw (is_digit-ten c, d, fits, step) (atoul_from-Reads (r * 10 + (c - 48)) cs less)
    | inr over ↦
        let large : 2 ^ 32 ≤ r * 10 + (c - 48) = ground (arith, d, over) in
        rw (is_digit-ten c, d, over)
          (Reads-failure _ r (all_ten cs) _ (
            not_ltb (ten_value (r * 10 + (c - 48)) cs) (2 ^ 32)
              (omega (arith, large, ten_value-le (r * 10 + (c - 48)) cs))))
  ]
  | inr nd ↦ rw (is_digit-ten c, nd) refl
]

digit_of_bound : (c : ℕ) → is_hex c ≡ true → digit_of c < 16
digit_of_bound c h = ground (arith, h)

atoulx_from-Reads :
    (r : ℕ) (cs : List ℕ)
    → r < 2 ^ 32
    → Reads (all_hex cs && ltb (hex_value r cs) (2 ^ 32)) (hex_value r cs) (atoulx_from r cs)
unfolding atoulx_from
atoulx_from-Reads r [] h = rw (lt→ltb r (2 ^ 32) h) refl
atoulx_from-Reads r (c ∷ cs) h = elim (Bool-cases (is_hex c)) [
  | inl d ↦ elim (Bool-cases (ltb r 0x10000000)) [
    | inl fits ↦
        let small : digit_of c < 16 = digit_of_bound c d in
        let less : r * 16 + digit_of c < 2 ^ 32 = omega (arith, small, ltb→lt r 0x10000000 fits) in
        let step : (r * 2 ^ 4 + digit_of c) % 2 ^ 32 ≡ r * 16 + digit_of c = omega (arith, less) in
        rw (toupper-hex c, d, fits, hex_number-digit c d, step)
          (atoulx_from-Reads (r * 16 + digit_of c) cs less)
    | inr over ↦
        let large : 2 ^ 32 ≤ r * 16 + digit_of c = ground (arith, over) in
        rw (toupper-hex c, d, over)
          (Reads-failure _ r (all_hex cs) _ (
            not_ltb (hex_value (r * 16 + digit_of c) cs) (2 ^ 32)
              (omega (arith, large, hex_value-le (r * 16 + digit_of c) cs))))
  ]
  | inr nd ↦ rw (toupper-hex c, nd) refl
]

-- A number that a string spells: decimal digits, or "0x" and at least one hexadecimal digit, below
-- 2^32. The empty string spells 0.
abbrev pub is_decimal : List ℕ → Bool
is_decimal str = all_ten str && ltb (ten_value 0 str) (2 ^ 32)

abbrev pub is_hexadecimal : List ℕ → Bool
is_hexadecimal str = all_hex str && ltb (hex_value 0 str) (2 ^ 32)

abbrev pub starts_hex : ℕ → ℕ → Bool
starts_hex c x = (c == 48) && ((x == 120) || (x == 88))

abbrev pub is_number : List ℕ → Bool
is_number [] = true
is_number (c ∷ []) = is_decimal (c ∷ [])
is_number (c ∷ (x ∷ [])) = if starts_hex c x then false else is_decimal (c ∷ x ∷ [])
is_number (c ∷ (x ∷ (d ∷ cs))) =
    if starts_hex c x then is_hexadecimal (d ∷ cs) else is_decimal (c ∷ x ∷ d ∷ cs)

abbrev pub number : List ℕ → ℕ
number [] = 0
number (c ∷ []) = ten_value 0 (c ∷ [])
number (c ∷ (x ∷ [])) = if starts_hex c x then 0 else ten_value 0 (c ∷ x ∷ [])
number (c ∷ (x ∷ (d ∷ cs))) =
    if starts_hex c x then hex_value 0 (d ∷ cs) else ten_value 0 (c ∷ x ∷ d ∷ cs)

-- `StrToNumber` returns HI_SUCCESS and the number exactly for the strings that spell a number of 32
-- bits, in decimal or behind "0x" or "0X" in hexadecimal, HI_SUCCESS and 0 for the empty string, and
-- HI_FAILURE for every other string.
pub str_to_number-Reads :
    (str : List ℕ) (value : ℕ) → Reads (is_number str) (number str) (str_to_number str value)
unfolding str_to_number atoul atoulx
str_to_number-Reads [] value = atoul_from-Reads 0 [] (omega arith)
str_to_number-Reads (c ∷ []) value = atoul_from-Reads 0 (c ∷ []) (omega arith)
str_to_number-Reads (c ∷ (x ∷ [])) value = elim (Bool-cases (starts_hex c x)) [
  | inl hex ↦ rw hex refl
  | inr ten ↦ rw ten (atoul_from-Reads 0 (c ∷ x ∷ []) (omega arith))
]
str_to_number-Reads (c ∷ (x ∷ (d ∷ cs))) value = elim (Bool-cases (starts_hex c x)) [
  | inl hex ↦ rw hex (atoulx_from-Reads 0 (d ∷ cs) (omega arith))
  | inr ten ↦ rw ten (atoul_from-Reads 0 (c ∷ x ∷ d ∷ cs) (omega arith))
]
