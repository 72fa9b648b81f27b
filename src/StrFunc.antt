-- ===== src/StrFunc.antt =====
-- project/SmartCam/module/src/strfunc.c: numbers that are read from strings. `pulValue` is behind the
-- call what the second part of the result is.
pub mod Exact
mod Tests
use linux_comon.Prelude.{
  ℕ, ◌+◌, ◌-◌, ◌*◌, ◌%◌, ◌^◌, Bool, ◌&&◌, ◌||◌, List, [], ◌∷◌, ltb, leb, ◌==◌, if◌then◌else◌,
}
use linux_comon.Prelude.Int.{ℤ, pos, minus_one}
use linux_comon.Sd.Names.{is_digit}

-- HI_SUCCESS and HI_FAILURE
abbrev pub hi_success : ℤ
hi_success = pos 0

abbrev pub hi_failure : ℤ
hi_failure = minus_one

-- The test in front of ulResult * 10 + digit.
abbrev pub fits_ten : ℕ → ℕ → Bool
fits_ten result c = ltb result 429496729 || ((result == 429496729) && ltb c b'6')

-- The loop of `atoul`, on the rest of the string.
unfoldable pub atoul_from : ℕ → List ℕ → ℤ × ℕ
atoul_from result [] = (hi_success, result)
atoul_from result (c ∷ cs) =
    let more = atoul_from ((result * 10 + c + 2 ^ 32 - 48) % 2 ^ 32) cs in
    if is_digit c
    then (if fits_ten result c then more else (hi_failure, result))
    else (hi_failure, result)

unfoldable pub atoul : List ℕ → ℤ × ℕ
unfolding atoul_from
atoul str = atoul_from 0 str

abbrev pub toupper : ℕ → ℕ
toupper c = if leb b'a' c && leb c b'z' then c - 32 else c

abbrev pub is_hex_letter : ℕ → Bool
is_hex_letter ch = leb b'A' ch && leb ch b'F'

-- ASC2NUM or HEXASC2NUM
abbrev pub hex_number : ℕ → ℕ
hex_number ch = if leb ch b'9' then ch - 48 else ch - b'A' + 10

unfoldable pub atoulx_from : ℕ → List ℕ → ℤ × ℕ
atoulx_from result [] = (hi_success, result)
atoulx_from result (c ∷ cs) =
    let ch = toupper c in
    let more = atoulx_from ((result * 2 ^ 4 + hex_number ch) % 2 ^ 32) cs in
    if is_digit ch || is_hex_letter ch
    then (if ltb result 0x10000000 then more else (hi_failure, result))
    else (hi_failure, result)

unfoldable pub atoulx : List ℕ → ℤ × ℕ
unfolding atoulx_from
atoulx str = atoulx_from 0 str

-- The test on "0x", and the call.
abbrev pub is_x : ℕ → Bool
is_x c = (c == b'x') || (c == b'X')

-- `StrToNumber`, with what `*pulValue` holds before.
unfoldable pub str_to_number : List ℕ → ℕ → ℤ × ℕ
unfolding atoul atoulx
str_to_number [] value = atoul []
str_to_number (c ∷ []) value = atoul (c ∷ [])
str_to_number (c ∷ (x ∷ [])) value =
    if (c == b'0') && is_x x then (hi_failure, value) else atoul (c ∷ x ∷ [])
str_to_number (c ∷ (x ∷ (d ∷ cs))) value =
    if (c == b'0') && is_x x then atoulx (d ∷ cs) else atoul (c ∷ x ∷ d ∷ cs)
