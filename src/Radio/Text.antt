-- ===== src/Radio/Text.antt =====
-- The functions of the C library that common/utils/rf calls on strings: lists of bytes, without the
-- NUL.
use Prim.Native.Char.{code}
use Prim.Native.String.{String}
use linux_comon.Prelude.{
  ℕ, zero, suc, ◌+◌, ◌-◌, ◌/◌, Bool, true, false, ◌&&◌, Option, none, some, List, [], ◌∷◌, ◌++◌,
  ltb, leb, ◌==◌, if◌then◌else◌, length, drop,
}
use linux_comon.Prelude.Int.{ℤ, pos, negsuc, nearest_int}
use linux_comon.Sd.Names.{is_digit, is_blank, digits_value, negated}

-- The bytes of a literal.
abbrev pub codes : String → List ℕ
codes String.[] = []
codes (String.◌∷◌ c s) = code c ∷ codes s

-- strncmp(s, word, strlen(word)) == 0
abbrev pub starts_with : List ℕ → List ℕ → Bool
starts_with [] s = true
starts_with (c ∷ cs) [] = false
starts_with (c ∷ cs) (x ∷ xs) = (c == x) && starts_with cs xs

-- strstr(s, word): the string from the first occurrence on.
abbrev pub strstr : List ℕ → List ℕ → Option (List ℕ)
strstr [] word = if starts_with word [] then some [] else none
strstr (x ∷ xs) word = if starts_with word (x ∷ xs) then some (x ∷ xs) else strstr xs word

abbrev pub found : Option (List ℕ) → Bool
found none = false
found (some s) = true

abbrev pub has : List ℕ → List ℕ → Bool
has s word = found (strstr s word)

-- What `sscanf` skips before a conversion, and for a blank of the format.
abbrev pub skip_blanks : List ℕ → List ℕ
skip_blanks [] = []
skip_blanks (c ∷ cs) = let rest = skip_blanks cs in if is_blank c then rest else c ∷ cs

-- "%s": a word that is not empty, and what follows it.
abbrev pub word_of : List ℕ → List ℕ
word_of [] = []
word_of (c ∷ cs) = let rest = word_of cs in if is_blank c then [] else c ∷ rest

abbrev pub behind_word : List ℕ → List ℕ
behind_word [] = []
behind_word (c ∷ cs) = let rest = behind_word cs in if is_blank c then c ∷ cs else rest

abbrev pub word_or_none : List ℕ → Option (List ℕ × List ℕ)
word_or_none [] = none
word_or_none (c ∷ cs) = some (word_of (c ∷ cs), behind_word (c ∷ cs))

abbrev pub scan_word : List ℕ → Option (List ℕ × List ℕ)
scan_word s = word_or_none (skip_blanks s)

-- "%d": a sign or none, and at least one digit.
abbrev pub behind_digits : List ℕ → List ℕ
behind_digits [] = []
behind_digits (c ∷ cs) = let rest = behind_digits cs in if is_digit c then rest else c ∷ cs

abbrev pub scan_digits : (ℕ → ℤ) → List ℕ → Option (ℤ × List ℕ)
scan_digits sign [] = none
scan_digits sign (c ∷ cs) =
    if is_digit c
    then some (nearest_int (sign (digits_value 0 (c ∷ cs))), behind_digits (c ∷ cs))
    else none

abbrev pub scan_signed : List ℕ → Option (ℤ × List ℕ)
scan_signed [] = none
scan_signed (c ∷ cs) =
    if c == b'-'
    then scan_digits negated cs
    else if c == b'+'
    then scan_digits pos cs
    else scan_digits pos (c ∷ cs)

abbrev pub scan_int : List ℕ → Option (ℤ × List ℕ)
scan_int s = scan_signed (skip_blanks s)

-- The characters of a format stand in the input, a blank of it for any blanks.
abbrev pub scan_literal : List ℕ → List ℕ → Option (List ℕ)
scan_literal [] s = some s
scan_literal (f ∷ fs) s =
    if is_blank f
    then scan_literal fs (skip_blanks s)
    else elim s [ [] ↦ none | c ∷ cs ↦ if c == f then scan_literal fs cs else none ]

-- The numbers that a format ",%d,%d…" of `n` conversions reads before it fails.
abbrev pub scan_ints : ℕ → List ℕ → List ℤ
scan_ints zero s = []
scan_ints (suc n) s = elim (scan_literal (b',' ∷ []) s) [
  | none ↦ []
  | some t ↦ elim (scan_int t) [ none ↦ [] | some (v, rest) ↦ v ∷ scan_ints n rest ]
]

-- What `strtok` gives out, call by call: the pieces between separators that are not empty. `piece`
-- is the one that is being read.
abbrev pub ended : List ℕ → List (List ℕ) → List (List ℕ)
ended [] rest = rest
ended (c ∷ cs) rest = (c ∷ cs) ∷ rest

abbrev pub strtok_from : (ℕ → Bool) → List ℕ → List ℕ → List (List ℕ)
strtok_from separates piece [] = ended piece []
strtok_from separates piece (c ∷ cs) =
    let fresh = ended piece (strtok_from separates [] cs) in
    let longer = strtok_from separates (piece ++ (c ∷ [])) cs in
    if separates c then fresh else longer

abbrev pub strtok : (ℕ → Bool) → List ℕ → List (List ℕ)
strtok separates s = strtok_from separates [] s

-- strcpy or a conversion "%s" into an array; none where it writes behind the array.
abbrev pub store_string : List ℕ → List ℕ → Option (List ℕ)
store_string cs dst =
    if ltb (length cs) (length dst) then some (cs ++ (0 ∷ drop (length cs + 1) dst)) else none

-- strncmp(s, word, strlen(word)), of which the C library fixes the sign.
abbrev pub strncmp : List ℕ → List ℕ → ℤ
strncmp s [] = pos 0
strncmp [] (w ∷ ws) = negsuc 0
strncmp (c ∷ cs) (w ∷ ws) = if c == w then strncmp cs ws else if ltb c w then negsuc 0 else pos 1

-- a - n, of a difference that fits an `int` (C gives no other a meaning), and a / 5, which C cuts
-- towards 0.
abbrev pub minus : ℤ → ℕ → ℤ
minus (pos a) n = if leb n a then pos (a - n) else negsuc (n - a - 1)
minus (negsuc a) n = negsuc (a + n)

abbrev pub fifth : ℤ → ℤ
fifth (pos a) = pos (a / 5)
fifth (negsuc a) = negated ((a + 1) / 5)
