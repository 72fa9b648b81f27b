-- ===== src/Params/Uuid.antt =====
-- `int_to_str` and `ModParamGetUUID` of project/elec/module/src/ModParam.c.
use linux_comon.Prelude.{
  ℕ, zero, suc, ◌+◌, ◌-◌, ◌*◌, ◌/◌, ◌%◌, ◌^◌, ◌<◌, ◌≡◌, refl, ◌∙◌, Bool, true, ◌&&◌, ◌||◌, List, [],
  ◌∷◌, ◌++◌, drop, ltb, if◌then◌else◌, arith, ap, length, length-drop, take, replicate,
}
use native.Mathlib.Omega.{pow_step}
use native.Mathlib.Nat.{mul_assoc}

-- The character of a digit, as a byte.
abbrev pub hex_digit : ℕ → ℕ
hex_digit d = if ltb d 10 then 48 + d else 65 + d - 10

-- The characters that the loop of `int_to_str` stores from here on, for `left` more rounds.
abbrev pub hex_digits : ℕ → ℕ → List ℕ
hex_digits value zero = []
hex_digits value (suc left) =
    hex_digit (value / 2 ^ 28) ∷ hex_digits ((value * 2 ^ 4) % 2 ^ 32) left

-- The buffer behind the write of `len` digits and a NUL at `at`.
unfoldable pub int_to_str : ℕ → List ℕ → ℕ → ℕ → List ℕ
int_to_str value pbuf at len =
    take at pbuf ++ (hex_digits value len ++ (0 ∷ drop (at + len + 1) pbuf))

-- DEVICE_ID1, DEVICE_ID2 and DEVICE_ID3
abbrev pub device_id1 : ℕ
device_id1 = 0x1ffff7e8

abbrev pub device_id2 : ℕ
device_id2 = 0x1ffff7ec

abbrev pub device_id3 : ℕ
device_id3 = 0x1ffff7f0

-- The static buffer of 25 bytes, from what a call finds in it.
unfoldable pub get_uuid : List ℕ → List ℕ
unfolding int_to_str
get_uuid uuid =
    let one = int_to_str ((device_id1 + device_id3) % 2 ^ 32) uuid 0 8 in
    let two = int_to_str device_id2 one 8 8 in int_to_str device_id3 two 16 8

-- The characters 0 to 9 and A to F.
abbrev pub is_hex_character : ℕ → Bool
is_hex_character c = (ltb 47 c && ltb c 58) || (ltb 64 c && ltb c 71)

abbrev pub all_hex_characters : List ℕ → Bool
all_hex_characters [] = true
all_hex_characters (c ∷ cs) = is_hex_character c && all_hex_characters cs

-- The number that hexadecimal characters stand for.
abbrev pub unhex : ℕ → ℕ
unhex c = if ltb c 58 then c - 48 else c - 55

abbrev pub number_from : ℕ → List ℕ → ℕ
number_from acc [] = acc
number_from acc (c ∷ cs) = number_from (acc * 16 + unhex c) cs

unhex-digit : (d : ℕ) → d < 16 → unhex (hex_digit d) ≡ d
unhex-digit d h = ground arith

hex_digit-character : (d : ℕ) → d < 16 → is_hex_character (hex_digit d) ≡ true
hex_digit-character d h = ground arith

all_hex_characters-hex_digits : (n v : ℕ) → v < 2 ^ 32 → all_hex_characters (hex_digits v n) ≡ true
all_hex_characters-hex_digits zero v h = refl
all_hex_characters-hex_digits (suc n) v h =
    let character : is_hex_character (hex_digit (v / 2 ^ 28)) ≡ true =
      hex_digit-character (v / 2 ^ 28) (omega arith) in
    rw (character, all_hex_characters-hex_digits n ((v * 2 ^ 4) % 2 ^ 32) (omega arith)) refl

-- A round moves one digit from the value to the number.
round_lem :
    (acc v : ℕ)
    → v < 2 ^ 32
    → (acc * 16 + v / 2 ^ 28) * 2 ^ 32 + (v * 2 ^ 4) % 2 ^ 32 ≡ (acc * 2 ^ 32 + v) * 16
round_lem acc v h = omega arith

times_pow : (a n : ℕ) → a * 16 * 16 ^ n ≡ a * 16 ^ suc n
times_pow a n = rw (pow_step 16 n) (mul_assoc a 16 (16 ^ n))

whole : (x rest v : ℕ) → rest < 2 ^ 32 → x * 2 ^ 32 + rest ≡ (0 * 2 ^ 32 + v) * 16 ^ 8 → x ≡ v
whole x rest v small e = omega arith

number_from-hex_digits :
    (n acc v : ℕ)
    → v < 2 ^ 32
    → (rest : ℕ) × (rest < 2 ^ 32)
      × (number_from acc (hex_digits v n) * 2 ^ 32 + rest ≡ (acc * 2 ^ 32 + v) * 16 ^ n)
number_from-hex_digits zero acc v h = (v, h, omega arith)
number_from-hex_digits (suc n) acc v h =
    let (rest, small, e) =
      number_from-hex_digits n (acc * 16 + v / 2 ^ 28) ((v * 2 ^ 4) % 2 ^ 32) (omega arith) in
    let digit : unhex (hex_digit (v / 2 ^ 28)) ≡ v / 2 ^ 28 =
      unhex-digit (v / 2 ^ 28) (omega arith) in
    let power : ((acc * 16 + v / 2 ^ 28) * 2 ^ 32 + (v * 2 ^ 4) % 2 ^ 32) * 16 ^ n
        ≡ (acc * 2 ^ 32 + v) * 16 ^ suc n =
      rw (round_lem acc v h) (times_pow (acc * 2 ^ 32 + v) n) in
    (rest, small, rw (digit, number_from, hex_digits) (e ∙ power))

-- The eight characters that `int_to_str` makes of a 32-bit value are digits and letters from A to F,
-- and they are the value in hexadecimal.
pub number_from-int_to_str :
    (v : ℕ)
    → v < 2 ^ 32
    → let text = take 8 (int_to_str v (replicate 9 0) 0 8) in
      (all_hex_characters text ≡ true) × (number_from 0 text ≡ v)
unfolding int_to_str
number_from-int_to_str v h =
    let (rest, small, e) = number_from-hex_digits 8 0 v h in
    (all_hex_characters-hex_digits 8 v h, whole (number_from 0 (hex_digits v 8)) rest v small e)

no_bytes : (xs : List ℕ) → length xs ≡ 0 → xs ≡ []
no_bytes [] h = refl
no_bytes (x ∷ xs) h = absurd (omega (arith, h))

-- `ModParamGetUUID` leaves the same 24 characters and a NUL in its buffer, whatever it finds there:
-- the three device numbers in hexadecimal, the first one with the third added to it.
get_uuid_lem :
    (uuid : List ℕ)
    → length uuid ≡ 25
    → get_uuid uuid
      ≡ hex_digits ((device_id1 + device_id3) % 2 ^ 32) 8
        ++ (hex_digits device_id2 8 ++ (hex_digits device_id3 8 ++ (0 ∷ [])))
unfolding get_uuid int_to_str
get_uuid_lem uuid h =
    let rest = drop 8 (drop 8 (drop 9 uuid)) in
    let short : length rest ≡ 0 = omega (
      arith,
      h,
      length-drop 8 (drop 8 (drop 9 uuid)),
      length-drop 8 (drop 9 uuid),
      length-drop 9 uuid,
    ) in
    ap
      (λ r.
        hex_digits ((device_id1 + device_id3) % 2 ^ 32) 8
        ++ (hex_digits device_id2 8 ++ (hex_digits device_id3 8 ++ (0 ∷ r))))
      (no_bytes rest short)
