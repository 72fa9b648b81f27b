-- ===== src/Sd/Names.antt =====
-- Names of devices and mount points in project/iot-gw/app/mount_sd.c, as characters.
use linux_comon.Prelude.{
  ℕ, zero, suc, ◌+◌, ◌-◌, ◌*◌, Bool, ◌&&◌, ◌||◌, Option, none, some, List, [], ◌∷◌, ◌++◌, leb, ◌==◌,
  if◌then◌else◌,
}
use linux_comon.Prelude.Int.{ℤ, pos, negsuc, minus_one, nearest_int}
use linux_comon.Params.Strings.{decimal}

-- A decimal digit.
abbrev pub is_digit : ℕ → Bool
is_digit c = leb 48 c && leb c 57

-- The number that the digits in front spell, behind the digits read so far.
abbrev pub digits_value : ℕ → List ℕ → ℕ
digits_value acc [] = acc
digits_value acc (c ∷ cs) =
    let rest = digits_value (acc * 10 + (c - 48)) cs in if is_digit c then rest else acc

abbrev pub negated : ℕ → ℤ
negated n = if n == 0 then pos 0 else negsuc (n - 1)

-- A blank in the sense of `isspace`.
abbrev pub is_blank : ℕ → Bool
is_blank c = (c == 32) || (leb 9 c && leb c 13)

-- `atoi`, which is `strtol` to base ten.
abbrev pub atoi : List ℕ → ℤ
atoi [] = pos 0
atoi (c ∷ cs) =
    let rest = atoi cs in
    if is_blank c
    then rest
    else if c == 45
    then nearest_int (negated (digits_value 0 cs))
    else if c == 43
    then nearest_int (pos (digits_value 0 cs))
    else nearest_int (pos (digits_value 0 (c ∷ cs)))

-- What stands behind the last 'p'.
abbrev pub behind_last_p : List ℕ → Option (List ℕ)
behind_last_p [] = none
behind_last_p (c ∷ cs) = elim (behind_last_p cs) [
  | some tail ↦ some tail
  | none ↦ if c == 112 then some cs else none
]

unfoldable pub get_partition_number : List ℕ → ℤ
get_partition_number name = elim (behind_last_p name) [ none ↦ minus_one | some tail ↦ atoi tail ]

-- "/mnt/sdcard"
abbrev pub mnt_sdcard : List ℕ
mnt_sdcard = 47 ∷ 109 ∷ 110 ∷ 116 ∷ 47 ∷ 115 ∷ 100 ∷ 99 ∷ 97 ∷ 114 ∷ 100 ∷ []

-- The directory of a partition: the first one has no number.
abbrev pub directory : ℕ → List ℕ
directory n = if n == 1 then mnt_sdcard else mnt_sdcard ++ (95 ∷ decimal 10 n)

-- No directory for a number that is not positive.
abbrev pub directory_of : ℤ → Option (List ℕ)
directory_of (negsuc n) = none
directory_of (pos zero) = none
directory_of (pos (suc n)) = some (directory (suc n))

unfoldable pub get_mount_point : List ℕ → Option (List ℕ)
unfolding get_partition_number
get_mount_point name = directory_of (get_partition_number name)
