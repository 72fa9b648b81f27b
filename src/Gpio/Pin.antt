-- ===== src/Gpio/Pin.antt =====
-- The functions of common/utils/gpio/gpio.c.
use linux_comon.Prelude.{
  ℕ, zero, suc, ◌+◌, ◌*◌, ◌/◌, ◌%◌, Bool, true, false, not, List, [], ◌∷◌, ◌++◌, ltb, ◌==◌,
  if◌then◌else◌, get_or, length, take, replicate,
}
use linux_comon.Prelude.Int.{ℤ, pos, negsuc, minus_one, negative, positive, is_zero, below}
use linux_comon.Gpio.Files.{
  gpio_dir, gpio_direction, gpio_value, export_file, unexport_file, wronly, rdwr, Files, M, ◌>>=◌,
  ◌>>◌, pure, access, open_file, write, read, close,
}

-- The digits of a number, at most `fuel` of them.
abbrev pub digits : ℕ → ℕ → List ℕ
digits zero n = []
digits (suc fuel) n = (if ltb n 10 then [] else digits fuel (n / 10)) ++ ((48 + n % 10) ∷ [])

-- sprintf(gpio_str, "%d", number): `gpio_str` has room for seven digits.
abbrev pub gpio_str : ℕ → List ℕ
gpio_str number = digits 7 number

-- GPIO_DIR_IN and GPIO_DIR_OUT
abbrev pub gpio_dir_in : ℤ
gpio_dir_in = pos 0

abbrev pub gpio_dir_out : ℤ
gpio_dir_out = pos 1

-- The strings "in" and "out".
abbrev pub str_in : List ℕ
str_in = 105 ∷ 110 ∷ []

abbrev pub str_out : List ℕ
str_out = 111 ∷ 117 ∷ 116 ∷ []

-- What `gpio_set_direction` writes for a direction; no other direction has a word.
abbrev pub dir_write : ℤ → List ℕ
dir_write (pos zero) = str_in
dir_write (pos (suc zero)) = str_out
dir_write (pos (suc (suc n))) = []
dir_write (negsuc n) = []

abbrev pub has_dir : ℤ → Bool
has_dir (pos zero) = true
has_dir (pos (suc zero)) = true
has_dir (pos (suc (suc n))) = false
has_dir (negsuc n) = false

-- strncmp(a, b, n) == 0
abbrev pub strncmp_equal : ℕ → List ℕ → List ℕ → Bool
strncmp_equal zero a b = true
strncmp_equal (suc n) [] [] = true
strncmp_equal (suc n) [] (y ∷ b) = y == 0
strncmp_equal (suc n) (x ∷ a) [] = x == 0
strncmp_equal (suc n) (x ∷ a) (y ∷ b) =
    if x == y then (if x == 0 then true else strncmp_equal n a b) else false

-- The `char` that `gpio_set_level` writes, for the two levels that it takes.
abbrev pub level_char : ℤ → ℕ
level_char (pos zero) = 48
level_char (pos (suc n)) = 49
level_char (negsuc n) = 49

abbrev pub is_level : ℤ → Bool
is_level (pos zero) = true
is_level (pos (suc zero)) = true
is_level (pos (suc (suc n))) = false
is_level (negsuc n) = false

-- The `int` that `level` points to, as its 32 bits, with its lowest byte replaced.
abbrev pub with_low_byte : ℕ → ℕ → ℕ
with_low_byte level byte = level / 256 * 256 + byte

module _ {World : Type 0} (s : Files World) where
  unfoldable pub gpio_export : ℕ → M World ℤ
  gpio_export number = do
    there ← access s (gpio_dir number)
    if is_zero there then pure (pos 0) else do
      fd ← open_file s export_file wronly
      if negative fd then pure minus_one else do
        written ← write s fd (gpio_str number)
        if below written (length (gpio_str number))
            then (do close s fd; pure minus_one)
            else (do close s fd; pure (pos 0))

  unfoldable pub gpio_unexport : ℕ → M World ℤ
  gpio_unexport number = do
    there ← access s (gpio_dir number)
    if not (is_zero there) then pure (pos 0) else do
      fd ← open_file s unexport_file wronly
      if negative fd then pure minus_one else do
        written ← write s fd (gpio_str number)
        if below written (length (gpio_str number))
            then (do close s fd; pure minus_one)
            else (do close s fd; pure (pos 0))

  -- The second half of `gpio_set_direction`: the word is read back and compared.
  unfoldable pub verify_direction : ℕ → List ℕ → M World ℤ
  verify_direction number word = do
    fd ← open_file s (gpio_direction number) rdwr
    if negative fd then pure minus_one else do
      r ← read s fd (length word)
      if negative (r.0)
          then (do close s fd; pure minus_one)
          else if not (strncmp_equal (length word) word (r.1))
          then (do close s fd; pure minus_one)
          else (do close s fd; pure (pos 0))

  unfoldable pub gpio_set_direction : ℕ → ℤ → M World ℤ
  unfolding verify_direction
  gpio_set_direction number dir = do
    fd ← open_file s (gpio_direction number) rdwr
    if negative fd
        then pure minus_one
        else if has_dir dir
        then (do
          ret ← write s fd (dir_write dir)
          if negative ret
              then (do close s fd; pure minus_one)
              else (do close s fd; verify_direction number (dir_write dir)))
        else (do close s fd; pure (negsuc 1))

  -- The second component is what `dir` holds afterwards.
  unfoldable pub gpio_get_direction : ℕ → List ℕ → M World (ℤ × List ℕ)
  gpio_get_direction number dir = do
    fd ← open_file s (gpio_direction number) rdwr
    if negative fd then pure (minus_one, dir) else do
      r ← read s fd 3
      if negative (r.0)
          then (do close s fd; pure (minus_one, dir))
          else (do close s fd; pure (pos 0, take 3 (r.1 ++ replicate 3 0)))

  -- The second half of `gpio_set_level`.
  unfoldable pub verify_level : ℕ → ℕ → M World ℤ
  verify_level number value = do
    fd ← open_file s (gpio_value number) rdwr
    if negative fd then pure minus_one else do
      r ← read s fd 1
      if not (positive (r.0))
          then (do close s fd; pure minus_one)
          else if value == get_or (r.1) 0 0
          then (do close s fd; pure (pos 0))
          else (do close s fd; pure minus_one)

  unfoldable pub gpio_set_level : ℕ → ℤ → M World ℤ
  unfolding verify_level
  gpio_set_level number level = do
    fd ← open_file s (gpio_value number) rdwr
    if negative fd
        then pure minus_one
        else if is_level level
        then (do
          ret ← write s fd (level_char level ∷ [])
          if negative ret
              then (do close s fd; pure minus_one)
              else (do close s fd; verify_level number (level_char level)))
        else (do close s fd; pure minus_one)

  -- The second component is what `level` points to afterwards.
  unfoldable pub gpio_get_level : ℕ → ℕ → M World (ℤ × ℕ)
  gpio_get_level number level = do
    fd ← open_file s (gpio_value number) rdwr
    if negative fd then pure (minus_one, level) else do
      r ← read s fd 1
      if not (positive (r.0)) then (do close s fd; pure (minus_one, level)) else (do
        close s fd
        pure (pos 0, if with_low_byte level (get_or (r.1) 0 0) == 48 then 0 else 1))
