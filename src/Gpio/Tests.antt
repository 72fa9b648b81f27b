-- ===== src/Gpio/Tests.antt =====
-- The GPIO code run on a sysfs whose descriptors are its pins' numbers.
use linux_comon.Prelude.{
  ℕ, suc, ◌-◌, ◌≡◌, refl, Bool, true, false, List, [], ◌∷◌, ◌==◌, if◌then◌else◌, arith,
}
use linux_comon.Prelude.Int.{ℤ, pos, negsuc, negative}
use linux_comon.Gpio.Files.{
  FilePath, gpio_dir, gpio_direction, gpio_value, led_brightness, export_file, unexport_file,
  empty_path, Files,
}
use linux_comon.Gpio.Pin.{
  gpio_export, gpio_unexport, gpio_set_direction, gpio_get_direction, gpio_set_level,
  gpio_get_level,
}
use linux_comon.Gpio.Channel.{do_init, di_init, do_out, di_read}
use linux_comon.Gpio.Led.{led_on, led_off}
use linux_comon.Gpio.Descriptors.{Descriptors, descriptors_same}
use linux_comon.Gpio.Sysfs.{Sysfs, At}
use linux_comon.Gpio.Levels.{get-set_level, channels_pins}

-- The descriptor of a pin's `value` file is the pin's number, and that of any other file is 0.
abbrev pub fd_of : FilePath → ℤ
fd_of (gpio_dir n) = pos 0
fd_of (gpio_direction n) = pos 0
fd_of (gpio_value n) = pos n
fd_of (led_brightness n) = pos 0
fd_of export_file = pos 0
fd_of unexport_file = pos 0
fd_of empty_path = negsuc 0

abbrev pub is_fd : ℤ → ℕ → Bool
is_fd (pos k) n = k == n
is_fd (negsuc k) n = false

-- The levels of the pins, and the number of open files.
abbrev pub Pins : Type 0
Pins = (ℕ → Bool) × ℕ

abbrev pub put_pin : ℤ → List ℕ → (ℕ → Bool) → ℕ → Bool
put_pin fd [] pins k = pins k
put_pin fd (c ∷ cs) pins k = if is_fd fd k then (if c == 48 then false else true) else pins k

abbrev pub pin_byte : ℤ → (ℕ → Bool) → ℕ
pin_byte (pos n) pins = if pins n then 49 else 48
pin_byte (negsuc n) pins = 48

-- An open that fails opens nothing.
abbrev pub opens : FilePath → ℕ → ℕ
opens (gpio_dir n) k = suc k
opens (gpio_direction n) k = suc k
opens (gpio_value n) k = suc k
opens (led_brightness n) k = suc k
opens export_file k = suc k
opens unexport_file k = suc k
opens empty_path k = k

abbrev pub board : Files Pins
board = record {
  access = λ p w. (pos 0, w);
  open_path = λ p a w. (fd_of p, (w.0, opens p w.1));
  write = λ fd cs w. (pos 1, (put_pin fd cs w.0, w.1));
  read = λ fd n w. (pos 1, pin_byte fd w.0 ∷ [], w);
  close = λ fd w. (w.0, w.1 - 1);
  system = λ c w. (pos 0, w);
}

opens_fails : (p : FilePath) (n : ℕ) → negative (fd_of p) ≡ true → opens p n ≡ n
opens_fails (gpio_dir k) n bad = cc
opens_fails (gpio_direction k) n bad = cc
opens_fails (gpio_value k) n bad = cc
opens_fails (led_brightness k) n bad = cc
opens_fails export_file n bad = cc
opens_fails unexport_file n bad = cc
opens_fails empty_path n bad = refl

opens_works : (p : FilePath) (n : ℕ) → negative (fd_of p) ≡ false → opens p n ≡ suc n
opens_works (gpio_dir k) n good = refl
opens_works (gpio_direction k) n good = refl
opens_works (gpio_value k) n good = refl
opens_works (led_brightness k) n good = refl
opens_works export_file n good = refl
opens_works unexport_file n good = refl
opens_works empty_path n good = cc

abbrev board_descriptors : Descriptors board
board_descriptors = record {
  opened = λ w. w.1;
  open_fails = λ p a w bad. opens_fails p w.1 bad;
  open_works = λ p a w good. opens_works p w.1 good;
  close_one = λ fd w. refl;
  access_same = λ p w. refl;
  write_same = λ fd bytes w. refl;
  read_same = λ fd n w. refl;
  system_same = λ c w. refl;
}

pub put_pin_high :
    (fd : ℤ) (n c : ℕ) (pins : ℕ → Bool)
    → is_fd fd n ≡ true
    → put_pin fd (c ∷ []) pins n ≡ (if c == 48 then false else true)
put_pin_high fd n c pins h = rw h

pub pin_byte_of :
    (fd : ℤ) (n : ℕ) (pins : ℕ → Bool)
    → is_fd fd n ≡ true
    → pin_byte fd pins ∷ [] ≡ (if pins n then 49 else 48) ∷ []
pin_byte_of (pos k) n pins h = ground arith
pin_byte_of (negsuc k) n pins h = cc

pub self_fd : (n : ℕ) → is_fd (pos n) n ≡ true
self_fd n = ground arith

abbrev pub board_sysfs : Sysfs board
board_sysfs = record {
  high = λ w. w.0;
  ready = λ w n. true;
  shows = λ w fd n. is_fd fd n;
  open_value = λ n w h. (refl, self_fd n, refl, refl);
  write_value = λ fd n c w h. (refl, refl, put_pin_high fd n c w.0 h);
  read_value = λ fd n w h. (refl, pin_byte_of fd n w.0 h, refl, refl);
  close_value = λ fd n w. (refl, refl);
}

-- Every pin is low, and no file is open.
abbrev pub idle : Pins
idle = (λ n. false, 0)

pub At-idle : (n : ℕ) → At board_sysfs n false idle
At-idle n = record { works = refl; level = refl }

get-set_level_example :
    let r = gpio_set_level board 101 (pos 1) idle in
    (r.0 ≡ pos 0) × ((gpio_get_level board 101 7 (r.1)).0 ≡ (pos 0, 1))
get-set_level_example = get-set_level board_sysfs 101 7 true false idle (omega arith) (At-idle 101)

channels_pins_example :
    ((do_out board (pos 3) (pos 1) idle).0 ≡ pos 0)
    × At board_sysfs 103 true ((do_out board (pos 3) (pos 1) idle).1)
    × ((di_read board (pos 3) 0 idle).0 ≡ (pos 0, 0))
channels_pins_example =
    channels_pins board_sysfs 3 0 true false false idle (omega arith) (omega arith) (At-idle 103)
      (At-idle 107)

descriptors_same_example :
    ((gpio_export board 101 idle).1.1 ≡ 0)
    × ((gpio_unexport board 101 idle).1.1 ≡ 0)
    × ((gpio_set_direction board 101 (pos 1) idle).1.1 ≡ 0)
    × ((gpio_get_direction board 101 (0 ∷ []) idle).1.1 ≡ 0)
    × ((gpio_set_level board 101 (pos 1) idle).1.1 ≡ 0)
    × ((gpio_get_level board 101 5 idle).1.1 ≡ 0)
    × ((do_init board idle).1.1 ≡ 0)
    × ((di_init board idle).1.1 ≡ 0)
    × ((do_out board (pos 2) (pos 1) idle).1.1 ≡ 0)
    × ((di_read board (pos 2) 5 idle).1.1 ≡ 0)
    × ((led_on board 5 idle).1.1 ≡ 0)
    × ((led_off board 5 idle).1.1 ≡ 0)
descriptors_same_example =
    descriptors_same board_descriptors 101 (pos 1) (pos 1) (pos 2) 5 5 (0 ∷ []) idle
