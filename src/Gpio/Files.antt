-- ===== src/Gpio/Files.antt =====
-- The system calls that common/utils/gpio/gpio.c makes, and the channels and the leds of the
-- gateway.
use linux_comon.Prelude.{ℕ, List}
use linux_comon.Prelude.Int.{ℤ}

-- A path: the format that `sprintf` is given, with its argument. `empty_path` is the
-- empty string.
pub data FilePath : Type 0 where
  gpio_dir gpio_direction gpio_value led_brightness : ℕ → FilePath
  export_file unexport_file empty_path : FilePath

-- O_WRONLY and O_RDWR
pub data Access : Type 0 where
  wronly rdwr : Access

-- A command line: `gpio -s <port> <mode> > /dev/null`, or `echo heartbeat > <led>/trigger`.
pub data Command : Type 0 where
  gpio_mode : List ℕ → ℕ → Command
  heartbeat : ℕ → Command

pub record Files (World : Type 0) : Type 0 where
  pub access : FilePath → World → ℤ × World
  pub open_path : FilePath → Access → World → ℤ × World
  pub write : ℤ → List ℕ → World → ℤ × World
  pub read : ℤ → ℕ → World → ℤ × List ℕ × World
  pub close : ℤ → World → World
  pub system : Command → World → ℤ × World

abbrev pub M : Type 0 → Type 0 → Type 0
M World A = World → A × World

infixl 5 ◌>>=◌ ◌>>◌
unfoldable pub ◌>>=◌ : {World A B : Type 0} → M World A → (A → M World B) → M World B
◌>>=◌ x f w = let r = x w in f r.0 r.1

abbrev pub ◌>>◌ : {World A B : Type 0} → M World A → M World B → M World B
x >> y = x >>= λ _. y

module _ {World : Type 0} where
  unfoldable pub pure : {A : Type 0} → A → M World A
  pure a w = (a, w)

  -- The calls as actions.
  unfoldable pub access : Files World → FilePath → M World ℤ
  access s path w = s.access path w

  unfoldable pub open_file : Files World → FilePath → Access → M World ℤ
  open_file s path how w = s.open_path path how w

  unfoldable pub write : Files World → ℤ → List ℕ → M World ℤ
  write s fd bytes w = s.write fd bytes w

  unfoldable pub read : Files World → ℤ → ℕ → M World (ℤ × List ℕ)
  read s fd n w = let r = s.read fd n w in ((r.0, r.1), r.2)

  unfoldable pub close : Files World → ℤ → M World (Unit {0})
  close s fd w = (tt, s.close fd w)

  unfoldable pub system : Files World → Command → M World ℤ
  system s command w = s.system command w
