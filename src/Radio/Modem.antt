-- ===== src/Radio/Modem.antt =====
-- The state that the functions of common/utils/rf act on, and what a call can come to.
use linux_comon.Prelude.{ℕ, Bool, true, false, Option, none, some, List, if◌then◌else◌}
use linux_comon.Prelude.Int.{ℤ}

-- `World` is what the calls act on: the line, the module, the files. The path of a device is a list
-- of bytes.
pub record Port (World : Type 0) : Type 0 where
  pub open_dev : List ℕ → World → ℤ × World
  -- `SetSerial`, and tcflush of what has been received
  pub set_serial : ℤ → World → World
  pub flush_input : ℤ → World → World
  pub write : ℤ → List ℕ → World → ℤ × World
  -- The bytes that `read` stores, as many as its result; none for -1.
  pub read : ℤ → ℕ → World → Option (List ℕ) × World
  pub close : ℤ → World → World
  pub usleep : ℕ → World → World
  -- The names in /dev, or none where the directory does not open.
  pub read_dir : World → Option (List (List ℕ)) × World
  -- access("/sys/class/tty/ttyUSB…", R_OK)
  pub access_tty : ℕ → World → ℤ × World

-- A call returns, or the code leaves an array or uses a pointer that is NULL, or it waits for the
-- mutex for ever.
pub data Outcome (A : Type 0) : Type 0 where
  done : A → Outcome A
  fault : Outcome A
  blocked : Outcome A

-- `g_rf_mutex` is held or not; it is of the default kind.
pub record Modem (World : Type 0) : Type 0 where
  pub locked : Bool
  pub world : World

abbrev pub M : Type 0 → Type 0 → Type 0
M World A = Modem World → Outcome (A × Modem World)

infixl 5 ◌>>=◌ ◌>>◌
unfoldable pub ◌>>=◌ : {World A B : Type 0} → M World A → (A → M World B) → M World B
◌>>=◌ x f s = elim (x s) [ done r ↦ f r.0 r.1 | fault ↦ fault | blocked ↦ blocked ]

abbrev pub ◌>>◌ : {World A B : Type 0} → M World A → M World B → M World B
x >> y = x >>= λ _. y

module _ {World : Type 0} where
  unfoldable pub pure : {A : Type 0} → A → M World A
  pure a s = done (a, s)

  -- A string function that may leave its array.
  unfoldable pub checked : {A : Type 0} → Option A → M World A
  checked none s = fault
  checked (some a) s = done (a, s)

  -- `x` for NULL, and `f` otherwise.
  unfoldable pub on_option : {A B : Type 0} → Option B → M World A → (B → M World A) → M World A
  on_option none x f = x
  on_option (some b) x f = f b

  -- pthread_mutex_lock and pthread_mutex_unlock of `g_rf_mutex`
  unfoldable pub lock : M World (Unit {0})
  lock s = if s.locked then blocked else done (tt, record s { locked = true })

  unfoldable pub unlock : M World (Unit {0})
  unlock s = done (tt, record s { locked = false })

  -- A system call with a result, and one with none.
  unfoldable pub call : {A : Type 0} → (World → A × World) → M World A
  call f s = let r = f s.world in done (r.0, record s { world = r.1 })

  unfoldable pub run : (World → World) → M World (Unit {0})
  run f s = done (tt, record s { world = f s.world })

  -- Names the operations of the monad, for the `unfolding` lines.
  unfoldable pub steps : M World (Unit {0})
  unfolding ◌>>=◌ pure checked on_option lock unlock call run
  steps = pure tt
