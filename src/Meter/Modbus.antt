-- ===== src/Meter/Modbus.antt =====
-- What project/elec/module/src/im3332.c calls (libmodbus, the sampling device), and its state.
use linux_comon.Prelude.{ℕ, Bool, true, false, Option, none, some, List, if◌then◌else◌}
use linux_comon.Prelude.Int.{ℤ}

-- libmodbus and the device file of the sampling unit. `World` is what they act on: the line, the
-- meter, open files.
-- `Ctx` is a `modbus_t *` that is not NULL.
pub record Modbus (Ctx World : Type 0) : Type 0 where
  pub new_rtu : World → Option Ctx × World
  pub set_debug : Ctx → Bool → World → World
  pub set_error_recovery : Ctx → World → World
  pub set_slave : Ctx → ℕ → World → World
  pub connect : Ctx → World → ℤ × World
  pub free : Ctx → World → World
  -- The result is the number of registers written or read, or -1.
  pub write_register : Option Ctx → ℕ → ℕ → World → ℤ × World
  pub write_registers : Option Ctx → ℕ → List ℕ → World → ℤ × World
  -- The words of the destination before the call give those after it.
  pub read_registers : Option Ctx → ℕ → ℕ → List ℕ → World → ℤ × List ℕ × World
  -- open, ioctl, close and read of IM3332_DEV_PATH
  pub open_dev : World → ℤ × World
  pub ioctl_dev : ℤ → ℕ → World → ℤ × World
  pub close_dev : ℤ → World → World
  pub read_dev : ℤ → ℕ → List ℕ → World → ℤ × List ℕ × World

module _ (Ctx World : Type 0) where
  -- The file's static variables, and the world. `im3332_mutex` is of the default kind: it is not
  -- recursive.
  pub record Driver : Type 0 where
    pub ctx : Option Ctx
    pub locked : Bool
    pub im3332_fd : ℤ
    pub world : World

  -- A call returns, or it waits for the mutex for ever.
  pub data Result (A : Type 0) : Type 0 where
    done : A → Driver → Result A
    blocked : Result A

abbrev pub M : Type 0 → Type 0 → Type 0 → Type 0
M Ctx World A = Driver Ctx World → Result Ctx World A

infixl 5 ◌>>=◌ ◌>>◌
unfoldable pub ◌>>=◌ :
    {Ctx World A B : Type 0} → M Ctx World A → (A → M Ctx World B) → M Ctx World B
◌>>=◌ x f d = elim (x d) [ done a d' ↦ f a d' | blocked ↦ blocked ]

abbrev pub ◌>>◌ : {Ctx World A B : Type 0} → M Ctx World A → M Ctx World B → M Ctx World B
x >> y = x >>= λ _. y

module _ {Ctx World : Type 0} where
  unfoldable pub pure : {A : Type 0} → A → M Ctx World A
  pure a d = done a d

  -- pthread_mutex_lock
  unfoldable pub lock : M Ctx World (Unit {0})
  lock d = if d.locked then blocked else done tt (record d { locked = true })

  -- pthread_mutex_unlock
  unfoldable pub unlock : M Ctx World (Unit {0})
  unlock d = done tt (record d { locked = false })

  -- A library call with a result, one that also fills a buffer, and one with neither.
  unfoldable pub call : (World → ℤ × World) → M Ctx World ℤ
  call f d = let r = f d.world in done r.0 (record d { world = r.1 })

  unfoldable pub call_read : (World → ℤ × List ℕ × World) → M Ctx World (ℤ × List ℕ)
  call_read f d = let r = f d.world in done (r.0, r.1) (record d { world = r.2 })

  unfoldable pub run : (World → World) → M Ctx World (Unit {0})
  run f d = done tt (record d { world = f d.world })

  unfoldable pub get_ctx : M Ctx World (Option Ctx)
  get_ctx d = done d.ctx d

  -- `if (ctx == NULL) return r;`
  unfoldable pub unless_null : {A : Type 0} → A → M Ctx World A → M Ctx World A
  unless_null r x d = elim d.ctx [ none ↦ done r d | some c ↦ x d ]

  -- Names the operations of the monad, for the `unfolding` lines.
  unfoldable pub steps : M Ctx World (Unit {0})
  unfolding ◌>>=◌ pure lock unlock call call_read run get_ctx unless_null
  steps = pure tt
