-- ===== src/Meter/Driver.antt =====
-- Register access, identification, wiring mode, energy counters and start-up of
-- project/elec/module/src/im3332.c.
use linux_comon.Prelude.{
  ℕ, ◌+◌, ◌*◌, ◌/◌, ◌%◌, ◌^◌, Option, none, some, List, [], ◌∷◌, ◌==◌, if◌then◌else◌, get_or,
}
use linux_comon.Prelude.Int.{ℤ, pos, minus_one, positive}
use linux_comon.Meter.Modbus.{
  Modbus, M, ◌>>=◌, ◌>>◌, pure, lock, unlock, call, call_read, get_ctx, unless_null,
}

-- The registers of project/elec/module/include/im3332.h.
abbrev pub reg_wiring : ℕ
reg_wiring = 0x400a

abbrev pub reg_soft_ver : ℕ
reg_soft_ver = 0x4012

abbrev pub reg_model : ℕ
reg_model = 0x4013

abbrev pub reg_factory : ℕ
reg_factory = 0x6005

abbrev pub reg32_ae_t : ℕ
reg32_ae_t = 0

abbrev pub reg32_pae_t : ℕ
reg32_pae_t = 2

abbrev pub reg32_nae_t : ℕ
reg32_nae_t = 4

-- IM3331_MODE
pub data Im3331Mode : Type 0 where
  threephase_fourwire threephase_threewire : Im3331Mode

-- A `uint32_t` in memory is two `uint16_t`, the low one first.
abbrev pub words : ℕ → List ℕ
words v = v % 2 ^ 16 ∷ (v / 2 ^ 16) % 2 ^ 16 ∷ []

abbrev pub of_words : List ℕ → ℕ
of_words ws = get_or ws 0 0 + 2 ^ 16 * get_or ws 1 0

-- `(rc > 0) ? 0 : -1`
abbrev pub status : ℤ → ℤ
status rc = if positive rc then pos 0 else minus_one

-- What `im3331_set_mode` writes.
abbrev pub mode_cmd : Im3331Mode → ℕ
mode_cmd threephase_fourwire = 0x55
mode_cmd threephase_threewire = 0xaa

module _ {Ctx World : Type 0} where
  -- The library call between the lock and the unlock of the mutex.
  abbrev pub locked_call : (World → ℤ × World) → M Ctx World ℤ
  locked_call f = do lock; rc ← call f; unlock; pure rc

  abbrev pub locked_read : (World → ℤ × List ℕ × World) → M Ctx World (ℤ × List ℕ)
  locked_read f = do lock; r ← call_read f; unlock; pure r

module _ {Ctx World : Type 0} (m : Modbus Ctx World) where
  unfoldable pub im3332_write_reg : Option Ctx → ℕ → ℕ → M Ctx World ℤ
  im3332_write_reg handle reg value =
      unless_null (pos 0) (locked_call (m.write_register handle reg value))

  -- The second part of the result is what `*value` holds afterwards.
  unfoldable pub im3332_read_reg : Option Ctx → ℕ → ℕ → M Ctx World (ℤ × ℕ)
  im3332_read_reg handle reg value =
      unless_null (pos 0, value)
        (do
          r ← locked_read (m.read_registers handle reg 1 (value ∷ []))
          pure (r.0, get_or r.1 0 value))

  -- The second call is `pthread_mutex_lock` in the source as well.
  unfoldable pub im3332_write_regs : ℕ → List ℕ → M Ctx World ℤ
  im3332_write_regs reg buf =
      unless_null (pos 0)
        (do lock; ctx ← get_ctx; rc ← call (m.write_registers ctx reg buf); lock; pure rc)

  unfoldable pub im3332_read_regs : ℕ → List ℕ → ℕ → M Ctx World (ℤ × List ℕ)
  im3332_read_regs reg buf len =
      unless_null (pos 0, buf) (do ctx ← get_ctx; locked_read (m.read_registers ctx reg len buf))

  unfoldable pub im3332_read_reg32 : Option Ctx → ℕ → ℕ → M Ctx World (ℤ × ℕ)
  im3332_read_reg32 handle reg val =
      unless_null (pos 0, val)
        (do r ← locked_read (m.read_registers handle reg 2 (words val)); pure (r.0, of_words r.1))

  unfoldable pub im3332_write_reg32 : Option Ctx → ℕ → ℕ → M Ctx World ℤ
  im3332_write_reg32 handle reg val =
      unless_null (pos 0) (locked_call (m.write_registers handle reg (words val)))

  -- `val` is given as the words of its array.
  unfoldable pub im333x_read_regs32 : ℕ → List ℕ → ℕ → M Ctx World (ℤ × List ℕ)
  im333x_read_regs32 reg val len =
      unless_null (pos 0, val)
        (do ctx ← get_ctx; locked_read (m.read_registers ctx reg (len * 2) val))

  unfoldable pub im3332_get_model : ℕ → M Ctx World (ℤ × ℕ)
  im3332_get_model model = do
    ctx ← get_ctx
    r ← im3332_read_reg ctx reg_model model
    pure (status r.0, r.1)

  unfoldable pub im3332_get_sw_version : ℕ → M Ctx World (ℤ × ℕ)
  im3332_get_sw_version version = do
    ctx ← get_ctx
    r ← im3332_read_reg ctx reg_soft_ver version
    pure (status r.0, r.1)

  -- These two do not take the mutex.
  unfoldable pub im3332_enter_factory : M Ctx World ℤ
  im3332_enter_factory = do
    ctx ← get_ctx
    rc ← call (m.write_register ctx reg_factory 0xaaaa)
    pure (status rc)

  unfoldable pub im3332_exit_factory : M Ctx World ℤ
  im3332_exit_factory = do
    ctx ← get_ctx
    rc ← call (m.write_register ctx reg_factory 0)
    pure (status rc)

  unfoldable pub im3331_set_mode : Option Ctx → Im3331Mode → M Ctx World ℤ
  im3331_set_mode handle mode = do
    im3332_enter_factory
    rc ← im3332_write_reg handle reg_wiring (mode_cmd mode)
    im3332_exit_factory
    pure (status rc)

  -- `*mode` is `mode` before the call; a NULL `mode` is the caller's to avoid.
  unfoldable pub im3331_get_mode : Option Ctx → Im3331Mode → M Ctx World (ℤ × Im3331Mode)
  im3331_get_mode none mode = pure (minus_one, mode)
  im3331_get_mode (some h) mode = do
    r ← im3332_read_reg (some h) reg_wiring 0
    if positive r.0
        then pure (pos 0, if r.1 == 0x55 then threephase_fourwire else threephase_threewire)
        else pure (minus_one, mode)

  abbrev read_energy : ℕ → ℕ → M Ctx World (ℤ × ℕ)
  read_energy reg val = do ctx ← get_ctx; r ← im3332_read_reg32 ctx reg val; pure (status r.0, r.1)

  unfoldable pub im3332_get_con_act_energy : ℕ → M Ctx World (ℤ × ℕ)
  im3332_get_con_act_energy = read_energy reg32_ae_t

  unfoldable pub im3332_get_positive_act_energy : ℕ → M Ctx World (ℤ × ℕ)
  im3332_get_positive_act_energy = read_energy reg32_pae_t

  unfoldable pub im3332_get_negative_act_energy : ℕ → M Ctx World (ℤ × ℕ)
  im3332_get_negative_act_energy = read_energy reg32_nae_t
