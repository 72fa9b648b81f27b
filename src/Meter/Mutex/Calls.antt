-- ===== src/Meter/Mutex/Calls.antt =====
-- Which functions of project/elec/module/src/im3332.c return, and leave the mutex free.
use linux_comon.Prelude.{
  ℕ, ◌≡◌, refl, sym, Bool, true, inl, inr, Option-cases, arith, false, Option, none, some, List,
}
use mathlib.Core.Path.{subst}
use linux_comon.Prelude.Int.{ℤ}
use linux_comon.Meter.Modbus.{Modbus, Driver, blocked, steps}
use linux_comon.Meter.Driver.{
  Im3331Mode, im3332_write_reg, im3332_read_reg, im3332_write_regs, im3332_read_regs,
  im3332_read_reg32, im3332_write_reg32, im3332_enter_factory, im3332_exit_factory, im3331_set_mode,
}
use linux_comon.Meter.Alarm.{
  SigalPhaseAlarm, ConPhaseAlarm, reading, writing, im3332_get_sigalphase_alarmevent,
  im3332_get_conphase_alarmevent, im3332_set_sigalphase_alarmevent, im3332_set_conphase_alarmevent,
}
use linux_comon.Meter.Sample.{
  connect_to, with_rtu, im3332_init, im3332_sample_disable, im3332_sample_init,
  im3332_sample_deinit, im3332_sample_read,
}
use linux_comon.Meter.Mutex.{Returned, returned, Releases, releases}

module _ {Ctx World : Type 0} (m : Modbus Ctx World) where
  Releases-write_reg : (h : Option Ctx) (reg v : ℕ) → Releases (im3332_write_reg m h reg v)
  unfolding im3332_write_reg
  Releases-write_reg h reg v = search releases

  Releases-read_reg : (h : Option Ctx) (reg v : ℕ) → Releases (im3332_read_reg m h reg v)
  unfolding im3332_read_reg
  Releases-read_reg h reg v = search releases

  Releases-write_reg32 : (h : Option Ctx) (reg v : ℕ) → Releases (im3332_write_reg32 m h reg v)
  unfolding im3332_write_reg32
  Releases-write_reg32 h reg v = search releases

  Releases-read_reg32 : (h : Option Ctx) (reg v : ℕ) → Releases (im3332_read_reg32 m h reg v)
  unfolding im3332_read_reg32
  Releases-read_reg32 h reg v = search releases

  Releases-read_regs : (reg : ℕ) (buf : List ℕ) (n : ℕ) → Releases (im3332_read_regs m reg buf n)
  unfolding im3332_read_regs
  Releases-read_regs reg buf n = search releases

  ruleset registers =
      (releases, Releases-write_reg, Releases-read_reg, Releases-write_reg32, Releases-read_reg32)

  Releases-set_mode : (h : Option Ctx) (mode : Im3331Mode) → Releases (im3331_set_mode m h mode)
  unfolding im3331_set_mode im3332_enter_factory im3332_exit_factory
  Releases-set_mode h mode = search registers depth 9

  Releases-get_sigalphase : (s : SigalPhaseAlarm) → Releases (im3332_get_sigalphase_alarmevent m s)
  unfolding im3332_get_sigalphase_alarmevent reading
  Releases-get_sigalphase s = search registers depth 30

  Releases-set_sigalphase : (s : SigalPhaseAlarm) → Releases (im3332_set_sigalphase_alarmevent m s)
  unfolding im3332_set_sigalphase_alarmevent writing
  Releases-set_sigalphase s = search registers depth 30

  Releases-sample_init : (h : Option Ctx) → Releases (im3332_sample_init m h)
  unfolding im3332_sample_init im3332_sample_disable
  Releases-sample_init h = search registers depth 12

  Releases-sample_deinit : (h : Option Ctx) → Releases (im3332_sample_deinit m h)
  unfolding im3332_sample_deinit im3332_sample_disable
  Releases-sample_deinit h = search registers depth 12

  Releases-get_conphase : (c : ConPhaseAlarm) → Releases (im3332_get_conphase_alarmevent m c)
  unfolding im3332_get_conphase_alarmevent reading
  Releases-get_conphase c = search registers depth 20

  Releases-set_conphase : (c : ConPhaseAlarm) → Releases (im3332_set_conphase_alarmevent m c)
  unfolding im3332_set_conphase_alarmevent writing
  Releases-set_conphase c = search registers depth 20

  Releases-sample_read : (buf : List ℕ) (n : ℕ) → Releases (im3332_sample_read m buf n)
  unfolding im3332_sample_read
  Releases-sample_read buf n = search registers depth 9

  Releases-connect_to : (c : Ctx) → Releases (connect_to m c)
  unfolding connect_to im3332_sample_disable
  Releases-connect_to c = search registers depth 14

  Releases-with_rtu : (made : Option Ctx) → Releases (with_rtu m made)
  unfolding with_rtu
  Releases-with_rtu none = record { started = λ d h. returned none d refl h }
  Releases-with_rtu (some c) = record {
    started = λ d h. (Releases-connect_to c).started (record d { ctx = some c }) h;
  }

  init_returned : (d : Driver Ctx World) → d.locked ≡ false → Returned (im3332_init m d)
  unfolding im3332_init
  init_returned d h = elim (Option-cases d.ctx) [
    | inl null ↦
        let (made, world) = m.new_rtu d.world in
        let opened = (Releases-with_rtu made).started (record d { world = world }) h in
        returned opened.value opened.after (ground (arith, opened.returns)) opened.free
    | inr (c, set) ↦ returned (some c) d (ground arith) h
  ]

  -- From a state in which the mutex is free, every one of these calls returns and leaves it free,
  -- whatever the meter answers: setting the wiring mode, reading and writing both sets of alarm
  -- limits, starting and stopping the sampling, reading samples, and `im3332_init`.
  pub calls_release :
      (h : Option Ctx) (mode : Im3331Mode) (s : SigalPhaseAlarm) (c : ConPhaseAlarm) (buf : List ℕ)
      (n : ℕ) (d : Driver Ctx World)
      → d.locked ≡ false
      → Returned (im3331_set_mode m h mode d)
        × Returned (im3332_get_sigalphase_alarmevent m s d)
        × Returned (im3332_set_sigalphase_alarmevent m s d)
        × Returned (im3332_get_conphase_alarmevent m c d)
        × Returned (im3332_set_conphase_alarmevent m c d)
        × Returned (im3332_sample_init m h d)
        × Returned (im3332_sample_deinit m h d)
        × Returned (im3332_sample_read m buf n d)
        × Returned (im3332_init m d)
  calls_release h mode s c buf n d free = (
    (Releases-set_mode h mode).started d free,
    (Releases-get_sigalphase s).started d free,
    (Releases-set_sigalphase s).started d free,
    (Releases-get_conphase c).started d free,
    (Releases-set_conphase c).started d free,
    (Releases-sample_init h).started d free,
    (Releases-sample_deinit h).started d free,
    (Releases-sample_read buf n).started d free,
    init_returned d free,
  )

  write_regs_stuck :
      (reg : ℕ) (buf : List ℕ) (c : Ctx) (held : Bool) (fd : ℤ) (w : World)
      → im3332_write_regs m reg buf
          (record { ctx = some c; locked = held; im3332_fd = fd; world = w })
        ≡ blocked
  unfolding im3332_write_regs steps
  write_regs_stuck reg buf c true fd w = refl
  write_regs_stuck reg buf c false fd w = refl

  -- With a connection, `im3332_write_regs` never returns, in whatever state the mutex is: it locks
  -- the mutex a second time where it should unlock it.
  pub im3332_write_regs-blocked :
      (reg : ℕ) (buf : List ℕ) (c : Ctx) (d : Driver Ctx World)
      → d.ctx ≡ some c
      → im3332_write_regs m reg buf d ≡ blocked
  im3332_write_regs-blocked reg buf c d e =
      subst (λ x. im3332_write_regs m reg buf (record d { ctx = x }) ≡ blocked) (sym e)
        (write_regs_stuck reg buf c d.locked d.im3332_fd d.world)
