-- ===== src/Meter/RoundTrip.antt =====
-- What project/elec/module/src/im3332.c writes to the meter is what it reads back.
use linux_comon.Prelude.{
  ℕ, ◌+◌, ◌*◌, ◌/◌, ◌%◌, ◌^◌, ◌<◌, ◌≡◌, refl, ap, ◌∙◌, ◌==◌, if◌then◌else◌, some, arith,
}
use linux_comon.Prelude.Int.{pos}
use linux_comon.Meter.Modbus.{Modbus, Driver, done, ◌>>=◌, pure, call, get_ctx}
use linux_comon.Meter.Driver.{
  Im3331Mode, threephase_fourwire, threephase_threewire, reg_factory, reg_wiring, mode_cmd, status,
  im3331_set_mode, im3331_get_mode, im3332_enter_factory, im3332_exit_factory,
}
use linux_comon.Meter.Alarm.{
  SigalPhaseAlarm, ConPhaseAlarm, im3332_get_sigalphase_alarmevent, im3332_get_conphase_alarmevent,
  im3332_set_sigalphase_alarmevent, im3332_set_conphase_alarmevent,
}
use linux_comon.Meter.RegisterFile.{
  RegisterFile, put, Holds, Computes, Computes-pure, Computes-bind, Computes-get_ctx,
  Computes-call_write, Computes-write_reg, Computes-read_reg,
}
use linux_comon.Meter.Limits.{
  put_conphase, put_sigalphase, Computes-get_conphase, Computes-get_sigalphase,
  Computes-set_conphase, Computes-set_sigalphase,
}

decode_mode :
    (mode : Im3331Mode)
    → (if mode_cmd mode == 0x55 then threephase_fourwire else threephase_threewire) ≡ mode
decode_mode threephase_fourwire = refl
decode_mode threephase_threewire = refl

words_whole : (v : ℕ) → v < 2 ^ 32 → v % 2 ^ 16 + 2 ^ 16 * ((v / 2 ^ 16) % 2 ^ 16) ≡ v
words_whole v h = omega arith

module _ {Ctx World : Type 0} {m : Modbus Ctx World} (file : RegisterFile m) (c : Ctx) where
  -- Over a line that works, the three three-phase limits that a successful
  -- `im3332_set_conphase_alarmevent` stores are the ones that
  -- `im3332_get_conphase_alarmevent` returns; both calls return 0.
  get-set_conphase :
      (a b : ConPhaseAlarm) (f : ℕ → ℕ) (d : Driver Ctx World)
      → Holds file c f d
      → (d1 d2 : Driver Ctx World) × (im3332_set_conphase_alarmevent m a d ≡ done (pos 0) d1)
        × (im3332_get_conphase_alarmevent m b d1 ≡ done (pos 0, a) d2)
  get-set_conphase a b f d h =
      let (d1, set, h1) = (Computes-set_conphase file c a f).runs d h in
      let (d2, get, h2) = (Computes-get_conphase file c b (put_conphase a f)).runs d1 h1 in
      (d1, d2, set, get)

  -- Over a line that works, the limits that `im3332_set_sigalphase_alarmevent` stores are the ones
  -- that `im3332_get_sigalphase_alarmevent` returns: no two of the registers that it writes
  -- overlap, and the two 32-bit limits come back whole. The two fields of the struct that have no
  -- register keep the value that they had in the destination.
  pub get-set_sigalphase :
      (a b : SigalPhaseAlarm) (f : ℕ → ℕ) (d : Driver Ctx World)
      → a.vol_loss_cur_trigger_downimit < 2 ^ 32
      → a.cur_loss_cur_trigger_up_limit < 2 ^ 32
      → Holds file c f d
      → (d1 d2 : Driver Ctx World) × (im3332_set_sigalphase_alarmevent m a d ≡ done (pos 0) d1)
        × (im3332_get_sigalphase_alarmevent m b d1
            ≡ done
                (
                  pos 0,
                  record a {
                    vol_loss_vol_recover_down_limit = b.vol_loss_vol_recover_down_limit;
                    cur_loss_cur_trigger_down_limit = b.cur_loss_cur_trigger_down_limit;
                  },
                )
                d2)
  get-set_sigalphase a b f d lo hi h =
      let (d1, set, h1) = (Computes-set_sigalphase file c a f).runs d h in
      let (d2, get, h2) = (Computes-get_sigalphase file c b (put_sigalphase a f)).runs d1 h1 in
      (d1, d2, set, get ∙ ap (λ r. done (pos 0, r) d2) (rw (words_whole _ lo, words_whole _ hi)))

  factory_write :
      (v : ℕ) (f : ℕ → ℕ)
      → Computes file c
          (get_ctx >>= λ ctx. call (m.write_register ctx reg_factory v) >>= λ rc. pure (status rc))
          f
          (pos 0)
          (put reg_factory v f)
  factory_write v f =
      Computes-bind file _ _ (Computes-get_ctx file f)
        (Computes-bind file _ _ (Computes-call_write file reg_factory v f) (Computes-pure file _ _))

  Computes-set_mode :
      (mode : Im3331Mode) (f : ℕ → ℕ)
      → Computes file c
          (im3331_set_mode m (some c) mode)
          f
          (pos 0)
          (put reg_factory 0 (put reg_wiring (mode_cmd mode) (put reg_factory 0xaaaa f)))
  unfolding im3331_set_mode im3332_enter_factory im3332_exit_factory
  Computes-set_mode mode f = Computes-bind file _ _ (factory_write 0xaaaa f) (
      Computes-bind file _ _ (Computes-write_reg file reg_wiring (mode_cmd mode) _)
        (Computes-bind file _ _ (factory_write 0 _) (Computes-pure file _ _)))

  Computes-get_mode :
      (mode old : Im3331Mode) (f : ℕ → ℕ)
      → f reg_wiring ≡ mode_cmd mode
      → Computes file c (im3331_get_mode m (some c) old) f (pos 0, mode) f
  unfolding im3331_get_mode
  Computes-get_mode mode old f e =
      Computes-bind file _ _ (Computes-read_reg file reg_wiring 0 f)
        (rw (e, decode_mode mode) (Computes-pure file (pos 0, mode) f))

  -- Over a line that works, `im3331_get_mode` returns the mode that `im3331_set_mode` has set,
  -- whatever mode was there before; the meter is out of factory mode then, and no register but
  -- the factory and the wiring register has changed.
  pub get-set_mode :
      (mode old : Im3331Mode) (f : ℕ → ℕ) (d : Driver Ctx World)
      → Holds file c f d
      → (d1 d2 : Driver Ctx World) × (im3331_set_mode m (some c) mode d ≡ done (pos 0) d1)
        × (im3331_get_mode m (some c) old d1 ≡ done (pos 0, mode) d2)
        × ((k : ℕ) → file.regs d2.world k ≡ put reg_factory 0 (put reg_wiring (mode_cmd mode) f) k)
  get-set_mode mode old f d h =
      let (d1, set, h1) = (Computes-set_mode mode f).runs d h in
      let (d2, get, h2) = (Computes-get_mode mode old _ refl).runs d1 h1 in
      (d1, d2, set, get, λ k. ground (arith, h2.values k))
