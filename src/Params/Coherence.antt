-- ===== src/Params/Coherence.antt =====
-- That the limits which project/elec/module/src/ModParam.c keeps are the meter's.
use linux_comon.Prelude.{ℕ, ◌≡◌, some}
use linux_comon.Prelude.Int.{pos}
use linux_comon.Meter.Modbus.{Modbus, Driver, done}
use linux_comon.Meter.Alarm.{ConPhaseAlarm, im3332_get_conphase_alarmevent}
use linux_comon.Meter.RegisterFile.{RegisterFile, Holds, Computes, Computes-pure, Computes-bind}
use linux_comon.Meter.Limits.{
  put_conphase, got_conphase, got_sigalphase, Computes-get_conphase, Computes-get_sigalphase,
  Computes-set_conphase,
}
use linux_comon.Params.State.{ModParams}
use linux_comon.Params.Reset.{reset_strings}
use linux_comon.Params.Events.{with_limits, mod_param_reset, set_con_phase_event}
use linux_comon.Params.Setters.{WellFormed, reset_strings-WellFormed}

module _ {Ctx World : Type 0} {m : Modbus Ctx World} (file : RegisterFile m) (c : Ctx) where
  Computes-set_con :
      (info : ConPhaseAlarm) (g : ModParams) (f : ℕ → ℕ)
      → Computes file c
          (set_con_phase_event m info g)
          f
          (pos 0, record g { conphase_info = info })
          (put_conphase info f)
  unfolding set_con_phase_event
  Computes-set_con info g f =
      Computes-bind file _ _ (Computes-set_conphase file c info f) (Computes-pure file _ _)

  Computes-with_limits :
      (g : ModParams) (f : ℕ → ℕ)
      → Computes file c
          (with_limits m g)
          f
          (record g {
            conphase_info = got_conphase f;
            sigphase_info = got_sigalphase g.sigphase_info f;
          })
          f
  unfolding with_limits
  Computes-with_limits g f =
      Computes-bind file _ _ (Computes-get_conphase file c g.conphase_info f) (
        Computes-bind file _ _ (Computes-get_sigalphase file c g.sigphase_info f)
          (Computes-pure file _ _))

  -- Over a line that works, limits that `ModParamsSetConPhaseEvent` accepts are the ones that the
  -- struct keeps and the ones that the meter then reports, and nothing else in the struct changes.
  pub set_con_phase_event-coherent :
      (info old : ConPhaseAlarm) (g : ModParams) (f : ℕ → ℕ) (d : Driver Ctx World)
      → Holds file c f d
      → (d1 d2 : Driver Ctx World) × (set_con_phase_event m info g d
          ≡ done (pos 0, record g { conphase_info = info }) d1)
        × (im3332_get_conphase_alarmevent m old d1 ≡ done (pos 0, info) d2)
  set_con_phase_event-coherent info old g f d h =
      let (d1, set, h1) = (Computes-set_con info g f).runs d h in
      let (d2, get, h2) = (Computes-get_conphase file c old (put_conphase info f)).runs d1 h1 in
      (d1, d2, set, get)

  reset_limits : ModParams → (ℕ → ℕ) → ModParams
  reset_limits g f = record g {
    conphase_info = got_conphase f;
    sigphase_info = got_sigalphase g.sigphase_info f;
  }

  Computes-reset :
      (g : ModParams) (f : ℕ → ℕ)
      → reset_strings ≡ some g
      → Computes file c (mod_param_reset m) f (some (reset_limits g f)) f
  unfolding mod_param_reset reset_limits
  Computes-reset g f e =
      rw (e, mod_param_reset)
        (Computes-bind file _ _ (Computes-with_limits g f) (Computes-pure file _ _))

  -- Over a line that works, `ModParamReset` returns, overflows no string, and leaves a well-formed
  -- struct whose three-phase limits are the ones that the meter held before, whatever they were: the
  -- three that a later `im3332_get_conphase_alarmevent` returns.
  pub mod_param_reset-reads :
      (old : ConPhaseAlarm) (f : ℕ → ℕ) (d : Driver Ctx World)
      → Holds file c f d
      → (g : ModParams) × (d1 d2 : Driver Ctx World) × (mod_param_reset m d ≡ done (some g) d1)
        × WellFormed g
        × (im3332_get_conphase_alarmevent m old d1 ≡ done (pos 0, g.conphase_info) d2)
  unfolding reset_limits
  mod_param_reset-reads old f d h =
      let (g, strings, v) = reset_strings-WellFormed in
      let (d1, reset, h1) = (Computes-reset g f strings).runs d h in
      let (d2, get, h2) = (Computes-get_conphase file c old f).runs d1 h1 in
      (
        reset_limits g f,
        d1,
        d2,
        reset,
        record { device = v.device; wifi = v.wifi; server = v.server; topics = v.topics },
        get,
      )
