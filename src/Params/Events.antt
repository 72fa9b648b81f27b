-- ===== src/Params/Events.antt =====
-- The functions of project/elec/module/src/ModParam.c that call the driver of the power meter.
use linux_comon.Prelude.{Option, none, some, if◌then◌else◌}
use linux_comon.Prelude.Int.{ℤ, pos, is_zero}
use linux_comon.Meter.Modbus.{Modbus, M, ◌>>=◌, pure}
use linux_comon.Meter.Alarm.{
  SigalPhaseAlarm, ConPhaseAlarm, im3332_get_conphase_alarmevent, im3332_get_sigalphase_alarmevent,
  im3332_set_conphase_alarmevent, im3332_set_sigalphase_alarmevent,
}
use linux_comon.Params.State.{ModParams}
use linux_comon.Params.Reset.{reset_strings}

module _ {Ctx World : Type 0} (m : Modbus Ctx World) where
  -- The results of the two calls are not looked at; what they store is.
  unfoldable pub with_limits : ModParams → M Ctx World ModParams
  with_limits g = do
    con ← im3332_get_conphase_alarmevent m g.conphase_info
    sigal ← im3332_get_sigalphase_alarmevent m g.sigphase_info
    pure (record g { conphase_info = con.1; sigphase_info = sigal.1 })

  -- `ModParamReset`
  unfoldable pub mod_param_reset : M Ctx World (Option ModParams)
  mod_param_reset = elim reset_strings [
    | none ↦ pure none
    | some g ↦ with_limits g >>= λ g'. pure (some g')
  ]

  -- The result, and the struct: none where the reset leaves an array.
  unfoldable pub mod_param_init : M Ctx World (Option (ℤ × ModParams))
  mod_param_init = mod_param_reset >>= λ r.
      pure (elim r as (λ _. Option (ℤ × ModParams)) [ none ↦ none | some g ↦ some (pos 0, g) ])

  unfoldable pub param_set_default : M Ctx World (Option (ℤ × ModParams))
  param_set_default = mod_param_reset >>= λ r.
      pure (elim r as (λ _. Option (ℤ × ModParams)) [ none ↦ none | some g ↦ some (pos 0, g) ])

  unfoldable pub set_sigal_phase_event : SigalPhaseAlarm → ModParams → M Ctx World (ℤ × ModParams)
  set_sigal_phase_event info g = do
    rc ← im3332_set_sigalphase_alarmevent m info
    pure (rc, if is_zero rc then record g { sigphase_info = info } else g)

  unfoldable pub set_con_phase_event : ConPhaseAlarm → ModParams → M Ctx World (ℤ × ModParams)
  set_con_phase_event info g = do
    rc ← im3332_set_conphase_alarmevent m info
    pure (rc, if is_zero rc then record g { conphase_info = info } else g)
