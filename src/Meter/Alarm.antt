-- ===== src/Meter/Alarm.antt =====
-- The alarm limits of project/elec/module/src/im3332.c: two structs, read from and written to the
-- meter field by field.
use linux_comon.Prelude.{ℕ, if◌then◌else◌}
use linux_comon.Prelude.Int.{ℤ, pos, minus_one, positive}
use linux_comon.Meter.Modbus.{Modbus, M, ◌>>=◌, pure, get_ctx, unless_null}
use linux_comon.Meter.Driver.{
  im3332_read_reg, im3332_read_reg32, im3332_write_reg, im3332_write_reg32,
}

pub record SigalPhaseAlarm : Type 0 where
  pub vol_loss_vol_trigger_up_limit : ℕ
  pub vol_loss_vol_recover_down_limit : ℕ
  pub vol_loss_cur_trigger_downimit : ℕ
  pub vol_under_vol_trigger_up_limit : ℕ
  pub vol_over_vol_trigger_down_limit : ℕ
  pub cur_loss_vol_trigger_down_limit : ℕ
  pub cur_loss_cur_trigger_up_limit : ℕ
  pub cur_loss_cur_trigger_down_limit : ℕ
  pub cur_over_cur_trigger_down_limit : ℕ

pub record ConPhaseAlarm : Type 0 where
  pub total_power_factor_downimit : ℕ
  pub current_unbalance_limit : ℕ
  pub voltage_unbalance_limit : ℕ

abbrev pub reg_lossvol_voltrigger_up : ℕ
reg_lossvol_voltrigger_up = 0x4041

abbrev pub reg_lossvol_curtrigger_down1 : ℕ
reg_lossvol_curtrigger_down1 = 0x4043

abbrev pub reg_undervol_voltrigger_up : ℕ
reg_undervol_voltrigger_up = 0x4046

abbrev pub reg_overvol_voltrigger_down : ℕ
reg_overvol_voltrigger_down = 0x4048

abbrev pub reg_volunbalance_limit : ℕ
reg_volunbalance_limit = 0x404e

abbrev pub reg_curunbalance_limit : ℕ
reg_curunbalance_limit = 0x4050

abbrev pub reg_losscur_voltrigger_down : ℕ
reg_losscur_voltrigger_down = 0x4052

abbrev pub reg_losscur_curtrigger_up1 : ℕ
reg_losscur_curtrigger_up1 = 0x4053

abbrev pub reg_overcur_curtrigger_down : ℕ
reg_overcur_curtrigger_down = 0x4058

abbrev pub reg_totalpower_factor_down : ℕ
reg_totalpower_factor_down = 0x4061

module _ {Ctx World : Type 0} where
  -- `rc = read(&s->field); if (rc <= 0) return -1;`, then the rest of the function.
  unfoldable pub reading :
      {S : Type 0} → M Ctx World (ℤ × ℕ) → (ℕ → S) → (S → M Ctx World (ℤ × S)) → M Ctx World (ℤ × S)
  reading read put rest =
      read >>= λ r. if positive r.0 then rest (put r.1) else pure (minus_one, put r.1)

  -- `rc = write(s->field); if (rc <= 0) return -1;`
  unfoldable pub writing : M Ctx World ℤ → M Ctx World ℤ → M Ctx World ℤ
  writing write rest = write >>= λ rc. if positive rc then rest else pure minus_one

module _ {Ctx World : Type 0} (m : Modbus Ctx World) where
  abbrev pub read_field : ℕ → ℕ → M Ctx World (ℤ × ℕ)
  read_field reg old = get_ctx >>= λ ctx. im3332_read_reg m ctx reg old

  abbrev pub read_field32 : ℕ → ℕ → M Ctx World (ℤ × ℕ)
  read_field32 reg old = get_ctx >>= λ ctx. im3332_read_reg32 m ctx reg old

  abbrev pub write_field : ℕ → ℕ → M Ctx World ℤ
  write_field reg v = get_ctx >>= λ ctx. im3332_write_reg m ctx reg v

  abbrev pub write_field32 : ℕ → ℕ → M Ctx World ℤ
  write_field32 reg v = get_ctx >>= λ ctx. im3332_write_reg32 m ctx reg v

  -- The second part of the result is what `*sigal` holds afterwards.
  unfoldable pub im3332_get_sigalphase_alarmevent :
      SigalPhaseAlarm → M Ctx World (ℤ × SigalPhaseAlarm)
  im3332_get_sigalphase_alarmevent s0 =
      unless_null (minus_one, s0)
        (reading (read_field reg_lossvol_voltrigger_up s0.vol_loss_vol_trigger_up_limit)
          (λ v. record s0 { vol_loss_vol_trigger_up_limit = v })
          λ s1.
            reading (read_field32 reg_lossvol_curtrigger_down1 s1.vol_loss_cur_trigger_downimit)
              (λ v. record s1 { vol_loss_cur_trigger_downimit = v })
              λ s2.
                reading (read_field reg_undervol_voltrigger_up s2.vol_under_vol_trigger_up_limit)
                  (λ v. record s2 { vol_under_vol_trigger_up_limit = v })
                  λ s3.
                    reading
                      (read_field reg_overvol_voltrigger_down s3.vol_over_vol_trigger_down_limit)
                      (λ v. record s3 { vol_over_vol_trigger_down_limit = v })
                      λ s4.
                        reading
                          (read_field reg_losscur_voltrigger_down
                            s4.cur_loss_vol_trigger_down_limit)
                          (λ v. record s4 { cur_loss_vol_trigger_down_limit = v })
                          λ s5.
                            reading
                              (read_field32 reg_losscur_curtrigger_up1
                                s5.cur_loss_cur_trigger_up_limit)
                              (λ v. record s5 { cur_loss_cur_trigger_up_limit = v })
                              λ s6.
                                reading
                                  (read_field reg_overcur_curtrigger_down
                                    s6.cur_over_cur_trigger_down_limit)
                                  (λ v. record s6 { cur_over_cur_trigger_down_limit = v })
                                  λ s7. pure (pos 0, s7))

  unfoldable pub im3332_get_conphase_alarmevent : ConPhaseAlarm → M Ctx World (ℤ × ConPhaseAlarm)
  im3332_get_conphase_alarmevent c0 =
      unless_null (minus_one, c0)
        (reading (read_field reg_totalpower_factor_down c0.total_power_factor_downimit)
          (λ v. record c0 { total_power_factor_downimit = v })
          λ c1.
            reading (read_field reg_curunbalance_limit c1.current_unbalance_limit)
              (λ v. record c1 { current_unbalance_limit = v })
              λ c2.
                reading (read_field reg_volunbalance_limit c2.voltage_unbalance_limit)
                  (λ v. record c2 { voltage_unbalance_limit = v }) λ c3. pure (pos 0, c3))

  unfoldable pub im3332_set_sigalphase_alarmevent : SigalPhaseAlarm → M Ctx World ℤ
  im3332_set_sigalphase_alarmevent s = unless_null minus_one (
      writing (write_field reg_lossvol_voltrigger_up s.vol_loss_vol_trigger_up_limit) (
        writing (write_field32 reg_lossvol_curtrigger_down1 s.vol_loss_cur_trigger_downimit) (
          writing (write_field reg_undervol_voltrigger_up s.vol_under_vol_trigger_up_limit) (
            writing (write_field reg_overvol_voltrigger_down s.vol_over_vol_trigger_down_limit) (
              writing (write_field reg_losscur_voltrigger_down s.cur_loss_vol_trigger_down_limit) (
                writing (write_field32 reg_losscur_curtrigger_up1 s.cur_loss_cur_trigger_up_limit) (
                  writing
                    (write_field reg_overcur_curtrigger_down s.cur_over_cur_trigger_down_limit)
                    (pure (pos 0)))))))))

  unfoldable pub im3332_set_conphase_alarmevent : ConPhaseAlarm → M Ctx World ℤ
  im3332_set_conphase_alarmevent c = unless_null minus_one (
      writing (write_field reg_totalpower_factor_down c.total_power_factor_downimit) (
        writing (write_field reg_curunbalance_limit c.current_unbalance_limit)
          (writing (write_field reg_volunbalance_limit c.voltage_unbalance_limit) (pure (pos 0)))))
