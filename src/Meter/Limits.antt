-- ===== src/Meter/Limits.antt =====
-- The alarm limits that project/elec/module/src/im3332.c writes to a meter and reads from it, as
-- registers.
use linux_comon.Prelude.{ℕ, suc, ◌+◌, ◌*◌, ◌/◌, ◌%◌, ◌^◌}
use linux_comon.Prelude.Int.{ℤ, pos}
use linux_comon.Meter.Modbus.{Modbus, M, get_ctx}
use linux_comon.Meter.Alarm.{
  reg_lossvol_voltrigger_up, reg_lossvol_curtrigger_down1, reg_undervol_voltrigger_up,
  reg_overvol_voltrigger_down, reg_volunbalance_limit, reg_curunbalance_limit,
  reg_losscur_voltrigger_down, reg_losscur_curtrigger_up1, reg_overcur_curtrigger_down,
  reg_totalpower_factor_down, SigalPhaseAlarm, ConPhaseAlarm, read_field, read_field32, write_field,
  write_field32, writing, im3332_get_sigalphase_alarmevent, im3332_get_conphase_alarmevent,
  im3332_set_sigalphase_alarmevent, im3332_set_conphase_alarmevent,
}
use linux_comon.Meter.RegisterFile.{
  RegisterFile, put, Computes, Computes-pure, Computes-bind, Computes-get_ctx, Computes-write_reg,
  Computes-write_reg32, Computes-read_reg, Computes-read_reg32, Computes-reading, Computes-writing,
  Computes-unless_null,
}

-- The registers after a 32-bit write.
abbrev pub put32 : ℕ → ℕ → (ℕ → ℕ) → ℕ → ℕ
put32 reg v f = put reg (v % 2 ^ 16) (put (suc reg) ((v / 2 ^ 16) % 2 ^ 16) f)

-- The registers after `im3332_set_conphase_alarmevent` and `im3332_set_sigalphase_alarmevent`.
abbrev pub put_conphase : ConPhaseAlarm → (ℕ → ℕ) → ℕ → ℕ
put_conphase a f = put reg_volunbalance_limit a.voltage_unbalance_limit (
    put reg_curunbalance_limit a.current_unbalance_limit
      (put reg_totalpower_factor_down a.total_power_factor_downimit f))

abbrev pub put_sigalphase : SigalPhaseAlarm → (ℕ → ℕ) → ℕ → ℕ
put_sigalphase a f = put reg_overcur_curtrigger_down a.cur_over_cur_trigger_down_limit (
    put32 reg_losscur_curtrigger_up1 a.cur_loss_cur_trigger_up_limit (
      put reg_losscur_voltrigger_down a.cur_loss_vol_trigger_down_limit (
        put reg_overvol_voltrigger_down a.vol_over_vol_trigger_down_limit (
          put reg_undervol_voltrigger_up a.vol_under_vol_trigger_up_limit (
            put32 reg_lossvol_curtrigger_down1 a.vol_loss_cur_trigger_downimit
              (put reg_lossvol_voltrigger_up a.vol_loss_vol_trigger_up_limit f))))))

-- What the two readers make of the registers.
abbrev pub got_conphase : (ℕ → ℕ) → ConPhaseAlarm
got_conphase f = record {
  total_power_factor_downimit = f reg_totalpower_factor_down;
  current_unbalance_limit = f reg_curunbalance_limit;
  voltage_unbalance_limit = f reg_volunbalance_limit;
}

abbrev pub got_sigalphase : SigalPhaseAlarm → (ℕ → ℕ) → SigalPhaseAlarm
got_sigalphase b f = record b {
  vol_loss_vol_trigger_up_limit = f reg_lossvol_voltrigger_up;
  vol_loss_cur_trigger_downimit =
      f reg_lossvol_curtrigger_down1 + 2 ^ 16 * f (suc reg_lossvol_curtrigger_down1);
  vol_under_vol_trigger_up_limit = f reg_undervol_voltrigger_up;
  vol_over_vol_trigger_down_limit = f reg_overvol_voltrigger_down;
  cur_loss_vol_trigger_down_limit = f reg_losscur_voltrigger_down;
  cur_loss_cur_trigger_up_limit =
      f reg_losscur_curtrigger_up1 + 2 ^ 16 * f (suc reg_losscur_curtrigger_up1);
  cur_over_cur_trigger_down_limit = f reg_overcur_curtrigger_down;
}

module _ {Ctx World : Type 0} {m : Modbus Ctx World} (file : RegisterFile m) (c : Ctx) where
  write16 : (reg v : ℕ) (f : ℕ → ℕ) → Computes file c (write_field m reg v) f (pos 1) (put reg v f)
  write16 reg v f =
      Computes-bind file get_ctx _ (Computes-get_ctx file f) (Computes-write_reg file reg v f)

  write32 :
      (reg v : ℕ) (f : ℕ → ℕ) → Computes file c (write_field32 m reg v) f (pos 2) (put32 reg v f)
  write32 reg v f =
      Computes-bind file get_ctx _ (Computes-get_ctx file f) (Computes-write_reg32 file reg v f)

  read16 : (reg old : ℕ) (f : ℕ → ℕ) → Computes file c (read_field m reg old) f (pos 1, f reg) f
  read16 reg old f =
      Computes-bind file get_ctx _ (Computes-get_ctx file f) (Computes-read_reg file reg old f)

  read32 :
      (reg old : ℕ) (f : ℕ → ℕ)
      → Computes file c (read_field32 m reg old) f (pos 2, f reg + 2 ^ 16 * f (suc reg)) f
  read32 reg old f =
      Computes-bind file get_ctx _ (Computes-get_ctx file f) (Computes-read_reg32 file reg old f)

  -- One more checked access in front of the rest.
  writes :
      {write rest : M Ctx World ℤ} {n : ℕ} {r : ℤ} {f g h : ℕ → ℕ}
      → Computes file c write f (pos (suc n)) g
      → Computes file c rest g r h
      → Computes file c (writing write rest) f r h
  writes {write} {rest} one two = Computes-writing file write rest one two

  pub Computes-set_conphase :
      (a : ConPhaseAlarm) (f : ℕ → ℕ)
      → Computes file c (im3332_set_conphase_alarmevent m a) f (pos 0) (put_conphase a f)
  unfolding im3332_set_conphase_alarmevent
  Computes-set_conphase a f = Computes-unless_null file _ (
      writes (write16 _ _ _)
        (writes (write16 _ _ _) (writes (write16 _ _ _) (Computes-pure file _ _))))

  pub Computes-set_sigalphase :
      (a : SigalPhaseAlarm) (f : ℕ → ℕ)
      → Computes file c (im3332_set_sigalphase_alarmevent m a) f (pos 0) (put_sigalphase a f)
  unfolding im3332_set_sigalphase_alarmevent
  Computes-set_sigalphase a f = Computes-unless_null file _ (
      writes (write16 _ _ _) (
        writes (write32 _ _ _) (
          writes (write16 _ _ _) (
            writes (write16 _ _ _) (
              writes (write16 _ _ _)
                (writes (write32 _ _ _) (writes (write16 _ _ _) (Computes-pure file _ _))))))))

  pub Computes-get_conphase :
      (b : ConPhaseAlarm) (f : ℕ → ℕ)
      → Computes file c (im3332_get_conphase_alarmevent m b) f (pos 0, got_conphase f) f
  unfolding im3332_get_conphase_alarmevent
  Computes-get_conphase b f = Computes-unless_null file _ (
      Computes-reading file _ _ _ (read16 _ _ _) (
        Computes-reading file _ _ _ (read16 _ _ _)
          (Computes-reading file _ _ _ (read16 _ _ _) (Computes-pure file _ _))))

  pub Computes-get_sigalphase :
      (b : SigalPhaseAlarm) (f : ℕ → ℕ)
      → Computes file c (im3332_get_sigalphase_alarmevent m b) f (pos 0, got_sigalphase b f) f
  unfolding im3332_get_sigalphase_alarmevent
  Computes-get_sigalphase b f = Computes-unless_null file _ (
      Computes-reading file _ _ _ (read16 _ _ _) (
        Computes-reading file _ _ _ (read32 _ _ _) (
          Computes-reading file _ _ _ (read16 _ _ _) (
            Computes-reading file _ _ _ (read16 _ _ _) (
              Computes-reading file _ _ _ (read16 _ _ _) (
                Computes-reading file _ _ _ (read32 _ _ _)
                  (Computes-reading file _ _ _ (read16 _ _ _) (Computes-pure file _ _))))))))
