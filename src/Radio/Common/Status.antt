-- ===== src/Radio/Common/Status.antt =====
-- `get_RF_moduleInfo`, `update_RF_signalInfo` and `update_RF_status` of common/utils/rf/rf_common.c.
use linux_comon.Prelude.{
  ℕ, ◌+◌, ◌/◌, Bool, true, not, ◌&&◌, Option, none, some, List, replicate, if◌then◌else◌, ltb,
}
use linux_comon.Prelude.Int.{ℤ, pos, negsuc, minus_one, is_zero}
use linux_comon.Sd.Names.{negated}
use linux_comon.Radio.Modem.{Port, M, ◌>>=◌, ◌>>◌, pure, lock, unlock}
use linux_comon.Radio.Info.{
  RfSignal, RfInfo, Manufacturer, rf_none, rf_quectel, rf_lynq, NwMode, nwmode_none, nwmode_2g,
  nwmode_3g, nwmode_4g, qos_worst, qos_bad, qos_normal, qos_good, qos_best,
}
use linux_comon.Radio.Quectel.Device.{get_rf_device_info_quectel}
use linux_comon.Radio.Quectel.Signal.{get_rf_signal_quectel, get_nwmode_quectel}
use linux_comon.Radio.Lynq.{get_rf_device_info_lynq, get_rf_signal_lynq}

-- v > -(n + 1)
abbrev pub above_neg : ℤ → ℕ → Bool
above_neg (pos v) n = true
above_neg (negsuc v) n = ltb v n

-- RSRP / 10, which C cuts towards 0.
abbrev pub tenth : ℤ → ℤ
tenth (pos v) = pos (v / 10)
tenth (negsuc v) = negated ((v + 1) / 10)

-- The branch RF_LYNQ of `calculate_RF_signalQos`, on `rsrp`.
unfoldable pub lynq_qos : ℤ → ℕ
lynq_qos rsrp =
    if not (is_zero rsrp) && above_neg rsrp 74
    then qos_best
    else if not (above_neg rsrp 74) && above_neg rsrp 84
    then qos_good
    else if not (above_neg rsrp 84) && above_neg rsrp 94
    then qos_normal
    else if not (above_neg rsrp 94) && above_neg rsrp 104
    then qos_bad
    else qos_worst

-- The branch RF_QUECTEL, on `sig`.
unfoldable pub quectel_qos : ℤ → ℕ
quectel_qos sig =
    if above_neg sig 84
    then qos_best
    else if above_neg sig 94
    then qos_good
    else if above_neg sig 104
    then qos_normal
    else if above_neg sig 114
    then qos_bad
    else qos_worst

abbrev pub quectel_sig : NwMode → RfSignal → ℤ
quectel_sig nwmode_none s = s.rssi
quectel_sig nwmode_2g s = s.rssi
quectel_sig nwmode_3g s = s.rssi
quectel_sig nwmode_4g s = s.rsrp

unfoldable pub signal_qos_of : Manufacturer → RfSignal → NwMode → ℕ
unfolding lynq_qos quectel_qos
signal_qos_of rf_lynq s mode = lynq_qos (tenth s.rsrp)
signal_qos_of rf_quectel s mode = quectel_qos (quectel_sig mode s)
signal_qos_of rf_none s mode = qos_worst

unfoldable pub calculate_rf_signal_qos : Manufacturer → RfInfo → NwMode → RfInfo
unfolding signal_qos_of
calculate_rf_signal_qos mnf i mode = record i {
  rf_signal = record i.rf_signal { signal_qos = signal_qos_of mnf i.rf_signal mode };
}

-- memset(&pstrfinfo_->RFsignal, 0x00, sizeof(pstrfinfo_->RFsignal))
unfoldable pub zero_signal : RfSignal
zero_signal = record {
  freqband = replicate 16 0;
  opmode = replicate 32 0;
  sysmode = replicate 16 0;
  cpin = replicate 32 0;
  rsrq = pos 0;
  rsrp = pos 0;
  rssi = pos 0;
  rssnr = pos 0;
  sinr = pos 0;
  signal_qos = 0;
}

-- ret |= b, for a `b` that is 0 or -1.
abbrev pub or_result : ℤ → ℤ → ℤ
or_result a b = if is_zero b then a else minus_one

module _ {World : Type 0} (p : Port World) where
  unfoldable pub get_rf_module_info : Option (List ℕ) → RfInfo → Manufacturer → M World (ℤ × RfInfo)
  get_rf_module_info none i mnf = pure (minus_one, i)
  get_rf_module_info (some dev) i rf_lynq =
      get_rf_device_info_lynq p (some dev) i >>= λ r. pure (minus_one, r.1)
  get_rf_module_info (some dev) i rf_quectel = get_rf_device_info_quectel p (some dev) i
  get_rf_module_info (some dev) i rf_none = pure (minus_one, i)

  unfoldable pub update_rf_signal_info :
      Option (List ℕ) → RfInfo → Manufacturer → M World (ℤ × RfInfo)
  unfolding calculate_rf_signal_qos zero_signal
  update_rf_signal_info none i mnf = pure (minus_one, i)
  update_rf_signal_info (some dev) i rf_lynq = do
    lock
    r ← get_rf_signal_lynq p (some dev) (record i { rf_signal = zero_signal })
    unlock
    pure (r.0, calculate_rf_signal_qos rf_lynq (r.1) nwmode_4g)
  update_rf_signal_info (some dev) i rf_quectel = do
    lock
    mode ← get_nwmode_quectel p (some dev) nwmode_4g
    r ← get_rf_signal_quectel p (some dev) (record i { rf_signal = zero_signal })
    unlock
    pure (minus_one, calculate_rf_signal_qos rf_quectel (r.1) (mode.1))
  update_rf_signal_info (some dev) i rf_none = do lock; unlock; pure (minus_one, i)

  unfoldable pub update_rf_status : Option (List ℕ) → RfInfo → Manufacturer → M World (ℤ × RfInfo)
  update_rf_status dev i mnf = do
    module_info ← get_rf_module_info dev i mnf
    signal_info ← update_rf_signal_info dev (module_info.1) mnf
    pure (or_result (module_info.0) (signal_info.0), signal_info.1)
