-- ===== src/Radio/Lynq.antt =====
-- common/utils/rf/rf_lynq.c: the commands that a module of Lynq understands. The structs and the
-- results are behind pointers that are not NULL.
use linux_comon.Prelude.{
  ℕ, Bool, true, false, ◌||◌, Option, none, some, List, [], ◌∷◌, ◌==◌, if◌then◌else◌, drop,
}
use linux_comon.Prelude.Int.{ℤ, pos, negsuc, minus_one, is_zero}
use linux_comon.Radio.Modem.{Port, M, ◌>>=◌, pure, checked, on_option}
use linux_comon.Radio.Text.{
  codes, strstr, has, strtok, scan_word, scan_int, scan_ints, scan_literal, store_string,
}
use linux_comon.Radio.Info.{RfSignal, RfInfo}
use linux_comon.Radio.Serial.{ask}
use linux_comon.Radio.Quectel.Signal.{store_piece, is_comma}
use linux_comon.Radio.Quectel.Control.{expect_ok}

-- The separators "\n :"
abbrev pub separates : ℕ → Bool
separates c = (c == b'\n') || ((c == b' ') || (c == b':'))

unfoldable pub set_rf_dft_sys_info_lynq : RfInfo → RfInfo
set_rf_dft_sys_info_lynq i = record i {
  rf_signal = record i.rf_signal {
    rsrq = negsuc 199;
    rsrp = negsuc 1399;
    rssi = negsuc 1199;
    rssnr = negsuc 9;
    sinr = pos 0;
  };
}

-- What `sscanf(response, " +MCSQ:%d,%d,%d,%d,%d", …)` stores: the numbers read before it fails, in
-- order, and the others as they were.
unfoldable pub store_mcsq : List ℤ → RfSignal → RfSignal
store_mcsq [] s = s
store_mcsq (rsrq ∷ []) s = record s { rsrq = rsrq }
store_mcsq (rsrq ∷ rsrp ∷ []) s = record s { rsrq = rsrq; rsrp = rsrp }
store_mcsq (rsrq ∷ rsrp ∷ rssi ∷ []) s = record s { rsrq = rsrq; rsrp = rsrp; rssi = rssi }
store_mcsq (rsrq ∷ rsrp ∷ rssi ∷ rssnr ∷ []) s = record s {
  rsrq = rsrq;
  rsrp = rsrp;
  rssi = rssi;
  rssnr = rssnr;
}
store_mcsq (rsrq ∷ rsrp ∷ rssi ∷ rssnr ∷ sinr ∷ _) s = record s {
  rsrq = rsrq;
  rsrp = rsrp;
  rssi = rssi;
  rssnr = rssnr;
  sinr = sinr;
}

-- The numbers that it reads: the first one stands behind ':', the others behind ','.
unfoldable pub scan_mcsq : List ℕ → List ℤ
scan_mcsq response = elim (scan_literal (codes " +MCSQ:") response) [
  | none ↦ []
  | some t ↦ elim (scan_int t) [ none ↦ [] | some (v, rest) ↦ v ∷ scan_ints 4 rest ]
]

abbrev pub all_five : List ℤ → Bool
all_five (_ ∷ _ ∷ _ ∷ _ ∷ _ ∷ _) = true
all_five _ = false

module _ {World : Type 0} (p : Port World) (rfdev : Option (List ℕ)) where
  unfoldable pub get_rf_iccid_lynq : RfInfo → M World (ℤ × RfInfo)
  get_rf_iccid_lynq i = ask p rfdev (codes "AT+CICCID\r\n") >>= λ r.
      on_option r (pure (minus_one, i)) λ s.
        on_option (scan_literal (codes " +CICCID:") s) (pure (minus_one, i)) λ t.
          on_option (scan_word t) (pure (minus_one, i)) λ (word, _).
            checked (store_string word i.ciccid) >>= λ ciccid.
            pure (pos 0, record i { ciccid = ciccid })

  unfoldable pub get_rf_device_info_lynq : RfInfo → M World (ℤ × RfInfo)
  get_rf_device_info_lynq i = ask p rfdev (codes "ATI\r\n") >>= λ r.
      on_option r (pure (minus_one, i)) λ s.
        on_option (strstr s (codes "Manufacturer")) (pure (minus_one, i)) λ t.
          let pieces = strtok separates t in
          checked (store_piece pieces 1 15 i.manufacture) >>= λ manufacture.
          checked (store_piece pieces 3 15 i.model) >>= λ model.
          checked (store_piece pieces 5 31 i.rev) >>= λ rev.
          checked (store_piece pieces 7 15 i.sn) >>= λ sn.
          checked (store_piece pieces 9 15 i.imei) >>= λ imei.
          get_rf_iccid_lynq
            (record i { manufacture = manufacture; model = model; rev = rev; sn = sn; imei = imei })

  unfoldable pub update_ue_sys_info_lynq : RfInfo → M World (ℤ × RfInfo)
  update_ue_sys_info_lynq i = ask p rfdev (codes "AT+CPSI?\r\n") >>= λ r.
      on_option r (pure (minus_one, i)) λ s.
        on_option (strstr s (codes "+CPSI: ")) (pure (minus_one, i)) λ t.
          let pieces = strtok is_comma (drop 7 t) in
          checked (store_piece pieces 0 15 i.rf_signal.sysmode) >>= λ sysmode.
          checked (store_piece pieces 1 31 i.rf_signal.opmode) >>= λ opmode.
          checked (store_piece pieces 2 15 i.plmn) >>= λ plmn.
          checked (store_piece pieces 6 15 i.rf_signal.freqband) >>= λ freqband. pure (
            pos 0,
            record i {
              plmn = plmn;
              rf_signal = record i.rf_signal {
                sysmode = sysmode;
                opmode = opmode;
                freqband = freqband;
              };
            },
          )

  unfoldable pub update_pin_info_lynq : RfInfo → M World (ℤ × RfInfo)
  update_pin_info_lynq i = ask p rfdev (codes "AT+CPIN?\r\n") >>= λ r.
      on_option r (pure (minus_one, i)) λ s.
        on_option (scan_literal (codes " +CPIN:") s) (pure (minus_one, i)) λ t.
          on_option (scan_word t) (pure (minus_one, i)) λ (word, _).
            checked (store_string word i.rf_signal.cpin) >>= λ cpin.
            pure (pos 0, record i { rf_signal = record i.rf_signal { cpin = cpin } })

  -- The defaults are set where all five numbers have been read.
  unfoldable pub update_sys_info_lynq : RfInfo → M World (ℤ × RfInfo)
  update_sys_info_lynq i = ask p rfdev (codes "AT+MCSQ\r\n") >>= λ r.
      on_option r (pure (minus_one, set_rf_dft_sys_info_lynq i)) λ s.
        let numbers = scan_mcsq s in
        let i' = record i { rf_signal = store_mcsq numbers i.rf_signal } in
        pure (if all_five numbers then (pos 0, set_rf_dft_sys_info_lynq i') else (minus_one, i'))

  unfoldable pub get_rf_signal_lynq : RfInfo → M World (ℤ × RfInfo)
  get_rf_signal_lynq i = update_ue_sys_info_lynq i >>= λ ue.
      if is_zero (ue.0)
      then (update_pin_info_lynq (ue.1) >>= λ pin.
          update_sys_info_lynq (pin.1) >>= λ sys. pure (ue.0, sys.1))
      else pure (ue.0, ue.1)

  unfoldable pub soft_reset_lynq : M World ℤ
  soft_reset_lynq = expect_ok p rfdev (codes "AT+CRESET\r\n")

  unfoldable pub reset_cfun_lynq : M World ℤ
  reset_cfun_lynq = expect_ok p rfdev (codes "AT+CFUN=0\r\n") >>= λ off.
      if is_zero off then expect_ok p rfdev (codes "AT+CFUN=1\r\n") else pure minus_one

  -- sscanf(response, "+CFUN: %d\n", cfun)
  unfoldable pub get_cfun_lynq : ℤ → M World (ℤ × ℤ)
  get_cfun_lynq cfun = ask p rfdev (codes "AT+CFUN?\r\n") >>= λ r.
      on_option r (pure (minus_one, cfun)) λ s.
        on_option (scan_literal (codes "+CFUN: ") s) (pure (minus_one, cfun))
          λ t. on_option (scan_int t) (pure (minus_one, cfun)) λ (v, _). pure (pos 0, v)

  unfoldable pub get_cpin_lynq : M World (ℤ × ℤ)
  get_cpin_lynq = ask p rfdev (codes "AT+CPIN?\r\n") >>= λ r.
      on_option r (pure (minus_one, pos 0))
        λ s. pure (pos 0, (if has s (codes "READY") then pos 1 else pos 0))

  unfoldable pub get_creg_lynq : M World (ℤ × ℤ)
  get_creg_lynq = ask p rfdev (codes "AT+CREG?\r\n") >>= λ r.
      on_option r (pure (minus_one, pos 0)) λ s.
        on_option (strstr s (codes "+CREG:")) (pure (minus_one, pos 0))
          λ t. pure (pos 0, (if has t (codes "1") || has t (codes "5") then pos 1 else pos 0))
