-- ===== src/Radio/Quectel/Signal.antt =====
-- `get_RF_Signal_QUECTEL` and `get_nwmode_QUECTEL` of common/utils/rf/rf_quectel.c. The struct and
-- the mode are not NULL.
use linux_comon.Prelude.{
  ℕ, ◌+◌, Bool, Option, none, some, List, [], ◌∷◌, ◌++◌, ◌==◌, if◌then◌else◌, length, drop,
  get_elem?,
}
use linux_comon.Prelude.Int.{ℤ, pos, negsuc, minus_one}
use linux_comon.Params.Strings.{c_string, strncpy}
use linux_comon.Radio.Modem.{Port, M, ◌>>=◌, pure, checked, on_option}
use linux_comon.Radio.Text.{
  codes, strstr, has, strtok, scan_word, scan_int, scan_ints, store_string, minus, fifth,
}
use linux_comon.Radio.Info.{RfInfo, NwMode, nwmode_none, nwmode_2g, nwmode_3g, nwmode_4g}
use linux_comon.Radio.Serial.{ask}

abbrev pub without : ℕ → List ℕ → List ℕ
without ch [] = []
without ch (c ∷ cs) = let rest = without ch cs in if c == ch then rest else c ∷ rest

-- On an array; none where no NUL ends the string in it.
unfoldable pub remove_string_charter : List ℕ → ℕ → Option (List ℕ)
remove_string_charter array ch = elim (c_string array) [
  | none ↦ none
  | some cs ↦ let kept = without ch cs in some (kept ++ (0 ∷ drop (length kept + 1) array))
]

-- The case of the loop over `strtok` that copies piece `k`: strncpy(array, token, n).
abbrev pub store_piece : List (List ℕ) → ℕ → ℕ → List ℕ → Option (List ℕ)
store_piece pieces k n array = elim (get_elem? pieces k) [
  | none ↦ some array
  | some token ↦ strncpy array token n
]

-- … and then the removal of its quotation marks.
unfoldable pub unquoted_piece : List (List ℕ) → ℕ → ℕ → List ℕ → Option (List ℕ)
unfolding remove_string_charter
unquoted_piece pieces k n array = elim (store_piece pieces k n array) [
  | none ↦ none
  | some stored ↦ remove_string_charter stored b'"'
]

abbrev pub is_comma : ℕ → Bool
is_comma c = c == b','

-- -9999
abbrev pub dft_number : ℤ
dft_number = negsuc 9998

unfoldable pub set_rf_dft_sys_info : RfInfo → RfInfo
set_rf_dft_sys_info i = record i {
  rf_signal = record i.rf_signal {
    rsrq = dft_number;
    rsrp = dft_number;
    rssi = dft_number;
    rssnr = dft_number;
    sinr = dft_number;
  };
}

-- QCsq_Sysmode
pub data SysMode : Type 0 where
  mode_no_service mode_gsm mode_wcdma mode_tdscdma : SysMode
  mode_lte mode_cdma mode_evdo mode_cdma_evdo : SysMode

-- `qcsqsysmode`: TDSCDMA alone stands without quotation marks.
abbrev pub qcsq_sysmodes : List (SysMode × List ℕ)
qcsq_sysmodes =
    (mode_no_service, codes "\"NOSERVICE\"")
    ∷ (mode_gsm, codes "\"GSM\"")
    ∷ (mode_wcdma, codes "\"WCDMA\"")
    ∷ (mode_tdscdma, codes "TDSCDMA")
    ∷ (mode_lte, codes "\"LTE\"")
    ∷ (mode_cdma, codes "\"CDMA\"")
    ∷ (mode_evdo, codes "\"EVDO\"")
    ∷ (mode_cdma_evdo, codes "\"CDMA-EVDO\"")
    ∷ []

-- The first mode of the table whose name is in the response, and what stands behind the name.
abbrev pub find_mode : List (SysMode × List ℕ) → List ℕ → Option (SysMode × List ℕ)
find_mode [] response = none
find_mode ((mode, name) ∷ modes) response = elim (strstr response name) [
  | some t ↦ some (mode, drop (length name) t)
  | none ↦ find_mode modes response
]

unfoldable pub nwmode_of : SysMode → NwMode
nwmode_of mode_no_service = nwmode_none
nwmode_of mode_gsm = nwmode_2g
nwmode_of mode_wcdma = nwmode_3g
nwmode_of mode_tdscdma = nwmode_3g
nwmode_of mode_cdma = nwmode_3g
nwmode_of mode_evdo = nwmode_3g
nwmode_of mode_cdma_evdo = nwmode_3g
nwmode_of mode_lte = nwmode_4g

-- SINR / 5 - 20
abbrev pub sinr_of : ℤ → ℤ
sinr_of v = minus (fifth v) 20

abbrev pub with_rssi : ℤ → RfInfo → RfInfo
with_rssi v i = record i { rf_signal = record i.rf_signal { rssi = v } }

abbrev pub with_rssi_sinr : ℤ → ℤ → RfInfo → RfInfo
with_rssi_sinr v w i = record i { rf_signal = record i.rf_signal { rssi = v; sinr = w } }

-- The `switch` over the mode: the struct with the numbers that `sscanf` reads; none where it does
-- not read all of them.
unfoldable pub read_numbers : SysMode → List ℤ → RfInfo → Option RfInfo
read_numbers mode_gsm (rssi ∷ []) i = some (with_rssi rssi i)
read_numbers mode_wcdma (rssi ∷ _ ∷ _ ∷ []) i = some (with_rssi rssi i)
read_numbers mode_tdscdma (rssi ∷ _ ∷ _ ∷ []) i = some (with_rssi rssi i)
read_numbers mode_lte (rssi ∷ rsrp ∷ sinr ∷ rsrq ∷ []) i = some (record i {
  rf_signal = record i.rf_signal { rssi = rssi; rsrp = rsrp; sinr = sinr_of sinr; rsrq = rsrq };
})
read_numbers mode_cdma (rssi ∷ _ ∷ []) i = some (with_rssi rssi i)
read_numbers mode_evdo (rssi ∷ _ ∷ sinr ∷ []) i = some (with_rssi_sinr rssi (sinr_of sinr) i)
read_numbers mode_cdma_evdo (rssi ∷ _ ∷ _ ∷ _ ∷ sinr ∷ []) i =
    some (with_rssi_sinr rssi (sinr_of sinr) i)
read_numbers _ _ i = none

-- The conversions in the format of each mode.
abbrev pub conversions : SysMode → ℕ
conversions mode_no_service = 0
conversions mode_gsm = 1
conversions mode_wcdma = 3
conversions mode_tdscdma = 3
conversions mode_lte = 4
conversions mode_cdma = 2
conversions mode_evdo = 3
conversions mode_cdma_evdo = 5

-- From the `switch` of `update_RF_SysInfo_QUECTEL` to its end; `mode` is none for MODE_END.
unfoldable pub mode_numbers : Option (SysMode × List ℕ) → RfInfo → ℤ × RfInfo
unfolding read_numbers
mode_numbers none i = (pos 0, i)
mode_numbers (some (mode_no_service, at)) i = (minus_one, i)
mode_numbers (some (mode, at)) i = elim (read_numbers mode (scan_ints (conversions mode) at) i) [
  | none ↦ (minus_one, set_rf_dft_sys_info i)
  | some i' ↦ (pos 0, with_rssi (minus i'.rf_signal.rssi 120) i')
]

module _ {World : Type 0} (p : Port World) (rfdev : Option (List ℕ)) where
  -- A response that holds "OK\r\n" and the name of the answer: the string from that name on.
  unfoldable pub answer : List ℕ → List ℕ → M World (Option (List ℕ))
  answer atcmd name = ask p rfdev atcmd >>= λ r.
      on_option r (pure none) λ s. pure (if has s (codes "OK\r\n") then strstr s name else none)

  -- The response "+QNWINFO:" has the mode, the operator and the band.
  unfoldable pub update_ue_sys_info : RfInfo → M World (ℤ × RfInfo)
  update_ue_sys_info i = answer (codes "AT+QNWINFO\r\n") (codes "+QNWINFO:") >>= λ r.
      on_option r (pure (minus_one, i)) λ t.
        let pieces = strtok is_comma (drop 9 t) in
        checked (unquoted_piece pieces 0 15 i.rf_signal.sysmode) >>= λ sysmode.
        checked (unquoted_piece pieces 1 15 i.plmn) >>= λ plmn.
        checked (unquoted_piece pieces 2 15 i.rf_signal.freqband) >>= λ freqband. pure (
          pos 0,
          record i {
            plmn = plmn;
            rf_signal = record i.rf_signal { sysmode = sysmode; freqband = freqband };
          },
        )

  -- sscanf(pos, "+CPIN:%s\n", …)
  unfoldable pub update_pin_info : RfInfo → M World (ℤ × RfInfo)
  update_pin_info i = answer (codes "AT+CPIN?\r\n") (codes "+CPIN:") >>= λ r.
      on_option r (pure (minus_one, i)) λ t.
        on_option (scan_word (drop 6 t)) (pure (minus_one, i)) λ (word, _).
          checked (store_string word i.rf_signal.cpin) >>= λ cpin.
          pure (pos 0, record i { rf_signal = record i.rf_signal { cpin = cpin } })

  -- The first piece of the response: none where `strtok` returns NULL, which `sscanf` reads.
  unfoldable pub get_rssi : RfInfo → M World (ℤ × RfInfo)
  get_rssi i = ask p rfdev (codes "AT+CSQ\r\n") >>= λ r.
      on_option r (pure (minus_one, set_rf_dft_sys_info i)) λ s.
        on_option (if has s (codes "OK\r\n") then strstr s (codes "+CSQ:") else none)
          (pure (minus_one, i))
          λ t. checked (get_elem? (strtok is_comma (drop 5 t)) 0) >>= λ token.
            on_option (scan_int token) (pure (minus_one, set_rf_dft_sys_info i))
              λ (v, _). pure (pos 0, with_rssi v i)

  -- The mode behind the call; it is left where the response does not tell it.
  unfoldable pub get_nwmode_quectel : NwMode → M World (ℤ × NwMode)
  get_nwmode_quectel mode = ask p rfdev (codes "AT+QCSQ\r\n") >>= λ r.
      on_option r (pure (minus_one, mode)) λ s.
        if has s (codes "OK\r\n")
        then (if has s (codes "+QCSQ:")
            then pure (
              pos 0,
              (elim (find_mode qcsq_sysmodes s) as (λ _. NwMode) [
                | none ↦ mode
                | some (found, _) ↦ nwmode_of found
              ]),
            )
            else pure (minus_one, mode))
        else pure (minus_one, mode)

  unfoldable pub update_sys_info : RfInfo → M World (ℤ × RfInfo)
  update_sys_info i = ask p rfdev (codes "AT+QCSQ\r\n") >>= λ r.
      on_option r (pure (minus_one, set_rf_dft_sys_info i)) λ s.
        if has s (codes "OK\r\n")
        then (if has s (codes "+QCSQ:")
            then (get_rssi (set_rf_dft_sys_info i) >>= λ rssi.
                pure (mode_numbers (find_mode qcsq_sysmodes s) rssi.1))
            else pure (minus_one, i))
        else pure (minus_one, i)

  -- The third piece of "+COPS:" is the operator.
  unfoldable pub update_mcc : RfInfo → M World (ℤ × RfInfo)
  update_mcc i = answer (codes "AT+COPS?\r\n") (codes "+COPS:") >>= λ r.
      on_option r (pure (minus_one, i)) λ t.
        checked (unquoted_piece (strtok is_comma (drop 6 t)) 2 31 i.rf_signal.opmode) >>= λ opmode.
        pure (pos 0, record i { rf_signal = record i.rf_signal { opmode = opmode } })

  -- The results of the four parts are not looked at.
  unfoldable pub get_rf_signal_quectel : RfInfo → M World (ℤ × RfInfo)
  get_rf_signal_quectel i = do
    ue ← update_ue_sys_info i
    pin ← update_pin_info (ue.1)
    sys ← update_sys_info (pin.1)
    mcc ← update_mcc (sys.1)
    pure (pos 0, mcc.1)
