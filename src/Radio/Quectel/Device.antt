-- ===== src/Radio/Quectel/Device.antt =====
-- `get_RF_DeviceInfo_QUECTEL` of common/utils/rf/rf_quectel.c. The struct is not NULL.
use linux_comon.Prelude.{
  ℕ, ◌+◌, ◌-◌, Bool, true, false, Option, none, some, List, [], ◌∷◌, if◌then◌else◌, length, drop,
  replicate,
}
use linux_comon.Prelude.Int.{ℤ, pos, minus_one, is_zero, equal}
use linux_comon.Params.Strings.{c_string}
use linux_comon.Radio.Modem.{Port, M, ◌>>=◌, pure, checked, on_option}
use linux_comon.Radio.Text.{
  codes, strstr, strncmp, skip_blanks, scan_word, scan_int, scan_literal, store_string,
}
use linux_comon.Radio.Info.{RfInfo}
use linux_comon.Radio.Serial.{ask_into}

-- sscanf(pos, "%s\n\r%s\n\rRevision: %s\n\r", …): whether it converts all three, and the struct.
abbrev pub scan_rev : List ℕ → RfInfo → Option (Bool × RfInfo)
scan_rev s i = elim (scan_literal (codes "Revision: ") (skip_blanks s)) [
  | none ↦ some (false, i)
  | some t ↦ elim (scan_word t) [
    | none ↦ some (false, i)
    | some (rev, _) ↦ elim (store_string rev i.rev) [
      | none ↦ none
      | some stored ↦ some (true, record i { rev = stored })
    ]
  ]
]

abbrev pub scan_model : List ℕ → RfInfo → Option (Bool × RfInfo)
scan_model s i = elim (scan_word s) [
  | none ↦ some (false, i)
  | some (model, rest) ↦ elim (store_string model i.model) [
    | none ↦ none
    | some stored ↦ scan_rev rest (record i { model = stored })
  ]
]

unfoldable pub scan_ati : List ℕ → RfInfo → Option (Bool × RfInfo)
scan_ati s i = elim (scan_word s) [
  | none ↦ some (false, i)
  | some (manufacture, rest) ↦ elim (store_string manufacture i.manufacture) [
    | none ↦ none
    | some stored ↦ scan_model rest (record i { manufacture = stored })
  ]
]

-- The word behind the echo of the command, or at the start of a response without it.
unfoldable pub word_behind : List ℕ → List ℕ → Option (List ℕ)
word_behind echo s =
    let at : List ℕ = elim (strstr s echo) [ none ↦ s | some t ↦ drop (length echo) t ] in
    elim (scan_word at) [ none ↦ none | some (word, _) ↦ some word ]

-- sscanf(pos, "%d,%d", &enable, &stat): `stat`, if both are read.
unfoldable pub scan_stat : List ℕ → Option ℤ
scan_stat s = elim (scan_int s) [
  | none ↦ none
  | some (_, t) ↦ elim (scan_literal (b',' ∷ []) t) [
    | none ↦ none
    | some u ↦ elim (scan_int u) [ none ↦ none | some (stat, _) ↦ some stat ]
  ]
]

unfoldable pub sim_status_text : ℤ → List ℕ
sim_status_text stat =
    if is_zero stat
    then codes "Removed"
    else if equal stat (pos 1)
    then codes "Inserted"
    else codes "Unkown"

module _ {World : Type 0} (p : Port World) (rfdev : Option (List ℕ)) where
  module _ (ret : ℤ) where
    -- From the request "AT+QSIMSTAT?" on, with what `ret` and `response` hold.
    unfoldable pub device_sim : List ℕ → RfInfo → M World (ℤ × RfInfo)
    device_sim resp i = ask_into p rfdev (codes "AT+QSIMSTAT?\r\n") resp >>= λ r.
        on_option r.0 (pure (ret, i)) λ s.
          on_option (strstr s (codes "OK\r\n")) (pure (ret, i)) λ _.
            on_option (strstr s (codes "+QSIMSTAT:")) (pure (ret, i)) λ t.
              checked (c_string (drop (length s - length t + 11) (r.1))) >>= λ at.
              on_option (scan_stat at) (pure (ret, i)) λ stat.
                checked (store_string (sim_status_text stat) i.sim_status) >>= λ stored.
                pure (ret, record i { sim_status = stored })

    -- From the request "AT+CGSN" on.
    unfoldable pub device_sn : List ℕ → RfInfo → M World (ℤ × RfInfo)
    device_sn resp i = ask_into p rfdev (codes "AT+CGSN\r\n") resp >>= λ r.
        on_option r.0 (pure (ret, i)) λ s.
          on_option (strstr s (codes "OK\r\n")) (pure (ret, i)) λ _.
            on_option (word_behind (codes "AT+CGSN\n\r") s) (pure (ret, i)) λ sn.
              checked (store_string sn i.sn) >>= λ stored.
              device_sim (r.1) (record i { sn = stored })

    -- From the request "AT+GSN" on.
    unfoldable pub device_imei : List ℕ → RfInfo → M World (ℤ × RfInfo)
    device_imei resp i = ask_into p rfdev (codes "AT+GSN\r\n") resp >>= λ r.
        on_option r.0 (pure (ret, i)) λ s.
          on_option (strstr s (codes "OK\r\n")) (pure (ret, i)) λ _.
            on_option (word_behind (codes "AT+GSN\n\r") s) (pure (ret, i)) λ imei.
              checked (store_string imei i.imei) >>= λ stored.
              device_sn (r.1) (record i { imei = stored })

  -- `pos` behind the echo "ATI\n\r", or at the start.
  unfoldable pub ati_offset : ℤ → ℕ
  ati_offset ret = if is_zero ret then 5 else 0

  unfoldable pub get_rf_device_info_quectel : RfInfo → M World (ℤ × RfInfo)
  get_rf_device_info_quectel i = ask_into p rfdev (codes "ATI\r\n") (replicate 256 0) >>= λ r.
      on_option r.0 (pure (minus_one, i)) λ s.
        on_option (strstr s (codes "OK\r\n")) (pure (minus_one, i)) λ _.
          let ret = strncmp s (codes "ATI") in
          checked (c_string (drop (ati_offset ret) (r.1))) >>= λ at.
          checked (scan_ati at i) >>= λ scanned.
          if scanned.0 then device_imei ret (r.1) scanned.1 else pure (ret, scanned.1)
