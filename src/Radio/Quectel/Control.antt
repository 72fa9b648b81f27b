-- ===== src/Radio/Quectel/Control.antt =====
-- The short commands of common/utils/rf/rf_quectel.c. The results are stored behind pointers that
-- are not NULL.
use linux_comon.Prelude.{ℕ, suc, Bool, ◌||◌, Option, List, ◌∷◌, ◌++◌, if◌then◌else◌}
use linux_comon.Prelude.Int.{ℤ, pos, negsuc, minus_one, is_zero}
use linux_comon.Params.Strings.{decimal}
use linux_comon.Radio.Modem.{Port, M, ◌>>=◌, pure, on_option}
use linux_comon.Radio.Text.{codes, strstr, has}
use linux_comon.Radio.Serial.{ask}

-- "%d"
abbrev pub int_text : ℤ → List ℕ
int_text (pos n) = decimal 10 n
int_text (negsuc n) = b'-' ∷ decimal 10 (suc n)

module _ {World : Type 0} (p : Port World) where
  -- A command whose response has to hold "OK".
  unfoldable pub expect_ok : Option (List ℕ) → List ℕ → M World ℤ
  expect_ok rfdev atcmd = ask p rfdev atcmd >>= λ r.
      on_option r (pure minus_one) λ s. pure (if has s (codes "OK") then pos 0 else minus_one)

  module _ (rfdev : Option (List ℕ)) where
    unfoldable pub soft_reset_quectel : M World ℤ
    soft_reset_quectel = expect_ok rfdev (codes "AT+QPOWD\r\n")

    unfoldable pub nwscanmode_quectel : M World ℤ
    nwscanmode_quectel = expect_ok rfdev (codes "AT+QCFG=nwscanmode\r\n")

    -- The array of the first response is used for the second one; a request that succeeds
    -- overwrites it from its start.
    unfoldable pub reset_cfun_quectel : M World ℤ
    reset_cfun_quectel = expect_ok rfdev (codes "AT+CFUN=0\r\n") >>= λ off.
        if is_zero off then expect_ok rfdev (codes "AT+CFUN=1\r\n") else pure minus_one

    -- sprintf(cmd, "AT+QSIMDET=%d,%d\r\n", enable, level)
    unfoldable pub sim_detect_enable_quectel : Bool → ℤ → M World ℤ
    sim_detect_enable_quectel enable level = expect_ok rfdev (
        codes "AT+QSIMDET="
        ++ ((if enable then b'1' else b'0') ∷ (b',' ∷ (int_text level ++ codes "\r\n"))))

    -- The result, and `*cfun`.
    unfoldable pub get_cfun_quectel : ℤ → M World (ℤ × ℤ)
    get_cfun_quectel cfun = ask p rfdev (codes "AT+CFUN?\r\n") >>= λ r.
        on_option r (pure (minus_one, cfun)) λ s. pure (
          if has s (codes "+CFUN:")
          then (pos 0, (if has s (codes "1") then pos 1 else pos 0))
          else (minus_one, cfun))

    -- The result, and `*cpinReady`, which is set to 0 first.
    unfoldable pub get_cpin_quectel : M World (ℤ × ℤ)
    get_cpin_quectel = ask p rfdev (codes "AT+CPIN?\r\n") >>= λ r.
        on_option r (pure (minus_one, pos 0)) λ s. pure (
          if has s (codes "+CPIN:")
          then (pos 0, (if has s (codes "READY") then pos 1 else pos 0))
          else (minus_one, pos 0))

    -- The result, and `*creg`, which is set to 0 first: a '1' or a '5' anywhere behind "+CREG:"
    -- counts.
    unfoldable pub get_creg_quectel : M World (ℤ × ℤ)
    get_creg_quectel = ask p rfdev (codes "AT+CREG?\r\n") >>= λ r.
        on_option r (pure (minus_one, pos 0)) λ s.
          on_option (strstr s (codes "+CREG:")) (pure (minus_one, pos 0))
            λ t. pure (pos 0, (if has t (codes "1") || has t (codes "5") then pos 1 else pos 0))
