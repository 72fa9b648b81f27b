-- ===== src/Radio/Common/Requests.antt =====
-- The requests of common/utils/rf/rf_common.c, each one under `g_rf_mutex`.
use linux_comon.Prelude.{
  ℕ, zero, suc, ◌-◌, Bool, Option, none, some, List, [], ◌∷◌, ◌++◌, ltb, if◌then◌else◌, length,
  drop, replicate,
}
use linux_comon.Prelude.Int.{ℤ, pos, minus_one, is_zero}
use linux_comon.Params.Strings.{c_string, decimal, snprintf}
use linux_comon.Radio.Modem.{Port, M, ◌>>=◌, ◌>>◌, pure, checked, call, lock, unlock, on_option}
use linux_comon.Radio.Text.{codes, has, starts_with, scan_int, store_string}
use linux_comon.Radio.Info.{Manufacturer, rf_none, rf_quectel, rf_lynq, NwMode}
use linux_comon.Radio.Serial.{parse_rfinfo_request, ask}
use linux_comon.Radio.Quectel.Signal.{get_nwmode_quectel}
use linux_comon.Radio.Quectel.Control.{
  soft_reset_quectel, nwscanmode_quectel, reset_cfun_quectel, sim_detect_enable_quectel,
  get_cfun_quectel, get_cpin_quectel, get_creg_quectel,
}
use linux_comon.Radio.Lynq.{
  soft_reset_lynq, reset_cfun_lynq, get_cfun_lynq, get_cpin_lynq, get_creg_lynq,
}

-- The mutex is held around a request.
unfoldable pub with_mutex : {World A : Type 0} → M World A → M World A
with_mutex x = do lock; r ← x; unlock; pure r

module _ {World : Type 0} (p : Port World) where
  module _ (rfdev : Option (List ℕ)) where
    -- The results, with what `*cfun` holds before.
    abbrev pub cfun_request : Manufacturer → ℤ → M World (ℤ × ℤ)
    cfun_request rf_lynq cfun = get_cfun_lynq p rfdev cfun
    cfun_request rf_quectel cfun = get_cfun_quectel p rfdev cfun
    cfun_request rf_none cfun = pure (minus_one, cfun)

    unfoldable pub rf_get_cfun : Manufacturer → ℤ → M World (ℤ × ℤ)
    unfolding with_mutex
    rf_get_cfun mnf cfun = with_mutex (cfun_request mnf cfun)

    abbrev pub sim_request : Manufacturer → Bool → ℤ → M World ℤ
    sim_request rf_quectel enable level = sim_detect_enable_quectel p rfdev enable level
    sim_request _ enable level = pure minus_one

    unfoldable pub rf_sim_detect : Manufacturer → Bool → ℤ → M World ℤ
    unfolding with_mutex
    rf_sim_detect mnf enable level = with_mutex (sim_request mnf enable level)

    abbrev pub cpin_request : Manufacturer → ℤ → M World (ℤ × ℤ)
    cpin_request rf_lynq cpin = get_cpin_lynq p rfdev
    cpin_request rf_quectel cpin = get_cpin_quectel p rfdev
    cpin_request rf_none cpin = pure (minus_one, cpin)

    unfoldable pub rf_get_cpin : Manufacturer → ℤ → M World (ℤ × ℤ)
    unfolding with_mutex
    rf_get_cpin mnf cpin = with_mutex (cpin_request mnf cpin)

    abbrev pub scanmode_request : Manufacturer → M World ℤ
    scanmode_request rf_quectel = nwscanmode_quectel p rfdev
    scanmode_request _ = pure minus_one

    unfoldable pub rf_nw_scanmode : Manufacturer → M World ℤ
    unfolding with_mutex
    rf_nw_scanmode mnf = with_mutex (scanmode_request mnf)

    abbrev pub nwmode_request : Manufacturer → NwMode → M World (ℤ × NwMode)
    nwmode_request rf_quectel mode = get_nwmode_quectel p rfdev mode
    nwmode_request _ mode = pure (minus_one, mode)

    unfoldable pub rf_get_nwmode : Manufacturer → NwMode → M World (ℤ × NwMode)
    unfolding with_mutex
    rf_get_nwmode mnf mode = with_mutex (nwmode_request mnf mode)

    abbrev pub creg_request : Manufacturer → ℤ → M World (ℤ × ℤ)
    creg_request rf_lynq creg = get_creg_lynq p rfdev
    creg_request rf_quectel creg = get_creg_quectel p rfdev
    creg_request rf_none creg = pure (minus_one, creg)

    unfoldable pub rf_get_creg : Manufacturer → ℤ → M World (ℤ × ℤ)
    unfolding with_mutex
    rf_get_creg mnf creg = with_mutex (creg_request mnf creg)

    abbrev pub soft_reset_request : Manufacturer → M World ℤ
    soft_reset_request rf_lynq = soft_reset_lynq p rfdev
    soft_reset_request rf_quectel = soft_reset_quectel p rfdev
    soft_reset_request rf_none = pure minus_one

    unfoldable pub rf_soft_reset : Manufacturer → M World ℤ
    unfolding with_mutex
    rf_soft_reset mnf =
        with_mutex (soft_reset_request mnf) >>= λ ret. pure (if is_zero ret then ret else minus_one)

    abbrev pub cfun_reset_request : Manufacturer → M World ℤ
    cfun_reset_request rf_lynq = reset_cfun_lynq p rfdev
    cfun_reset_request rf_quectel = reset_cfun_quectel p rfdev
    cfun_reset_request rf_none = pure minus_one

    unfoldable pub rf_cfun_reset : Manufacturer → M World ℤ
    unfolding with_mutex
    rf_cfun_reset mnf =
        with_mutex (cfun_reset_request mnf) >>= λ ret. pure (if is_zero ret then ret else minus_one)

    abbrev pub test_result : Option (List ℕ) → ℤ
    test_result none = minus_one
    test_result (some s) = if has s (codes "OK") then pos 0 else minus_one

    unfoldable pub rf_at_test : M World ℤ
    unfolding with_mutex
    rf_at_test = with_mutex (ask p rfdev (codes "AT+GMI=?\r\n") >>= λ r. pure (test_result r))

    -- `sprintf` into `char at_cmd[70]`: none where it leaves the array.
    abbrev pub at_cmd_array : List ℕ → Option (List ℕ)
    at_cmd_array cmd = store_string (cmd ++ codes "\r\n") (replicate 70 0)

    -- This request leaves the last byte of its response alone.
    unfoldable pub rf_at_cmd : List ℕ → M World ℤ
    unfolding with_mutex
    rf_at_cmd cmd =
        if ltb 64 (length cmd)
        then pure minus_one
        else checked (at_cmd_array cmd) >>= λ at_cmd. with_mutex (
            parse_rfinfo_request p rfdev (cmd ++ codes "\r\n") (replicate 256 0) 255 >>= λ r.
            if is_zero (r.0)
            then (checked (c_string (r.1)) >>= λ s. pure (pos 0))
            else pure minus_one)

  abbrev pub manufacturer_in : Option (List ℕ) → Manufacturer
  manufacturer_in none = rf_none
  manufacturer_in (some s) =
      if has s (codes "Lynq")
      then rf_lynq
      else if has s (codes "Quectel")
      then rf_quectel
      else rf_none

  unfoldable pub find_rf_manufacture : Option (List ℕ) → M World Manufacturer
  unfolding with_mutex
  find_rf_manufacture none = pure rf_none
  find_rf_manufacture (some []) = pure rf_none
  find_rf_manufacture (some (c ∷ cs)) =
      with_mutex (ask p (some (c ∷ cs)) (codes "ATI\r\n") >>= λ r. pure (manufacturer_in r))

  -- The number behind "ttyUSB", if it is larger than the largest one so far.
  abbrev pub larger_number : List ℕ → ℕ → ℕ
  larger_number name maxnum =
      if starts_with (codes "ttyUSB") name
      then (elim (scan_int (drop 6 name)) as (λ _. ℕ) [
        | some (pos n, _) ↦ if ltb maxnum n then n else maxnum
        | _ ↦ maxnum
      ])
      else maxnum

  abbrev pub max_number : List (List ℕ) → ℕ → ℕ
  max_number [] maxnum = maxnum
  max_number (name ∷ names) maxnum = max_number names (larger_number name maxnum)

  unfoldable pub get_dev_maxnum : M World ℕ
  get_dev_maxnum = call p.read_dir >>= λ r. on_option r (pure 0) λ names. pure (max_number names 0)

  unfoldable pub access_dev_netpath : ℕ → M World ℤ
  access_dev_netpath zero = pure minus_one
  access_dev_netpath (suc n) =
      call (p.access_tty (suc n)) >>= λ r. pure (if is_zero r then pos 0 else minus_one)

  abbrev pub tty_path : ℕ → List ℕ
  tty_path n = codes "/dev/ttyUSB" ++ decimal 10 n

  -- `dev` is the array of the caller, of `size_` bytes.
  unfoldable pub detect_request : List ℕ → M World (ℤ × List ℕ)
  detect_request dev = get_dev_maxnum >>= λ maxnum.
      if ltb 0 maxnum
      then (access_dev_netpath maxnum >>= λ a.
          if is_zero a
          then pure (pos 0, snprintf dev (tty_path maxnum))
          else (access_dev_netpath (maxnum - 1) >>= λ b.
              if is_zero b
              then pure (pos 0, snprintf dev (tty_path (maxnum - 1)))
              else pure (minus_one, dev)))
      else pure (minus_one, dev)

  unfoldable pub rf_device_detect : List ℕ → M World (ℤ × List ℕ)
  unfolding with_mutex detect_request
  rf_device_detect dev = with_mutex (detect_request dev)
