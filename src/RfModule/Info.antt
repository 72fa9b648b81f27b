-- ===== src/RfModule/Info.antt =====
-- The requests of project/iot-gw/module/src/rf.c to the radio module. The struct is the caller's: its
-- arrays hold anything.
use linux_comon.Prelude.{Bool, some, List, ℕ, ◌&&◌, same_bytes, if◌then◌else◌}
use linux_comon.Prelude.Int.{ℤ, pos, minus_one, is_zero}
use linux_comon.Params.Strings.{c_string}
use linux_comon.Radio.Modem.{Port, M, ◌>>=◌, pure, checked}
use linux_comon.Radio.Text.{codes}
use linux_comon.Radio.Info.{RfInfo, Manufacturer, rf_none, rf_quectel, rf_lynq, init_rf_info}
use linux_comon.Radio.Common.Status.{get_rf_module_info}
use linux_comon.Radio.Common.Requests.{find_rf_manufacture, rf_sim_detect}

-- RF_DEV_PATH
abbrev pub rf_dev_path : List ℕ
rf_dev_path = codes "/dev/ttyUSB1"

abbrev pub zero_or_failed : ℤ → ℤ
zero_or_failed ret = if is_zero ret then pos 0 else minus_one

module _ {World : Type 0} (p : Port World) where
  -- Behind `find_RF_manufacture`.
  unfoldable pub info_of : Manufacturer → RfInfo → M World (ℤ × RfInfo)
  info_of rf_none i = pure (minus_one, i)
  info_of rf_quectel i = checked (init_rf_info i) >>= λ i'.
      get_rf_module_info p (some rf_dev_path) i' rf_quectel >>= λ r.
      pure (zero_or_failed (r.0), r.1)
  info_of rf_lynq i = checked (init_rf_info i) >>= λ i'.
      get_rf_module_info p (some rf_dev_path) i' rf_lynq >>= λ r. pure (zero_or_failed (r.0), r.1)

  unfoldable pub rf_module_info : RfInfo → M World (ℤ × RfInfo)
  unfolding info_of
  rf_module_info i = find_rf_manufacture p (some rf_dev_path) >>= λ mnf. info_of mnf i

  unfoldable pub sim_detect_of : Manufacturer → Bool → M World ℤ
  sim_detect_of rf_none enable = pure minus_one
  sim_detect_of rf_quectel enable =
      rf_sim_detect p (some rf_dev_path) rf_quectel enable (pos 1) >>= λ ret.
      pure (zero_or_failed ret)
  sim_detect_of rf_lynq enable =
      rf_sim_detect p (some rf_dev_path) rf_lynq enable (pos 1) >>= λ ret. pure (zero_or_failed ret)

  unfoldable pub rf_module_sim_detect_enable : Bool → M World ℤ
  unfolding sim_detect_of
  rf_module_sim_detect_enable enable =
      find_rf_manufacture p (some rf_dev_path) >>= λ mnf. sim_detect_of mnf enable

  -- RF_MANUFACTURE and RF_MODLE
  unfoldable pub rf_module_test : RfInfo → M World ℤ
  unfolding rf_module_info
  rf_module_test i = rf_module_info i >>= λ r.
      if is_zero (r.0)
      then (checked (c_string r.1.manufacture) >>= λ manufacture.
          checked (c_string r.1.model) >>= λ model. pure (
            if same_bytes manufacture (codes "Quectel") && same_bytes model (codes "EC200M")
            then pos 0
            else minus_one))
      else pure minus_one
