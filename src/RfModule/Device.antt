-- ===== src/RfModule/Device.antt =====
-- The device of the radio module in project/iot-gw/module/src/rf.c, and its reset. `poweron_rf` and
-- `poweroff_rf` of common/utils/rf/rf_common.c are those of the gateway's build, which do not use
-- their arguments.
use linux_comon.Prelude.{ℕ, zero, suc, Bool, true, false, not, Option, none, some, if◌then◌else◌}
use linux_comon.Prelude.Int.{ℤ, pos, minus_one, is_zero}
use linux_comon.Gpio.Files.{M, ◌>>=◌, ◌>>◌, pure}

-- The command lines: PG13 low or high, the default route over usb0, and the script that dials.
pub data Command : Type 0 where
  pg13_low pg13_high route_add dial_4g : Command

-- The calls on /dev/ttyUSB1: `access` with F_OK and with R_OK|W_OK, `stat` (none for -1, and else
-- whether it is a character device) and `unlink`.
pub record Board (World : Type 0) : Type 0 where
  pub access_exists : World → ℤ × World
  pub access_rw : World → ℤ × World
  pub stat_chr : World → Option Bool × World
  pub unlink : World → ℤ × World
  pub system : Command → World → ℤ × World
  pub sleep : ℕ → World → World

module _ {World : Type 0} (b : Board World) where
  unfoldable pub access_exists : M World ℤ
  access_exists w = b.access_exists w

  unfoldable pub access_rw : M World ℤ
  access_rw w = b.access_rw w

  unfoldable pub stat_chr : M World (Option Bool)
  stat_chr w = b.stat_chr w

  unfoldable pub unlink : M World ℤ
  unlink w = b.unlink w

  unfoldable pub system : Command → M World ℤ
  system command w = b.system command w

  unfoldable pub sleep : ℕ → M World (Unit {0})
  sleep seconds w = (tt, b.sleep seconds w)

  unfoldable pub rf_file_exist : M World Bool
  unfolding access_exists
  rf_file_exist = access_exists >>= λ ret. pure (is_zero ret)

  abbrev pub is_chr : Option Bool → Bool
  is_chr none = false
  is_chr (some chr) = chr

  unfoldable pub chardev_exist : M World Bool
  unfolding access_rw stat_chr
  chardev_exist =
      access_rw >>= λ ret. if is_zero ret then (stat_chr >>= λ r. pure (is_chr r)) else pure false

  unfoldable pub rf_exist : M World Bool
  unfolding chardev_exist
  rf_exist = chardev_exist

  unfoldable pub rf_dev_clean : M World (Unit {0})
  unfolding chardev_exist rf_file_exist unlink
  rf_dev_clean = chardev_exist >>= λ chr.
      if chr
      then pure tt
      else (rf_file_exist >>= λ exists. if exists then (unlink >>= λ ret. pure tt) else pure tt)

  unfoldable pub poweroff_rf : M World ℤ
  unfolding system
  poweroff_rf = system pg13_low >>= λ ret. pure (if is_zero ret then pos 0 else minus_one)

  unfoldable pub poweron_rf : M World ℤ
  unfolding system
  poweron_rf = system pg13_high >>= λ ret. pure (if is_zero ret then pos 0 else minus_one)

  abbrev pub same : Bool → Bool → Bool
  same true x = x
  same false x = not x

  -- A loop that looks for the device, or for its absence, once a second, with `left` rounds to come:
  -- false where the rounds end.
  unfoldable pub wait_for : Bool → ℕ → M World Bool
  unfolding rf_exist sleep
  wait_for want zero = pure false
  wait_for want (suc left) =
      rf_exist >>= λ ret. if same want ret then pure true else (sleep 1 >> wait_for want left)

  -- Behind the power is off.
  unfoldable pub power_cycle : M World ℤ
  unfolding wait_for poweron_rf
  power_cycle = wait_for false 10 >>= λ gone.
      if gone
      then (poweron_rf >>= λ ret.
          if is_zero ret
          then (wait_for true 30 >>= λ back. pure (if back then pos 0 else minus_one))
          else pure minus_one)
      else pure minus_one

  unfoldable pub rf_reset : M World ℤ
  unfolding rf_exist poweroff_rf power_cycle
  rf_reset = rf_exist >>= λ exists. (if exists then poweroff_rf else pure (pos 0)) >>= λ ret.
      if is_zero ret then power_cycle else pure minus_one

  unfoldable pub rf_reset_test : M World ℤ
  unfolding rf_exist poweroff_rf power_cycle
  rf_reset_test = rf_exist >>= λ exists. (if exists then poweroff_rf else pure (pos 0)) >>= λ ret.
      if is_zero ret then power_cycle else pure ret
