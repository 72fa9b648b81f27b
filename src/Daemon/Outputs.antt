-- ===== src/Daemon/Outputs.antt =====
-- Commands of project/iot-gw/app/iot_daemon.c down to the pins of the board.
use linux_comon.Prelude.{ℕ, ◌<◌, ◌≢◌, ◌≡◌}
use linux_comon.Gpio.Sysfs.{Sysfs}
use linux_comon.Daemon.Package.{Board}
use linux_comon.Daemon.Handlers.{has_bit}

module _ {World : Type 0} (b : Board World) (fs : Sysfs b.files) where
  -- The bit of channel `c` is set and no other one.
  pub record Only (mask c : ℕ) : Type 0 where
    pub set : has_bit mask c ≡ 1
    pub clear : (j : ℕ) → j < 16 → j ≢ c → has_bit mask j ≡ 0
