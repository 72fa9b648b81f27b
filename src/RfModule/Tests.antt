-- ===== src/RfModule/Tests.antt =====
-- A reset by project/iot-gw/module/src/rf.c on a module that is slow.
use linux_comon.Prelude.{ℕ, ◌+◌, ◌≡◌, refl, not, ◌&&◌, some, leb}
use linux_comon.Prelude.Int.{pos}
use linux_comon.Gpio.Files.{◌>>=◌, pure}
use linux_comon.RfModule.Device.{
  Board, rf_exist, chardev_exist, access_rw, stat_chr, rf_reset, rf_reset_test,
}
use linux_comon.RfModule.Reset.{at_once, later, Recovers, rf_reset-Recovers}

-- The world is a time: the module is gone at 2 and 3, and the power is switched at 0 and at 2.
abbrev slow : Board ℕ
slow = record {
  access_exists = λ w. (pos 0, w);
  access_rw = λ w. (pos 0, w);
  stat_chr = λ w. (some (not (leb 2 w && leb w 3)), w);
  unlink = λ w. (pos 0, w);
  system = λ command w. (pos 0, w + 1);
  sleep = λ seconds w. w + seconds;
}

slow-Recovers : Recovers slow 0 4
unfolding rf_exist chardev_exist access_rw stat_chr ◌>>=◌ pure
slow-Recovers = record {
  present = 0;
  dark = 1;
  gone = 2;
  powered = 3;
  starts = refl;
  switches_off = refl;
  goes = later refl (at_once refl);
  switches_on = refl;
  returns = later refl (at_once refl);
}

rf_reset-Recovers_example : (rf_reset slow 0 ≡ (pos 0, 4)) × (rf_reset_test slow 0 ≡ (pos 0, 4))
rf_reset-Recovers_example = rf_reset-Recovers slow slow-Recovers
