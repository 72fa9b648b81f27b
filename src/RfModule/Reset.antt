-- ===== src/RfModule/Reset.antt =====
-- What `rf_reset` of project/iot-gw/module/src/rf.c waits for.
use linux_comon.Prelude.{ℕ, suc, ◌≡◌, refl, Bool, true, false, not}
use linux_comon.Prelude.Int.{pos}
use linux_comon.Gpio.Files.{◌>>=◌, pure}
use linux_comon.RfModule.Device.{
  Board, pg13_low, pg13_high, system, sleep, rf_exist, poweroff_rf, poweron_rf, wait_for,
  power_cycle, rf_reset, rf_reset_test,
}

-- One of the next looks at the device, a second apart, finds it there or gone as wanted; the world is
-- then the last one.
pub data Finds {World : Type 0} (b : Board World) (want : Bool) : ℕ → World → World → Type 0 where
  at_once : {left : ℕ} {v w : World} → rf_exist b v ≡ (want, w) → Finds b want (suc left) v w
  later :
      {left : ℕ} {u v w : World}
      → rf_exist b u ≡ (not want, v)
      → Finds b want left (b.sleep 1 v) w
      → Finds b want (suc left) u w

wait_for-Finds :
    {World : Type 0} (b : Board World) (want : Bool) {left : ℕ} {v w : World}
    → Finds b want left v w
    → wait_for b want left v ≡ (true, w)
unfolding wait_for ◌>>=◌ pure sleep
wait_for-Finds b true (at_once e) = rw e refl
wait_for-Finds b false (at_once e) = rw e refl
wait_for-Finds b true (later e more) = rw e (wait_for-Finds b true more)
wait_for-Finds b false (later e more) = rw e (wait_for-Finds b false more)

-- The way of a reset: the device is there, the power goes off, the device is gone at one of ten looks,
-- the power comes back, and the device is there at one of thirty looks.
pub record Recovers {World : Type 0} (b : Board World) (v w : World) : Type 0 where
  pub present : World
  pub dark : World
  pub gone : World
  pub powered : World
  pub starts : rf_exist b v ≡ (true, present)
  pub switches_off : b.system pg13_low present ≡ (pos 0, dark)
  pub goes : Finds b false 10 dark gone
  pub switches_on : b.system pg13_high gone ≡ (pos 0, powered)
  pub returns : Finds b true 30 powered w

power_cycle-Recovers :
    {World : Type 0} (b : Board World) {v w : World} (r : Recovers b v w)
    → power_cycle b r.dark ≡ (pos 0, w)
unfolding power_cycle poweron_rf system ◌>>=◌ pure
power_cycle-Recovers b r =
    rw (wait_for-Finds b false r.goes, r.switches_on, wait_for-Finds b true r.returns) refl

-- `rf_reset` and `rf_reset_test` return 0 for a module that is there, is gone at one of ten looks
-- behind the power is off, and is back at one of thirty looks behind the power is on.
pub rf_reset-Recovers :
    {World : Type 0} (b : Board World) {v w : World}
    → Recovers b v w
    → (rf_reset b v ≡ (pos 0, w)) × (rf_reset_test b v ≡ (pos 0, w))
unfolding rf_reset rf_reset_test poweroff_rf system ◌>>=◌ pure
rf_reset-Recovers b r = (
  rw (r.starts, r.switches_off, power_cycle-Recovers b r) refl,
  rw (r.starts, r.switches_off, power_cycle-Recovers b r) refl,
)
