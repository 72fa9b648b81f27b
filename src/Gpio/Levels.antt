-- ===== src/Gpio/Levels.antt =====
-- Levels written to and read from the pins by common/utils/gpio/gpio.c, and through the channels
-- of project/iot-gw/module/src/do.c and project/iot-gw/module/src/di.c.
use linux_comon.Prelude.{
  ℕ, suc, ◌+◌, ◌<◌, ◌≤◌, ◌≡◌, refl, ap, ◌∙◌, zero, Bool, true, false, some, ◌==◌, if◌then◌else◌,
  arith,
}
use linux_comon.Prelude.Int.{pos}
use linux_comon.Gpio.Files.{Files}
use linux_comon.Gpio.Pin.{gpio_set_level, gpio_get_level, with_low_byte}
use linux_comon.Gpio.Channel.{Channel, do_get_chn, di_get_chn, do_out, di_read}
use linux_comon.Gpio.Sysfs.{
  Sysfs, level_of, bit, At, Gives, Gives-pure, Gives-bind, Gives-get_level, Gives-set_level,
}

module _ {World : Type 0} {s : Files World} (fs : Sysfs s) where
  low_byte_zero : (old byte : ℕ) → old < 256 → with_low_byte old byte ≡ byte
  low_byte_zero old byte h = omega arith

  pub read_value_of :
      (old : ℕ) (up : Bool)
      → old < 256
      → (if with_low_byte old (if up then 49 else 48) == 48 then 0 else 1) ≡ bit up
  read_value_of old true h = ground (arith, low_byte_zero old 49 h)
  read_value_of old false h = ground (arith, low_byte_zero old 48 h)

  -- On a pin that works, `gpio_set_level` with level 0 or 1 returns 0, and `gpio_get_level` then
  -- returns 0 with that level, if the integer that it is given for the result is below 256.
  pub get-set_level :
      (n old : ℕ) (up before : Bool) (w : World)
      → old < 256
      → At fs n before w
      → let r = gpio_set_level s n (level_of up) w in
        (r.0 ≡ pos 0) × ((gpio_get_level s n old (r.1)).0 ≡ (pos 0, bit up))
  get-set_level n old up before w small h =
      let (set, there) = (Gives-set_level fs n up before).runs w h in
      let (got, still) = (Gives-get_level fs n old up).runs _ there in
      (set, got ∙ ap (λ v. (pos 0, v)) (read_value_of old up small))

  -- On a pin that works and is low, `gpio_get_level` reports 1 if the integer that it is given for
  -- the result holds 256 or more: it replaces the lowest byte only and compares the whole.
  gpio_get_level_stale :
      (n old : ℕ) (w : World)
      → 256 ≤ old
      → At fs n false w
      → (gpio_get_level s n old w).0 ≡ (pos 0, 1)
  gpio_get_level_stale n old w big h =
      let (got, still) = (Gives-get_level fs n old false).runs w h in got ∙ ground arith

  do_chn_port :
      (c : ℕ) → c < 4 → (ch : Channel) × (do_get_chn (pos c) ≡ some ch) × (ch.port ≡ 100 + c)
  unfolding do_get_chn
  do_chn_port zero h = (_, refl, refl)
  do_chn_port (suc zero) h = (_, refl, refl)
  do_chn_port (suc (suc zero)) h = (_, refl, refl)
  do_chn_port (suc (suc (suc zero))) h = (_, refl, refl)
  do_chn_port (suc (suc (suc (suc c)))) h = absurd (omega arith)

  di_chn_port :
      (c : ℕ) → c < 4 → (ch : Channel) × (di_get_chn (pos c) ≡ some ch) × (ch.port ≡ 104 + c)
  unfolding di_get_chn
  di_chn_port zero h = (_, refl, refl)
  di_chn_port (suc zero) h = (_, refl, refl)
  di_chn_port (suc (suc zero)) h = (_, refl, refl)
  di_chn_port (suc (suc (suc zero))) h = (_, refl, refl)
  di_chn_port (suc (suc (suc (suc c)))) h = absurd (omega arith)

  pub Gives-do_out :
      (c : ℕ) (up before : Bool)
      → c < 4
      → Gives fs
          (At fs (100 + c) before)
          (do_out s (pos c) (level_of up))
          (pos 0)
          (At fs (100 + c) up)
  unfolding do_out
  Gives-do_out c up before h =
      let (ch, found, port) = do_chn_port c h in
      rw (found, do_out)
        (rw port (Gives-bind fs _ _ (Gives-set_level fs (100 + c) up before) (Gives-pure fs _ _)))

  pub Gives-di_read :
      (c old : ℕ) (up : Bool)
      → c < 4
      → Gives fs
          (At fs (104 + c) up)
          (di_read s (pos c) old)
          (pos 0, if with_low_byte old (if up then 49 else 48) == 48 then 0 else 1)
          (At fs (104 + c) up)
  unfolding di_read
  Gives-di_read c old up h =
      let (ch, found, port) = di_chn_port c h in
      rw (found, di_read)
        (rw port (Gives-bind fs _ _ (Gives-get_level fs (104 + c) old up) (Gives-pure fs _ _)))

  -- Channel c of the four outputs drives pin 100 + c, and channel c of the four inputs reads pin
  -- 104 + c: on pins that work, `do_out` returns 0 and leaves its pin at the level asked for, and
  -- `di_read` returns 0 with the level of its pin, for a result integer below 256.
  pub channels_pins :
      (c old : ℕ) (up before input : Bool) (w : World)
      → c < 4
      → old < 256
      → At fs (100 + c) before w
      → At fs (104 + c) input w
      → ((do_out s (pos c) (level_of up) w).0 ≡ pos 0)
        × At fs (100 + c) up ((do_out s (pos c) (level_of up) w).1)
        × ((di_read s (pos c) old w).0 ≡ (pos 0, bit input))
  channels_pins c old up before input w h small out inp =
      let (set, there) = (Gives-do_out c up before h).runs w out in
      let (got, still) = (Gives-di_read c old input h).runs w inp in
      (set, there, got ∙ ap (λ v. (pos 0, v)) (read_value_of old input small))
