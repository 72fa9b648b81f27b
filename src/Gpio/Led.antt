-- ===== src/Gpio/Led.antt =====
-- The leds of the gateway: project/iot-gw/module/src/led.c.
use linux_comon.Prelude.{ℕ, ◌+◌, Bool, [], ◌∷◌, ltb, if◌then◌else◌}
use linux_comon.Prelude.Int.{ℤ, pos, minus_one, negative, positive, is_zero}
use linux_comon.Gpio.Files.{
  FilePath, led_brightness, empty_path, heartbeat, rdwr, Files, M, ◌>>=◌, ◌>>◌, pure, open_file,
  write, close, system,
}

-- The `leds` table has the five leds of the enumeration, LED_USER0 to LED_USER4, in order.
abbrev pub has_led : ℕ → Bool
has_led led = ltb led 5

-- `led_brightness_path`: for a led that is not in the table the buffer stays empty, and the function
-- returns it all the same.
abbrev pub led_brightness_path : ℕ → FilePath
led_brightness_path led = if has_led led then led_brightness led else empty_path

module _ {World : Type 0} (s : Files World) where
  -- The value is 0 or 1: "%d" makes one digit of it.
  unfoldable pub led_write : FilePath → ℕ → M World ℤ
  led_write path i = do
    fd ← open_file s path rdwr
    if negative fd then pure minus_one else do
      written ← write s fd ((48 + i) ∷ [])
      if positive written then (do close s fd; pure (pos 0)) else (do close s fd; pure minus_one)

  unfoldable pub led_on : ℕ → M World ℤ
  led_on led = led_write (led_brightness_path led) 1

  unfoldable pub led_off : ℕ → M World ℤ
  led_off led = led_write (led_brightness_path led) 0

  -- The result of `system` is not looked at.
  unfoldable pub led_blink : ℕ → M World ℤ
  led_blink led =
      if has_led led then (do system s (heartbeat led); pure (pos 0)) else pure minus_one

  -- ret |= b, for results that are 0 or -1
  abbrev pub or_result : ℤ → ℤ → ℤ
  or_result a b = if is_zero b then a else minus_one

  unfoldable pub led_blink_test : M World ℤ
  unfolding led_blink
  led_blink_test = do
    r0 ← led_blink 0
    r1 ← led_blink 1
    r2 ← led_blink 2
    r3 ← led_blink 3
    r4 ← led_blink 4
    pure (or_result (or_result (or_result (or_result r0 r1) r2) r3) r4)
