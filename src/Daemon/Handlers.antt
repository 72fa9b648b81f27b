-- ===== src/Daemon/Handlers.antt =====
-- The handlers of project/iot-gw/app/iot_daemon.c, one to a command. A payload is a list of words.
use linux_comon.Prelude.{
  ℕ, zero, suc, ◌+◌, ◌-◌, ◌*◌, ◌/◌, ◌%◌, ◌^◌, bit_or, List, leb, ltb, ◌==◌, if◌then◌else◌, get_or,
  set,
}
use linux_comon.Prelude.Int.{ℤ, pos, negsuc, minus_one, is_zero}
use linux_comon.Gpio.Files.{M, ◌>>=◌, pure}
use linux_comon.Gpio.Channel.{do_out, di_read}
use linux_comon.Gpio.Led.{led_on, led_off, led_blink}
use linux_comon.Daemon.Package.{Board}

-- An `unsigned` as the `int` that a call takes.
abbrev pub as_int : ℕ → ℤ
as_int n = if ltb n (2 ^ 31) then pos n else negsuc (2 ^ 32 - 1 - n)

-- mask & (1 << i)
abbrev pub has_bit : ℕ → ℕ → ℕ
has_bit mask i = (mask / 2 ^ i) % 2

module _ {World : Type 0} (b : Board World) where
  unfoldable pub rtc_get_info : List ℕ → M World (ℤ × List ℕ)
  rtc_get_info info = do r ← b.read_rtc_time; pure (r.0, if is_zero (r.0) then r.1 else info)

  -- `ret_set_info`
  unfoldable pub rtc_set_info : List ℕ → M World ℤ
  rtc_set_info info = b.rtc_set info

  -- The words are `opt` and `led_num`: OPT_LED_ON is 0, OPT_LED_BLINK 1 and OPT_LED_OFF 2.
  unfoldable pub led_operation : List ℕ → M World ℤ
  led_operation info =
      let opt = get_or info 0 0 in
      let led = get_or info 1 0 in
      if opt == 0
      then led_on b.files led
      else if opt == 2
      then led_off b.files led
      else if opt == 1
      then led_blink b.files led
      else pure minus_one

  module _ (mask : ℕ) where
    -- The loop of `do_set_info` from `i` on, with what `ret` holds.
    unfoldable pub do_loop : ℤ → ℕ → ℕ → ℤ → M World ℤ
    do_loop level zero i ret = pure ret
    do_loop level (suc left) i ret =
        if has_bit mask i == 1
        then (do_out b.files (pos i) level >>= λ ret'. do_loop level left (i + 1) ret')
        else do_loop level left (i + 1) ret

    -- The loop of `di_get_info` from `i` on, with what `ret`, the four bytes at `level` and
    -- `info->level` hold.
    unfoldable pub di_loop : ℕ → ℕ → ℤ → ℕ → ℕ → M World (ℤ × ℕ)
    di_loop zero i ret level bits = pure (ret, bits)
    di_loop (suc left) i ret level bits =
        if has_bit mask i == 1
        then (di_read b.files (pos i) level >>= λ r.
            di_loop left (i + 1) r.0 r.1
              (if is_zero (r.0) then bit_or bits (r.1 % 256 * 2 ^ i) else bits))
        else di_loop left (i + 1) ret level bits

  -- The words are `do_mask` and `level`. `ret` is not initialised: it holds `junk`.
  unfoldable pub do_set_info : ℤ → List ℕ → M World ℤ
  do_set_info junk info = do_loop (get_or info 0 0) (as_int (get_or info 1 0)) 16 0 junk

  -- The words are `di_mask` and `level`. `ret` and `level` are not initialised; `level` is a `char`
  -- that `di_read` writes as an `int`, so that the four bytes at its address count: the three behind
  -- the `char`, which the code has no claim to, are taken to hold nothing else.
  unfoldable pub di_get_info : ℤ → ℕ → List ℕ → M World (ℤ × List ℕ)
  di_get_info junk level info =
      di_loop (get_or info 0 0) 16 0 junk level 0 >>= λ r. pure (r.0, set info 1 r.1)

  -- The words are `ai_num` and `data`.
  unfoldable pub ai_get_info : List ℕ → M World (ℤ × List ℕ)
  ai_get_info info = do
    r ← b.read_current (get_or info 0 0)
    pure (r.0, if is_zero (r.0) then set info 1 (r.1) else info)

  -- The end of a test, if its thread was started.
  unfoldable pub stop_thread : ℕ → M World (Unit {0})
  stop_thread thread w = (tt, if thread == 0 then w else b.pthread_stop thread w)

  -- The words are `instance` and `enable`; `threads` are the two handles, 0 for none. Each start
  -- goes to the first instance.
  unfoldable pub rs485_test : List ℕ → List ℕ → M World (ℤ × List ℕ)
  rs485_test threads info =
      let instance_num = get_or info 0 0 in
      if leb 2 instance_num
      then pure (minus_one, threads)
      else if get_or info 1 0 == 0
      then (stop_thread (get_or threads instance_num 0) >>= λ u. pure (pos 0, threads))
      else (b.pthread_create 0 >>= λ r. pure (r.0, set threads 0 r.1))
