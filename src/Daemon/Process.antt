-- ===== src/Daemon/Process.antt =====
-- `test_process` of project/iot-gw/app/iot_daemon.c: one package in, one package out.
use linux_comon.Prelude.{ℕ, ◌+◌, ◌%◌, ◌/◌, ◌^◌, List, ◌∷◌, take, ◌==◌, if◌then◌else◌, get_or}
use linux_comon.Prelude.Int.{ℤ, is_zero}
use linux_comon.Gpio.Files.{M, ◌>>=◌, pure}
use linux_comon.Daemon.Package.{
  Package, Board, cmd_rtc_init, cmd_rtc_get, cmd_rtc_set, cmd_led_set, cmd_do_set, cmd_di_get,
  cmd_ai_get, cmd_rs485_test, cmd_rf_reset, cmd_rf_mod_get, cmd_rf_sim_detect_set,
}
use linux_comon.Daemon.Handlers.{
  rtc_get_info, rtc_set_info, led_operation, do_set_info, di_get_info, ai_get_info, rs485_test,
}

-- The values of the locals that the handlers do not initialise.
pub record Stack : Type 0 where
  pub ret : ℤ
  pub level : ℕ

-- What a command does to the package and to the threads of the RS485 tests.
abbrev pub Reply : Type 0
Reply = Package × List ℕ

-- A handler returned `ret`: on 0 the state becomes 0 and the payload has the given length.
abbrev pub answer : Package → ℕ → ℤ → Package
answer pack len ret = if is_zero ret then record pack { state = 0; payloadlen = len } else pack

-- The same for a handler that also fills the payload.
abbrev pub answer_with : Package → ℕ → ℤ × List ℕ → Package
answer_with pack len r = answer (record pack { payload = r.1 }) len r.0

module _ {World : Type 0} (b : Board World) (stack : Stack) (threads : List ℕ) where
  abbrev pub plain : Package → ℕ → M World ℤ → M World Reply
  plain pack len handler = handler >>= λ ret. pure (answer pack len ret, threads)

  abbrev pub filling : Package → ℕ → M World (ℤ × List ℕ) → M World Reply
  filling pack len handler = handler >>= λ r. pure (answer_with pack len r, threads)

  -- `if (pack->payloadlen == len) { … }`
  abbrev pub sized : Package → ℕ → M World Reply → M World Reply
  sized pack len handler = if pack.payloadlen == len then handler else pure (pack, threads)

  -- The switch. The sizes are those of the structs: 24, 8 and 4 bytes, and 176 for
  -- `rf_mod_info_t`.
  unfoldable pub run_command : Package → M World Reply
  run_command pack =
      if pack.cmd == cmd_rtc_init
      then plain pack 0 b.rtc_init
      else if pack.cmd == cmd_rtc_get
      then filling pack 24 (rtc_get_info b pack.payload)
      else if pack.cmd == cmd_rtc_set
      then sized pack 24 (plain pack 0 (rtc_set_info b pack.payload))
      else if pack.cmd == cmd_led_set
      then sized pack 8 (plain pack 0 (led_operation b pack.payload))
      else if pack.cmd == cmd_do_set
      then sized pack 8 (plain pack 0 (do_set_info b stack.ret pack.payload))
      else if pack.cmd == cmd_di_get
      then sized pack 8 (filling pack 8 (di_get_info b stack.ret stack.level pack.payload))
      else if pack.cmd == cmd_ai_get
      then sized pack 8 (filling pack 8 (ai_get_info b pack.payload))
      else if pack.cmd == cmd_rs485_test
      then sized pack 8 (rs485_test b threads pack.payload >>= λ r. pure (answer pack 8 r.0, r.1))
      else if pack.cmd == cmd_rf_reset
      then plain pack 0 b.rf_reset
      else if pack.cmd == cmd_rf_mod_get
      then filling pack 176 b.rf_module_info
      else if pack.cmd == cmd_rf_sim_detect_set
      then sized pack 4
          (plain pack pack.payloadlen (b.rf_module_sim_detect_enable (get_or pack.payload 0 0)))
      else pure (pack, threads)

  -- The package that `send` gets, with the threads.
  unfoldable pub test_process : Package → M World Reply
  test_process pack = run_command pack >>= λ r.
      pure (if r.0.state == 0 then r.0 else record r.0 { payloadlen = 0 }, r.1)

-- send(socket_fd, pack, sizeof(pack) + pack->payloadlen, 0): what is sent of a package, in whole words.
-- The size is that of a pointer, 4 bytes on the 32-bit target.
unfoldable pub sent_words : Package → List ℕ
sent_words pack =
    take ((4 + pack.payloadlen) % 2 ^ 32 / 4)
      (pack.cmd ∷ pack.state ∷ pack.payloadlen ∷ pack.payload)
