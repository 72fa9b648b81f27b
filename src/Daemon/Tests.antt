-- ===== src/Daemon/Tests.antt =====
-- The daemon of project/iot-gw/app/iot_daemon.c run on a board whose pins work.
use linux_comon.Prelude.{◌≡◌, ◌⊎◌, [], ◌∷◌}
use linux_comon.Prelude.Int.{pos, minus_one}
use linux_comon.Gpio.Tests.{Pins, board, idle}
use linux_comon.Daemon.Package.{Package, Board, cmd_di_get, cmd_ai_get}
use linux_comon.Daemon.Process.{Stack, test_process}
use linux_comon.Daemon.States.{test_process-answers}
use linux_comon.Daemon.Sent.{HeaderOnly, two_words, test_process-input_lost}

abbrev gateway : Board Pins
gateway = record {
  files = board;
  rtc_init = λ w. (minus_one, w);
  read_rtc_time = λ w. ((minus_one, []), w);
  rtc_set = λ t w. (minus_one, w);
  read_current = λ ch w. ((pos 0, 7), w);
  rf_reset = λ w. (pos 0, w);
  rf_module_info = λ w. ((pos 0, []), w);
  rf_module_sim_detect_enable = λ on w. (pos 0, w);
  pthread_create = λ path w. ((pos 0, 1), w);
  pthread_stop = λ thread w. w;
}

abbrev junk : Stack
junk = record { ret = minus_one; level = 0 }

-- An unknown command.
abbrev unknown : Package
unknown = record { cmd = 1; state = 0; payloadlen = 12; payload = [] }

test_process-answers_example :
    let reply = (test_process gateway junk (0 ∷ 0 ∷ []) unknown idle).0.0 in
    (reply.cmd ≡ 1) × ((reply.state ≡ 0) ⊎ ((reply.state ≡ 0) × (reply.payloadlen ≡ 0)))
test_process-answers_example = test_process-answers gateway junk (0 ∷ 0 ∷ []) unknown idle

test_process-input_lost_example :
    HeaderOnly cmd_di_get
      (test_process gateway junk (0 ∷ 0 ∷ []) (two_words cmd_di_get 5 (4 ∷ 9 ∷ [])) idle).0.0
    × HeaderOnly cmd_ai_get
        (test_process gateway junk (0 ∷ 0 ∷ []) (two_words cmd_ai_get 5 (4 ∷ 9 ∷ [])) idle).0.0
test_process-input_lost_example =
    test_process-input_lost gateway junk (0 ∷ 0 ∷ []) 5 (4 ∷ 9 ∷ []) idle
