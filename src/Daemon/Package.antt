-- ===== src/Daemon/Package.antt =====
-- The packages of project/iot-gw/app/iot_daemon.h, and the calls of the daemon that other modules of
-- the gateway answer.
use linux_comon.Prelude.{ℕ, List}
use linux_comon.Prelude.Int.{ℤ}
use linux_comon.Gpio.Files.{Files, M}

-- `test_package_t`; the payload is in words of 32 bits, as far as the buffer reaches.
pub record Package : Type 0 where
  pub cmd : ℕ
  pub state : ℕ
  pub payloadlen : ℕ
  pub payload : List ℕ

-- The commands.
abbrev pub cmd_rtc_init : ℕ
cmd_rtc_init = 0x2000

abbrev pub cmd_rtc_get : ℕ
cmd_rtc_get = 0x2001

abbrev pub cmd_rtc_set : ℕ
cmd_rtc_set = 0x2002

abbrev pub cmd_led_set : ℕ
cmd_led_set = 0x2003

abbrev pub cmd_do_set : ℕ
cmd_do_set = 0x2004

abbrev pub cmd_di_get : ℕ
cmd_di_get = 0x2005

abbrev pub cmd_ai_get : ℕ
cmd_ai_get = 0x2006

abbrev pub cmd_rs485_test : ℕ
cmd_rs485_test = 0x2007

abbrev pub cmd_rf_reset : ℕ
cmd_rf_reset = 0x2009

abbrev pub cmd_rf_mod_get : ℕ
cmd_rf_mod_get = 0x200a

abbrev pub cmd_rf_sim_detect_set : ℕ
cmd_rf_sim_detect_set = 0x200c

-- The clock, the analogue inputs, the radio module and the threads of the board. A call that fills
-- a buffer returns what it stores.
pub record Board (World : Type 0) : Type 0 where
  pub files : Files World
  pub rtc_init : M World ℤ
  pub read_rtc_time : M World (ℤ × List ℕ)
  pub rtc_set : List ℕ → M World ℤ
  -- `read_current`, with the current in hundredths.
  pub read_current : ℕ → M World (ℤ × ℕ)
  pub rf_reset : M World ℤ
  pub rf_module_info : M World (ℤ × List ℕ)
  pub rf_module_sim_detect_enable : ℕ → M World ℤ
  -- `pthread_create` with the index of the device path, and the thread that it stores.
  pub pthread_create : ℕ → M World (ℤ × ℕ)
  -- pthread_cancel and pthread_join
  pub pthread_stop : ℕ → World → World
