-- ===== src/Radio/Tests.antt =====
-- The functions of common/utils/rf on a module that answers "OK" to everything.
use mathlib.Core.Option.{some-injective}
use linux_comon.Prelude.{
  ℕ, ◌≡◌, refl, ap, ◌⊎◌, true, false, some, List, [], ◌∷◌, arith, length, take, replicate,
  length-take,
}
use linux_comon.Prelude.Int.{pos, negsuc, minus_one}
use linux_comon.Radio.Modem.{Port, Modem}
use linux_comon.Radio.Text.{codes, minus, fifth}
use linux_comon.Radio.Info.{RfInfo, rf_quectel, nwmode_4g}
use linux_comon.Radio.Serial.{is_substring}
use linux_comon.Radio.Quectel.Signal.{qcsq_sysmodes, find_mode, mode_numbers}
use linux_comon.Radio.Common.Status.{zero_signal, update_rf_status}
use linux_comon.Radio.Common.Requests.{
  rf_get_cfun, rf_sim_detect, rf_get_cpin, rf_nw_scanmode, rf_get_nwmode, rf_get_creg,
  rf_soft_reset, rf_cfun_reset, rf_at_test, rf_at_cmd, find_rf_manufacture, rf_device_detect,
}
use linux_comon.Radio.Mutex.{Left}
use linux_comon.Radio.Mutex.Released.{requests_release}
use linux_comon.Radio.Bounds.{IsBounded, Returns}
use linux_comon.Radio.Bounds.Request.{rf_at_cmd-Returns}
use linux_comon.Radio.Substring.{Occurs, is_substring-Occurs}
use linux_comon.Radio.Numbers.{plus, IsFifth, lte_answer, mode_numbers-lte}

-- A line on which every read delivers the response that the world is.
abbrev line : Port (List ℕ)
line = record {
  open_dev = λ dev w. (pos 3, w);
  set_serial = λ fd w. w;
  flush_input = λ fd w. w;
  write = λ fd bytes w. (pos (length bytes), w);
  read = λ fd n w. (some (take n w), w);
  close = λ fd w. w;
  usleep = λ us w. w;
  read_dir = λ w. (some (codes "ttyUSB2" ∷ []), w);
  access_tty = λ n w. (pos 0, w);
}

line-IsBounded : IsBounded line
line-IsBounded fd n w bs e = omega (arith, length-take n w, ap length (some-injective _ _ e))

abbrev dev : List ℕ
dev = codes "/dev/ttyUSB2"

abbrev ok : Modem (List ℕ)
ok = record { locked = false; world = codes "\r\nOK\r\n" }

rf_at_cmd-Returns_example :
    Returns (λ r. (r ≡ pos 0) ⊎ (r ≡ minus_one)) false (rf_at_cmd line (some dev) (codes "AT") ok)
rf_at_cmd-Returns_example = rf_at_cmd-Returns line line-IsBounded (some dev) (codes "AT") ok refl

abbrev sentence : List ℕ
sentence = codes "\r\nOK\r\n"

is_substring-Occurs_example : Occurs (codes "OK") sentence
unfolding is_substring
is_substring-Occurs_example = is_substring-Occurs (codes "OK") sentence (omega arith) refl

abbrev blank : RfInfo
blank = record {
  manufacture = replicate 32 0;
  plmn = replicate 32 0;
  model = replicate 32 0;
  rev = replicate 32 0;
  sn = replicate 32 0;
  imei = replicate 32 0;
  ciccid = replicate 32 0;
  rf_signal = zero_signal;
  sim_status = replicate 32 0;
  rfnet_connect_utctime = 0;
}

mode_numbers-lte_example :
    (mode_numbers
        (find_mode qcsq_sysmodes (lte_answer (pos 54) (negsuc 93) (pos 157) (negsuc 9)))
        blank
      ≡ (
        pos 0,
        record blank {
          rf_signal = record blank.rf_signal {
            rsrp = negsuc 93;
            rsrq = negsuc 9;
            rssi = minus (pos 54) 120;
            sinr = minus (fifth (pos 157)) 20;
          };
        },
      ))
    × (plus (minus (pos 54) 120) 120 ≡ pos 54)
    × (plus (minus (fifth (pos 157)) 20) 20 ≡ fifth (pos 157))
    × IsFifth (pos 157) (fifth (pos 157))
mode_numbers-lte_example =
    mode_numbers-lte (pos 54) (negsuc 93) (pos 157) (negsuc 9) blank (omega arith) (omega arith)
      (omega arith) (omega arith) (omega arith)

requests_release_example :
    Left false (rf_get_cfun line (some dev) rf_quectel (pos 0) ok)
    × Left false (rf_sim_detect line (some dev) rf_quectel true (pos 0) ok)
    × Left false (rf_get_cpin line (some dev) rf_quectel (pos 0) ok)
    × Left false (rf_nw_scanmode line (some dev) rf_quectel ok)
    × Left false (rf_get_nwmode line (some dev) rf_quectel nwmode_4g ok)
    × Left false (rf_get_creg line (some dev) rf_quectel (pos 0) ok)
    × Left false (rf_soft_reset line (some dev) rf_quectel ok)
    × Left false (rf_cfun_reset line (some dev) rf_quectel ok)
    × Left false (rf_at_test line (some dev) ok)
    × Left false (rf_at_cmd line (some dev) (codes "AT") ok)
    × Left false (find_rf_manufacture line (some dev) ok)
    × Left false (rf_device_detect line (codes "AT") ok)
    × Left false (update_rf_status line (some dev) blank rf_quectel ok)
requests_release_example =
    requests_release line (some dev) rf_quectel ok (pos 0) true nwmode_4g (codes "AT") blank refl
