-- ===== src/Meter/Tests.antt =====
-- The driver of project/elec/module/src/im3332.c run on a meter that is a function from register
-- numbers to values.
use linux_comon.Prelude.{ℕ, suc, ◌≡◌, refl, true, false, none, some, List, [], ◌∷◌, arith}
use linux_comon.Prelude.Int.{pos, minus_one}
use linux_comon.Meter.Modbus.{Modbus, Driver, done, blocked}
use linux_comon.Meter.Driver.{
  threephase_fourwire, threephase_threewire, im3332_write_regs, im3331_set_mode, im3331_get_mode,
  reg_factory, reg_wiring, mode_cmd,
}
use linux_comon.Meter.Alarm.{
  SigalPhaseAlarm, ConPhaseAlarm, im3332_get_sigalphase_alarmevent, im3332_get_conphase_alarmevent,
  im3332_set_sigalphase_alarmevent, im3332_set_conphase_alarmevent,
}
use linux_comon.Meter.Sample.{
  im3332_init, im3332_sample_init, im3332_sample_deinit, im3332_sample_read,
}
use linux_comon.Meter.Mutex.{Returned}
use linux_comon.Meter.Mutex.Calls.{calls_release, im3332_write_regs-blocked}
use linux_comon.Meter.RegisterFile.{put, RegisterFile, Holds}
use linux_comon.Meter.Dangling.{im3332_init-freed}
use linux_comon.Meter.RoundTrip.{get-set_sigalphase, get-set_mode}

-- The registers `reg`, `reg + 1`, … take the values.
abbrev pub put_all : ℕ → List ℕ → (ℕ → ℕ) → ℕ → ℕ
put_all reg [] f = f
put_all reg (v ∷ vs) f = put reg v (put_all (suc reg) vs f)

abbrev pub read_all : ℕ → List ℕ → (ℕ → ℕ) → List ℕ
read_all reg [] f = []
read_all reg (v ∷ vs) f = f reg ∷ read_all (suc reg) vs f

abbrev pub bench : Modbus ℕ (ℕ → ℕ)
bench = record {
  new_rtu = λ w. (some 7, w);
  set_debug = λ c on w. w;
  set_error_recovery = λ c w. w;
  set_slave = λ c id w. w;
  connect = λ c w. (pos 0, w);
  free = λ c w. w;
  write_register = λ h reg v w. (pos 1, put reg v w);
  write_registers = λ h reg vs w. (pos 2, put_all reg vs w);
  read_registers = λ h reg n old w. (pos n, read_all reg old w, w);
  open_dev = λ w. (pos 3, w);
  ioctl_dev = λ fd cmd w. (pos 0, w);
  close_dev = λ fd w. w;
  read_dev = λ fd n old w. (pos n, old, w);
}

abbrev pub bench_file : RegisterFile bench
bench_file = record {
  regs = λ w. w;
  up = λ w. true;
  write_one = λ c reg v w h. (refl, refl, λ k. refl);
  write_two = λ c reg a b w h. (refl, refl, λ k. refl);
  read_one = λ c reg old w h. (refl, refl, refl, λ k. refl);
  read_two = λ c reg a b w h. (refl, refl, refl, λ k. refl);
}

abbrev pub zeros : ℕ → ℕ
zeros k = 0

abbrev pub connected : Driver ℕ (ℕ → ℕ)
connected = record { ctx = some 7; locked = false; im3332_fd = minus_one; world = zeros }

pub Holds-connected : Holds bench_file 7 zeros connected
Holds-connected = record { connected = refl; free = refl; works = refl; values = λ k. refl }

abbrev sigalphase : SigalPhaseAlarm
sigalphase = record {
  vol_loss_vol_trigger_up_limit = 7000;
  vol_loss_vol_recover_down_limit = 1;
  vol_loss_cur_trigger_downimit = 70000;
  vol_under_vol_trigger_up_limit = 9000;
  vol_over_vol_trigger_down_limit = 11000;
  cur_loss_vol_trigger_down_limit = 7001;
  cur_loss_cur_trigger_up_limit = 70001;
  cur_loss_cur_trigger_down_limit = 2;
  cur_over_cur_trigger_down_limit = 12000;
}

abbrev pub conphase : ConPhaseAlarm
conphase = record {
  total_power_factor_downimit = 500;
  current_unbalance_limit = 300;
  voltage_unbalance_limit = 200;
}

abbrev pub no_limits : ConPhaseAlarm
no_limits = record {
  total_power_factor_downimit = 0;
  current_unbalance_limit = 0;
  voltage_unbalance_limit = 0;
}

get-set_sigalphase_example :
    (d1 d2 : Driver ℕ (ℕ → ℕ)) × (im3332_set_sigalphase_alarmevent bench sigalphase connected
      ≡ done (pos 0) d1)
    × (im3332_get_sigalphase_alarmevent bench sigalphase d1 ≡ done (pos 0, sigalphase) d2)
get-set_sigalphase_example =
    get-set_sigalphase bench_file 7 sigalphase sigalphase zeros connected (omega arith)
      (omega arith) Holds-connected

get-set_mode_example :
    (d1 d2 : Driver ℕ (ℕ → ℕ)) × (im3331_set_mode bench (some 7) threephase_threewire connected
      ≡ done (pos 0) d1)
    × (im3331_get_mode bench (some 7) threephase_fourwire d1
        ≡ done (pos 0, threephase_threewire) d2)
    × ((k : ℕ)
        → d2.world k ≡ put reg_factory 0 (put reg_wiring (mode_cmd threephase_threewire) zeros) k)
get-set_mode_example =
    get-set_mode bench_file 7 threephase_threewire threephase_fourwire zeros connected
      Holds-connected

calls_release_example :
    Returned (im3331_set_mode bench (some 7) threephase_threewire connected)
    × Returned (im3332_get_sigalphase_alarmevent bench sigalphase connected)
    × Returned (im3332_set_sigalphase_alarmevent bench sigalphase connected)
    × Returned (im3332_get_conphase_alarmevent bench conphase connected)
    × Returned (im3332_set_conphase_alarmevent bench conphase connected)
    × Returned (im3332_sample_init bench (some 7) connected)
    × Returned (im3332_sample_deinit bench (some 7) connected)
    × Returned (im3332_sample_read bench (0 ∷ 0 ∷ []) 2 connected)
    × Returned (im3332_init bench connected)
calls_release_example =
    calls_release bench (some 7) threephase_threewire sigalphase conphase (0 ∷ 0 ∷ []) 2 connected
      refl

im3332_write_regs-blocked_example : im3332_write_regs bench 0 (1 ∷ 2 ∷ []) connected ≡ blocked
im3332_write_regs-blocked_example = im3332_write_regs-blocked bench 0 (1 ∷ 2 ∷ []) 7 connected refl

-- No meter answers.
abbrev dead_bench : Modbus ℕ (ℕ → ℕ)
dead_bench = record bench { connect = λ c w. (minus_one, w) }

abbrev freed : Driver ℕ (ℕ → ℕ)
freed = record { ctx = some 7; locked = false; im3332_fd = minus_one; world = zeros }

im3332_init-freed_example :
    (im3332_init dead_bench
        (record { ctx = none; locked = false; im3332_fd = minus_one; world = zeros })
      ≡ done none freed)
    × (im3332_init dead_bench freed ≡ done (some 7) freed)
im3332_init-freed_example =
    im3332_init-freed dead_bench 7 false minus_one zeros zeros refl (λ v. refl)
