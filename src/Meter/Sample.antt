-- ===== src/Meter/Sample.antt =====
-- Start-up and the sampling unit of project/elec/module/src/im3332.c.
use linux_comon.Prelude.{ℕ, false, Option, none, some, List, if◌then◌else◌}
use linux_comon.Prelude.Int.{ℤ, pos, minus_one, positive, negative, is_zero, is_minus_one}
use linux_comon.Meter.Modbus.{Modbus, done, M, ◌>>=◌, ◌>>◌, pure, call, call_read, run}
use linux_comon.Meter.Driver.{im3332_read_reg, im3332_write_reg}

abbrev pub reg_sample_enable : ℕ
reg_sample_enable = 0x7000

abbrev pub reg_sample_points_num : ℕ
reg_sample_points_num = 0x7001

abbrev pub reg_sample_phase_type : ℕ
reg_sample_phase_type = 0x7002

abbrev pub reg_sample_adc_res : ℕ
reg_sample_adc_res = 0x7003

abbrev pub reg_sample_scale_ratio : ℕ
reg_sample_scale_ratio = 0x7004

-- IO_CTL_ENABLE
abbrev pub io_ctl_enable : ℕ
io_ctl_enable = 0x2020

-- SLAVE_ID
abbrev pub slave_id : ℕ
slave_id = 1

-- `(ret > 0) ? 0 : 1`
abbrev pub sample_status : ℤ → ℤ
sample_status rc = if positive rc then pos 0 else pos 1

module _ {Ctx World : Type 0} where
  unfoldable pub get_fd : M Ctx World ℤ
  get_fd d = done d.im3332_fd d

  unfoldable pub set_fd : ℤ → M Ctx World (Unit {0})
  set_fd fd d = done tt (record d { im3332_fd = fd })

module _ {Ctx World : Type 0} (m : Modbus Ctx World) where
  abbrev read_sample : ℕ → Option Ctx → ℕ → M Ctx World (ℤ × ℕ)
  read_sample reg handle value = do
    r ← im3332_read_reg m handle reg value
    pure (sample_status r.0, r.1)

  abbrev write_sample : ℕ → ℕ → Option Ctx → M Ctx World ℤ
  write_sample reg value handle = do
    rc ← im3332_write_reg m handle reg value
    pure (sample_status rc)

  -- The enums are handed over as `uint16_t *`, that is as their low halves.
  unfoldable pub im3332_sample_type_get : Option Ctx → ℕ → M Ctx World (ℤ × ℕ)
  im3332_sample_type_get = read_sample reg_sample_phase_type

  unfoldable pub im3332_sample_points_get : Option Ctx → ℕ → M Ctx World (ℤ × ℕ)
  im3332_sample_points_get = read_sample reg_sample_points_num

  unfoldable pub im3332_sample_points_conf : Option Ctx → ℕ → M Ctx World ℤ
  im3332_sample_points_conf handle num = write_sample reg_sample_points_num num handle

  unfoldable pub im3332_sample_adcres_get : Option Ctx → ℕ → M Ctx World (ℤ × ℕ)
  im3332_sample_adcres_get = read_sample reg_sample_adc_res

  unfoldable pub im3332_sample_scale_get : Option Ctx → ℕ → M Ctx World (ℤ × ℕ)
  im3332_sample_scale_get = read_sample reg_sample_scale_ratio

  unfoldable pub im3332_sample_state : Option Ctx → ℕ → M Ctx World (ℤ × ℕ)
  im3332_sample_state = read_sample reg_sample_enable

  unfoldable pub im3332_sample_enable : Option Ctx → M Ctx World ℤ
  im3332_sample_enable = write_sample reg_sample_enable 0xaa

  unfoldable pub im3332_sample_disable : Option Ctx → M Ctx World ℤ
  im3332_sample_disable = write_sample reg_sample_enable 0x55

  unfoldable pub im3332_sample_init : Option Ctx → M Ctx World ℤ
  im3332_sample_init handle = do
    im3332_sample_disable handle
    fd ← call m.open_dev
    set_fd fd
    let ready = do
      ret ← call (m.ioctl_dev fd io_ctl_enable)
      if is_zero ret then pure (pos 0) else do run (m.close_dev fd); pure minus_one
    if negative fd then pure minus_one else ready

  unfoldable pub im3332_sample_deinit : Option Ctx → M Ctx World (Unit {0})
  im3332_sample_deinit handle = do
    im3332_sample_disable handle
    fd ← get_fd
    let shut = do call (m.ioctl_dev fd io_ctl_enable); run (m.close_dev fd); set_fd (pos 0)
    if positive fd then shut else pure tt

  -- The bytes of `buf` before the call give those after it.
  unfoldable pub im3332_sample_read : List ℕ → ℕ → M Ctx World (ℤ × List ℕ)
  im3332_sample_read buf bufsize = do
    fd ← get_fd
    let reads = do
      r ← call_read (m.read_dev fd bufsize buf)
      if positive r.0 then pure r else pure (pos 0, r.1)
    if positive fd then reads else pure (pos 0, buf)

  -- `ctx` is set before the connection is tried, and stays set if that fails.
  unfoldable pub connect_to : Ctx → M Ctx World (Option Ctx)
  connect_to c = do
    run (m.set_debug c false)
    run (m.set_error_recovery c)
    run (m.set_slave c slave_id)
    rc ← call (m.connect c)
    let refused = do run (m.free c); pure none
    let connected = do im3332_sample_disable (some c); pure (some c)
    if is_minus_one rc then refused else connected

  -- `im3332_init` once `modbus_new_rtu` has returned `made`.
  unfoldable pub with_rtu : Option Ctx → M Ctx World (Option Ctx)
  with_rtu none d = done none d
  with_rtu (some c) d = connect_to c (record d { ctx = some c })

  unfoldable pub im3332_init : M Ctx World (Option Ctx)
  im3332_init d = elim d.ctx [
    | some c ↦ done (some c) d
    | none ↦ let (made, world) = m.new_rtu d.world in with_rtu made (record d { world = world })
  ]

  -- The body is a comment.
  unfoldable pub im3332_deinit : Option Ctx → M Ctx World (Unit {0})
  im3332_deinit handle = pure tt

  unfoldable pub im333x_get_error : M Ctx World ℤ
  im333x_get_error = pure (pos 0)
