-- ===== src/Meter/Dangling.antt =====
-- `im3332_init` of project/elec/module/src/im3332.c after a connection that was refused.
use linux_comon.Prelude.{◌≡◌, refl, Bool, false, none, some}
use linux_comon.Prelude.Int.{ℤ, minus_one}
use linux_comon.Meter.Modbus.{Modbus, Driver, done, steps}
use linux_comon.Meter.Sample.{connect_to, with_rtu, im3332_init, slave_id}

module _ {Ctx World : Type 0} (m : Modbus Ctx World) where
  -- The world once `im3332_init` has freed the context of a refused connection.
  abbrev pub refused_world : Ctx → World → World
  refused_world c w =
      m.free c
        (m.connect c (m.set_slave c slave_id (m.set_error_recovery c (m.set_debug c false w)))).1

  -- If libmodbus makes a context but the meter refuses the connection, `im3332_init` frees the
  -- context and returns NULL, and the next call of `im3332_init` returns the freed context.
  pub im3332_init-freed :
      (c : Ctx) (locked : Bool) (fd : ℤ) (w w1 : World)
      → m.new_rtu w ≡ (some c, w1)
      → ((v : World) → (m.connect c v).0 ≡ minus_one)
      → let after : Driver Ctx World = record {
        ctx = some c;
        locked = locked;
        im3332_fd = fd;
        world = refused_world c w1;
      } in
        (im3332_init m (record { ctx = none; locked = locked; im3332_fd = fd; world = w })
          ≡ done none after)
        × (im3332_init m after ≡ done (some c) after)
  unfolding im3332_init with_rtu connect_to steps
  im3332_init-freed c locked fd w w1 made refused = (
    rw made (
        rw (refused (m.set_slave c slave_id (m.set_error_recovery c (m.set_debug c false w1))))
          refl),
    refl,
  )
