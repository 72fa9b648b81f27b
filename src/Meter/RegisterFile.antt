-- ===== src/Meter/RegisterFile.antt =====
-- The meter behind libmodbus as a file of 16-bit registers, and what the driver of
-- project/elec/module/src/im3332.c does to it over a line that works.
use linux_comon.Prelude.{
  ℕ, suc, ◌+◌, ◌*◌, ◌/◌, ◌%◌, ◌^◌, ◌∙◌, ap, get_or, ◌≡◌, refl, Bool, true, false, some, List, [],
  ◌∷◌, ◌==◌, if◌then◌else◌, arith,
}
use linux_comon.Prelude.Int.{ℤ, pos}
use linux_comon.Meter.Modbus.{Modbus, Driver, done, M, ◌>>=◌, pure, call, get_ctx, unless_null}
use linux_comon.Meter.Driver.{
  locked_call, locked_read, words, of_words, im3332_read_reg, im3332_read_reg32, im3332_write_reg,
  im3332_write_reg32,
}
use linux_comon.Meter.Mutex.{locked_call-free, locked_read-free, unless_null-some}
use linux_comon.Meter.Alarm.{reading, writing}

-- The registers after a write of `v` to `reg`.
abbrev pub put : ℕ → ℕ → (ℕ → ℕ) → ℕ → ℕ
put reg v f k = if k == reg then v else f k

-- What libmodbus documents of a connection to a device that answers: a write stores the values
-- and returns their number, a read hands over the registers and returns their number.
pub record RegisterFile {Ctx World : Type 0} (m : Modbus Ctx World) : Type 0 where
  pub regs : World → ℕ → ℕ
  pub up : World → Bool
  pub write_one :
      (c : Ctx) (reg v : ℕ) (w : World)
      → up w ≡ true
      → let r = m.write_register (some c) reg v w in
        (r.0 ≡ pos 1) × (up r.1 ≡ true) × ((k : ℕ) → regs r.1 k ≡ put reg v (regs w) k)
  pub write_two :
      (c : Ctx) (reg a b : ℕ) (w : World)
      → up w ≡ true
      → let r = m.write_registers (some c) reg (a ∷ b ∷ []) w in
        (r.0 ≡ pos 2)
        × (up r.1 ≡ true)
        × ((k : ℕ) → regs r.1 k ≡ put reg a (put (suc reg) b (regs w)) k)
  pub read_one :
      (c : Ctx) (reg old : ℕ) (w : World)
      → up w ≡ true
      → let r = m.read_registers (some c) reg 1 (old ∷ []) w in
        (r.0 ≡ pos 1)
        × (r.1 ≡ regs w reg ∷ [])
        × (up r.2 ≡ true)
        × ((k : ℕ) → regs r.2 k ≡ regs w k)
  pub read_two :
      (c : Ctx) (reg a b : ℕ) (w : World)
      → up w ≡ true
      → let r = m.read_registers (some c) reg 2 (a ∷ b ∷ []) w in
        (r.0 ≡ pos 2)
        × (r.1 ≡ regs w reg ∷ regs w (suc reg) ∷ [])
        × (up r.2 ≡ true)
        × ((k : ℕ) → regs r.2 k ≡ regs w k)

module _ {Ctx World : Type 0} {m : Modbus Ctx World} (file : RegisterFile m) where
  -- The driver is connected, its mutex is free, the line works, and the meter holds `f`.
  pub record Holds (c : Ctx) (f : ℕ → ℕ) (d : Driver Ctx World) : Type 0 where
    pub connected : d.ctx ≡ some c
    pub free : d.locked ≡ false
    pub works : file.up d.world ≡ true
    pub values : (k : ℕ) → file.regs d.world k ≡ f k

  -- From registers `f` the call `x` returns `a` and leaves registers `g`.
  pub record Computes {A : Type 0} (c : Ctx) (x : M Ctx World A) (f : ℕ → ℕ) (a : A) (g : ℕ → ℕ)
      : Type 0 where
    pub runs :
        (d : Driver Ctx World)
        → Holds c f d
        → (d' : Driver Ctx World) × (x d ≡ done a d') × Holds c g d'

  module _ {c : Ctx} where
    pub Computes-pure : {A : Type 0} (a : A) (f : ℕ → ℕ) → Computes c (pure a) f a f
    unfolding pure
    Computes-pure a f = record { runs = λ d h. (d, refl, h) }

    pub Computes-bind :
        {A B : Type 0} (x : M Ctx World A) (k : A → M Ctx World B) {f g h : ℕ → ℕ} {a : A} {b : B}
        → Computes c x f a g
        → Computes c (k a) g b h
        → Computes c (x >>= k) f b h
    unfolding ◌>>=◌
    Computes-bind x k one two = record {
      runs = λ d p.
          let (d', e, q) = one.runs d p in
          let (d'', e', r) = two.runs d' q in (d'', rw (e, ◌>>=◌) e', r);
    }

    pub Computes-get_ctx : (f : ℕ → ℕ) → Computes c get_ctx f (some c) f
    unfolding get_ctx
    Computes-get_ctx f = record { runs = λ d p. (d, rw p.connected, p) }

    -- One access under the mutex.
    locked_write :
        (access : World → ℤ × World) (n : ℤ) (f g : ℕ → ℕ)
        → ((w : World)
            → file.up w ≡ true
            → ((k : ℕ) → file.regs w k ≡ f k)
            → ((access w).0 ≡ n)
              × (file.up (access w).1 ≡ true)
              × ((k : ℕ) → file.regs (access w).1 k ≡ g k))
        → Computes c (unless_null (pos 0) (locked_call access)) f n g
    locked_write access n f g law = record {
      runs = λ d p.
          let said = law d.world p.works p.values in
          (
            record d { locked = false; world = (access d.world).1 },
            unless_null-some (pos 0) (locked_call access) d p.connected
                ∙ locked_call-free access d p.free
                ∙ ap (λ a. done a (record d { locked = false; world = (access d.world).1 })) said.0,
            record { connected = p.connected; free = refl; works = said.1; values = said.2 },
          );
    }

    locked_reading :
        {A : Type 0} (access : World → ℤ × List ℕ × World) (null : A) (n : ℤ) (ws : List ℕ)
        (k : ℤ × List ℕ → A) (f : ℕ → ℕ)
        → ((w : World)
            → file.up w ≡ true
            → ((j : ℕ) → file.regs w j ≡ f j)
            → ((access w).0 ≡ n)
              × ((access w).1 ≡ ws)
              × (file.up (access w).2 ≡ true)
              × ((j : ℕ) → file.regs (access w).2 j ≡ f j))
        → Computes c (unless_null null (locked_read access >>= λ r. pure (k r))) f (k (n, ws)) f
    unfolding pure ◌>>=◌
    locked_reading access null n ws k f law = record {
      runs = λ d p.
          let said = law d.world p.works p.values in
          let after = record d { locked = false; world = (access d.world).2 } in
          (
            after,
            unless_null-some null (locked_read access >>= λ r. pure (k r)) d p.connected
                ∙ rw (locked_read-free access d p.free, ◌>>=◌) (rw (said.0, said.1)),
            record { connected = p.connected; free = refl; works = said.2; values = said.3 },
          );
    }

    pub Computes-write_reg :
        (reg v : ℕ) (f : ℕ → ℕ)
        → Computes c (im3332_write_reg m (some c) reg v) f (pos 1) (put reg v f)
    unfolding im3332_write_reg
    Computes-write_reg reg v f =
        locked_write (m.write_register (some c) reg v) (pos 1) f (put reg v f) λ w up same.
          let said = file.write_one c reg v w up in
          (said.0, said.1, λ k. ground (arith, said.2 k, same k))

    pub Computes-write_reg32 :
        (reg v : ℕ) (f : ℕ → ℕ)
        → Computes c
            (im3332_write_reg32 m (some c) reg v)
            f
            (pos 2)
            (put reg (v % 2 ^ 16) (put (suc reg) ((v / 2 ^ 16) % 2 ^ 16) f))
    unfolding im3332_write_reg32
    Computes-write_reg32 reg v f =
        locked_write (m.write_registers (some c) reg (words v)) (pos 2) f
          (put reg (v % 2 ^ 16) (put (suc reg) ((v / 2 ^ 16) % 2 ^ 16) f))
          λ w up same.
            let said = file.write_two c reg (v % 2 ^ 16) ((v / 2 ^ 16) % 2 ^ 16) w up in
            (said.0, said.1, λ k. ground (arith, said.2 k, same k))

    pub Computes-read_reg :
        (reg old : ℕ) (f : ℕ → ℕ)
        → Computes c (im3332_read_reg m (some c) reg old) f (pos 1, f reg) f
    unfolding im3332_read_reg
    Computes-read_reg reg old f =
        locked_reading (m.read_registers (some c) reg 1 (old ∷ [])) (pos 0, old) (pos 1)
          (f reg ∷ []) (λ r. (r.0, get_or r.1 0 old)) f
          λ w up same.
            let said = file.read_one c reg old w up in
            (said.0, rw (← same reg) said.1, said.2, λ k. said.3 k ∙ same k)

    pub Computes-read_reg32 :
        (reg old : ℕ) (f : ℕ → ℕ)
        → Computes c
            (im3332_read_reg32 m (some c) reg old)
            f
            (pos 2, f reg + 2 ^ 16 * f (suc reg))
            f
    unfolding im3332_read_reg32
    Computes-read_reg32 reg old f =
        locked_reading (m.read_registers (some c) reg 2 (words old)) (pos 0, old) (pos 2)
          (f reg ∷ f (suc reg) ∷ []) (λ r. (r.0, of_words r.1)) f
          λ w up same.
            let said = file.read_two c reg (old % 2 ^ 16) ((old / 2 ^ 16) % 2 ^ 16) w up in
            (said.0, rw (← same reg, ← same (suc reg)) said.1, said.2, λ k. said.3 k ∙ same k)

    -- The unguarded write of the factory register.
    pub Computes-call_write :
        (reg v : ℕ) (f : ℕ → ℕ)
        → Computes c (call (m.write_register (some c) reg v)) f (pos 1) (put reg v f)
    unfolding call
    Computes-call_write reg v f = record {
      runs = λ d p.
          let said = file.write_one c reg v d.world p.works in
          let after = record d { world = (m.write_register (some c) reg v d.world).1 } in
          (
            after,
            ap (λ n. done n after) said.0,
            record {
              connected = p.connected;
              free = p.free;
              works = said.1;
              values = λ k. ground (arith, said.2 k, p.values k);
            },
          );
    }

    -- A checked access that succeeds, and what comes after it.
    pub Computes-reading :
        {S : Type 0} (read : M Ctx World (ℤ × ℕ)) (set : ℕ → S) (rest : S → M Ctx World (ℤ × S))
        {n : ℕ} {v : ℕ} {r : ℤ × S} {f g h : ℕ → ℕ}
        → Computes c read f (pos (suc n), v) g
        → Computes c (rest (set v)) g r h
        → Computes c (reading read set rest) f r h
    unfolding reading
    Computes-reading read set rest one two = Computes-bind read _ one two

    pub Computes-writing :
        (write rest : M Ctx World ℤ) {n : ℕ} {r : ℤ} {f g h : ℕ → ℕ}
        → Computes c write f (pos (suc n)) g
        → Computes c rest g r h
        → Computes c (writing write rest) f r h
    unfolding writing
    Computes-writing write rest one two = Computes-bind write _ one two

    pub Computes-unless_null :
        {A : Type 0} (a : A) {x : M Ctx World A} {b : A} {f g : ℕ → ℕ}
        → Computes c x f b g
        → Computes c (unless_null a x) f b g
    Computes-unless_null a {x} one = record {
      runs =
          λ d p. let (d', e, q) = one.runs d p in (d', unless_null-some a x d p.connected ∙ e, q);
    }
