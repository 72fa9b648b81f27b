-- ===== src/Meter/Mutex.antt =====
-- Who gives the mutex of project/elec/module/src/im3332.c back: the rules.
pub mod Calls
use linux_comon.Prelude.{
  ℕ, ◌≡◌, refl, Bool, true, false, Option, none, some, inl, inr, Option-cases, List, if◌then◌else◌,
  arith,
}
use linux_comon.Prelude.Int.{ℤ}
use linux_comon.Meter.Modbus.{
  Modbus, Driver, Result, done, blocked, M, ◌>>=◌, ◌>>◌, pure, lock, unlock, call, call_read, run,
  get_ctx, unless_null,
}
use linux_comon.Meter.Driver.{locked_call, locked_read}
use linux_comon.Meter.Sample.{get_fd, set_fd}

-- A call has returned with the mutex free.
pub record Returned {Ctx World A : Type 0} (r : Result Ctx World A) : Type 0 where
  pub value : A
  pub after : Driver Ctx World
  pub returns : r ≡ done value after
  pub free : after.locked ≡ false

-- Started with the mutex free, `x` returns with the mutex free.
pub record Releases {Ctx World A : Type 0} (x : M Ctx World A) : Type 0 where
  pub started : (d : Driver Ctx World) → d.locked ≡ false → Returned (x d)

module _ {Ctx World : Type 0} where
  pub returned :
      {A : Type 0} {r : Result Ctx World A} (a : A) (d : Driver Ctx World)
      → r ≡ done a d
      → d.locked ≡ false
      → Returned r
  returned a d e h = record { value = a; after = d; returns = e; free = h }

  pub Releases-pure : {A : Type 0} (a : A) → Releases {Ctx = Ctx} {World = World} (pure a)
  unfolding pure
  Releases-pure a = record { started = λ d h. returned a d refl h }

  pub Releases-bind :
      {A B : Type 0} (x : M Ctx World A) (f : A → M Ctx World B)
      → Releases x
      → ((a : A) → Releases (f a))
      → Releases (x >>= f)
  unfolding ◌>>=◌
  Releases-bind x f rx rf = record {
    started = λ d h.
        let one = rx.started d h in
        let two = (rf one.value).started one.after one.free in
        returned two.value two.after (rw (one.returns, ◌>>=◌) two.returns) two.free;
  }

  pub Releases-call : (f : World → ℤ × World) → Releases {Ctx = Ctx} (call f)
  unfolding call
  Releases-call f = record { started = λ d h. returned _ _ refl h }

  pub Releases-call_read : (f : World → ℤ × List ℕ × World) → Releases {Ctx = Ctx} (call_read f)
  unfolding call_read
  Releases-call_read f = record { started = λ d h. returned _ _ refl h }

  pub Releases-run : (f : World → World) → Releases {Ctx = Ctx} (run f)
  unfolding run
  Releases-run f = record { started = λ d h. returned _ _ refl h }

  pub Releases-get_ctx : Releases {Ctx = Ctx} {World = World} get_ctx
  unfolding get_ctx
  Releases-get_ctx = record { started = λ d h. returned _ _ refl h }

  pub Releases-get_fd : Releases {Ctx = Ctx} {World = World} get_fd
  unfolding get_fd
  Releases-get_fd = record { started = λ d h. returned _ _ refl h }

  pub Releases-set_fd : (fd : ℤ) → Releases {Ctx = Ctx} {World = World} (set_fd fd)
  unfolding set_fd
  Releases-set_fd fd = record { started = λ d h. returned _ _ refl h }

  lock-free :
      (d : Driver Ctx World) → d.locked ≡ false → lock d ≡ done tt (record d { locked = true })
  unfolding lock
  lock-free d h = ground arith

  pub locked_call-free :
      (f : World → ℤ × World) (d : Driver Ctx World)
      → d.locked ≡ false
      → locked_call {Ctx = Ctx} f d
        ≡ done (f d.world).0 (record d { locked = false; world = (f d.world).1 })
  unfolding ◌>>=◌ pure unlock call
  locked_call-free f d h = rw (lock-free d h, ◌>>=◌)

  pub locked_read-free :
      (f : World → ℤ × List ℕ × World) (d : Driver Ctx World)
      → d.locked ≡ false
      → locked_read {Ctx = Ctx} f d
        ≡ (let r = f d.world in done (r.0, r.1) (record d { locked = false; world = r.2 }))
  unfolding ◌>>=◌ pure unlock call_read
  locked_read-free f d h = rw (lock-free d h, ◌>>=◌)

  pub Releases-locked_call : (f : World → ℤ × World) → Releases {Ctx = Ctx} (locked_call f)
  Releases-locked_call f = record { started = λ d h. returned _ _ (locked_call-free f d h) refl }

  pub Releases-locked_read : (f : World → ℤ × List ℕ × World) → Releases {Ctx = Ctx} (locked_read f)
  Releases-locked_read f = record { started = λ d h. returned _ _ (locked_read-free f d h) refl }

  pub unless_null-some :
      {A : Type 0} (a : A) (x : M Ctx World A) (d : Driver Ctx World) {c : Ctx}
      → d.ctx ≡ some c
      → unless_null a x d ≡ x d
  unfolding unless_null
  unless_null-some a x d e = ground arith

  pub Releases-if :
      {A : Type 0} (b : Bool) {x y : M Ctx World A}
      → Releases x
      → Releases y
      → Releases (if b then x else y)
  Releases-if true rx ry = rx
  Releases-if false rx ry = ry

  pub Releases-unless_null :
      {A : Type 0} (a : A) (x : M Ctx World A) → Releases x → Releases (unless_null a x)
  unfolding unless_null
  Releases-unless_null a x rx = record {
    started = λ d h. elim (Option-cases d.ctx) [
      | inl null ↦ returned a d (ground arith) h
      | inr (c, set) ↦
          let one = rx.started d h in
          returned one.value one.after (ground (arith, one.returns)) one.free
    ];
  }

pub ruleset releases = (
  Releases-pure, Releases-bind, Releases-call, Releases-call_read, Releases-run, Releases-get_ctx,
  Releases-get_fd, Releases-set_fd, Releases-locked_call, Releases-locked_read, Releases-if,
  Releases-unless_null,
)
