-- ===== src/Radio/Mutex.antt =====
-- Who gives `g_rf_mutex` of common/utils/rf/rf_common.c back: the rules.
pub mod Calls
pub mod Released
use linux_comon.Prelude.{
  ℕ, zero, suc, ◌+◌, ◌-◌, ◌≡◌, refl, Bool, true, false, Option, none, some, List, [], ◌∷◌, inl, inr,
  Option-cases, if◌then◌else◌, arith,
}
use linux_comon.Prelude.Int.{ℤ, minus_one}
use linux_comon.Radio.Modem.{
  Port, Outcome, done, fault, blocked, Modem, M, ◌>>=◌, ◌>>◌, pure, checked, lock, unlock, call,
  run, on_option,
}
use linux_comon.Radio.Serial.{
  have_read, read_result, read_rounds, read_tries, rf_read, rf_write, parse_rfinfo_request,
  ask_into, ask,
}

-- A call that returned left the mutex as `held` says; it did not wait for ever.
abbrev pub Left : {World A : Type 0} → Bool → Outcome (A × Modem World) → Type 0
Left held (done r) = r.1.locked ≡ held
Left held fault = Unit
Left held blocked = ⊥

-- `x` leaves the mutex as it finds it.
pub record Keeps {World A : Type 0} (x : M World A) : Type 0 where
  pub started : (s : Modem World) → Left s.locked (x s)

Left-bind :
    {World A B : Type 0} (held : Bool) (o : Outcome (A × Modem World)) (f : A → M World B)
    → Left held o
    → ((a : A) → Keeps (f a))
    → Left held (elim o [ done r ↦ f r.0 r.1 | fault ↦ fault | blocked ↦ blocked ])
Left-bind held (done r) f h k = rw (← h) ((k r.0).started r.1)
Left-bind held fault f h k = h
Left-bind held blocked f h k = h

module _ {World : Type 0} where
  pub Keeps-bind :
      {A B : Type 0} (x : M World A) (f : A → M World B)
      → Keeps x
      → ((a : A) → Keeps (f a))
      → Keeps (x >>= f)
  unfolding ◌>>=◌
  Keeps-bind x f kx kf = record { started = λ s. Left-bind s.locked (x s) f (kx.started s) kf }

  pub Keeps-pure : {A : Type 0} (a : A) → Keeps {World = World} (pure a)
  unfolding pure
  Keeps-pure a = record { started = λ s. refl }

  pub Keeps-checked : {A : Type 0} (o : Option A) → Keeps {World = World} (checked o)
  unfolding checked
  Keeps-checked none = record { started = λ s. tt }
  Keeps-checked (some a) = record { started = λ s. refl }

  pub Keeps-call : {A : Type 0} (f : World → A × World) → Keeps (call f)
  unfolding call
  Keeps-call f = record { started = λ s. refl }

  pub Keeps-run : (f : World → World) → Keeps (run f)
  unfolding run
  Keeps-run f = record { started = λ s. refl }

  pub Keeps-if :
      {A : Type 0} (b : Bool) {x y : M World A} → Keeps x → Keeps y → Keeps (if b then x else y)
  Keeps-if true kx ky = kx
  Keeps-if false kx ky = ky

  pub Keeps-on_option :
      {A B : Type 0} (o : Option B) {x : M World A} {f : B → M World A}
      → Keeps x
      → ((b : B) → Keeps (f b))
      → Keeps (on_option o x f)
  unfolding on_option
  Keeps-on_option none kx kf = kx
  Keeps-on_option (some b) kx kf = kf b

pub ruleset keeps =
    (Keeps-bind, Keeps-pure, Keeps-checked, Keeps-call, Keeps-run, Keeps-if, Keeps-on_option)

module _ {World : Type 0} (p : Port World) where
  Keeps-have_read :
      (fd : ℤ) (n : ℕ) (next : List ℕ → ℕ → M World (List ℕ × ℕ × Bool))
      → ((buf : List ℕ) (total : ℕ) → Keeps (next buf total))
      → (buf : List ℕ) (total : ℕ) (bs : List ℕ) → Keeps (have_read p fd n next buf total bs)
  unfolding have_read
  Keeps-have_read fd n next k buf total bs = search (keeps, k) depth 9

  Keeps-read_result :
      (fd : ℤ) (n : ℕ) (next : List ℕ → ℕ → M World (List ℕ × ℕ × Bool))
      → ((buf : List ℕ) (total : ℕ) → Keeps (next buf total))
      → (buf : List ℕ) (total : ℕ) (r : Option (List ℕ))
      → Keeps (read_result p fd n next buf total r)
  unfolding read_result
  Keeps-read_result fd n next k buf total none = Keeps-pure _
  Keeps-read_result fd n next k buf total (some []) = Keeps-pure _
  Keeps-read_result fd n next k buf total (some (b ∷ bs)) =
      Keeps-have_read fd n next k buf total (b ∷ bs)

  Keeps-read_rounds :
      (fd : ℤ) (n left : ℕ) (buf : List ℕ) (total : ℕ) → Keeps (read_rounds p fd n left buf total)
  unfolding read_rounds
  Keeps-read_rounds fd n zero buf total = Keeps-pure _
  Keeps-read_rounds fd n (suc left) buf total =
      Keeps-bind _ _ (Keeps-call _)
        λ r. Keeps-read_result fd n _ (Keeps-read_rounds fd n left) buf total r

  Keeps-read_tries :
      (fd : ℤ) (n left : ℕ) (buf : List ℕ) (total : ℕ) → Keeps (read_tries p fd n left buf total)
  unfolding read_tries
  Keeps-read_tries fd n zero buf total = Keeps-pure _
  Keeps-read_tries fd n (suc left) buf total =
      search (keeps, Keeps-read_rounds, Keeps-read_tries fd n left) depth 9

  Keeps-rf_read : (fd : ℤ) (buf : List ℕ) (n : ℕ) → Keeps (rf_read p fd buf n)
  unfolding rf_read
  Keeps-rf_read fd buf n = search (keeps, Keeps-read_tries)

  Keeps-rf_write : (fd : ℤ) (cmd : List ℕ) → Keeps (rf_write p fd cmd)
  unfolding rf_write
  Keeps-rf_write fd [] = Keeps-pure _
  Keeps-rf_write fd (c ∷ cs) = search keeps

  pub Keeps-parse :
      (rfdev : Option (List ℕ)) (cmd resp : List ℕ) (n : ℕ)
      → Keeps (parse_rfinfo_request p rfdev cmd resp n)
  unfolding parse_rfinfo_request
  Keeps-parse none cmd resp n = Keeps-pure _
  Keeps-parse (some dev) cmd resp n = search (keeps, Keeps-rf_read, Keeps-rf_write) depth 12

  pub Keeps-ask_into :
      (rfdev : Option (List ℕ)) (cmd resp : List ℕ) → Keeps (ask_into p rfdev cmd resp)
  unfolding ask_into
  Keeps-ask_into rfdev cmd resp = search (keeps, Keeps-parse)

  pub Keeps-ask : (rfdev : Option (List ℕ)) (cmd : List ℕ) → Keeps (ask p rfdev cmd)
  unfolding ask
  Keeps-ask rfdev cmd = search (keeps, Keeps-ask_into)
