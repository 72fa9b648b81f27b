-- ===== src/Gpio/Descriptors.antt =====
-- That common/utils/gpio/gpio.c and do.c, di.c and led.c of project/iot-gw/module/src close every file that they open.
use linux_comon.Prelude.{
  ℕ, arith, suc, ◌-◌, ◌≡◌, refl, Bool, true, false, List, [], ◌∷◌, inl, inr, Option-cases,
  Bool-cases, if◌then◌else◌,
}
use linux_comon.Prelude.Int.{ℤ, negative}
use linux_comon.Gpio.Files.{
  FilePath, Access, Command, Files, M, ◌>>=◌, pure, access, open_file, write, read, close, system,
}
use linux_comon.Gpio.Pin.{
  gpio_export, gpio_unexport, gpio_set_direction, verify_direction, gpio_get_direction,
  gpio_set_level, verify_level, gpio_get_level,
}
use linux_comon.Gpio.Led.{led_write, led_on, led_off}
use linux_comon.Gpio.Channel.{
  Channel, do_chns, di_chns, do_get_chn, di_get_chn, gpio_set_out, gpio_set_in, init_all, do_init,
  di_init, do_out, di_read,
}

-- What POSIX says of the number of open descriptors: `open` adds one if it succeeds, `close` takes
-- one away, and nothing else changes it.
pub record Descriptors {World : Type 0} (s : Files World) : Type 0 where
  pub opened : World → ℕ
  pub open_fails :
      (p : FilePath) (a : Access) (w : World)
      → negative ((s.open_path p a w).0) ≡ true
      → opened ((s.open_path p a w).1) ≡ opened w
  pub open_works :
      (p : FilePath) (a : Access) (w : World)
      → negative ((s.open_path p a w).0) ≡ false
      → opened ((s.open_path p a w).1) ≡ suc (opened w)
  pub close_one : (fd : ℤ) (w : World) → opened (s.close fd w) ≡ opened w - 1
  pub access_same : (p : FilePath) (w : World) → opened ((s.access p w).1) ≡ opened w
  pub write_same :
      (fd : ℤ) (bytes : List ℕ) (w : World) → opened ((s.write fd bytes w).1) ≡ opened w
  pub read_same : (fd : ℤ) (n : ℕ) (w : World) → opened ((s.read fd n w).2) ≡ opened w
  pub system_same : (c : Command) (w : World) → opened ((s.system c w).1) ≡ opened w

module _ {World : Type 0} {s : Files World} (d : Descriptors s) where
  -- From a world with `a` open descriptors the action leaves `b`.
  pub record Moves {A : Type 0} (a b : ℕ) (x : M World A) : Type 0 where
    pub moves : (w : World) → d.opened w ≡ a → d.opened ((x w).1) ≡ b

  Moves-pure : {A : Type 0} (v : A) (a : ℕ) → Moves a a (pure v)
  unfolding pure
  Moves-pure v a = record { moves = λ w h. h }

  Moves-bind :
      {A B : Type 0} {a b : ℕ} (x : M World A) (f : A → M World B)
      → Moves a a x
      → ((v : A) → Moves a b (f v))
      → Moves a b (x >>= f)
  unfolding ◌>>=◌
  Moves-bind x f p q = record { moves = λ w h. (q ((x w).0)).moves ((x w).1) (p.moves w h) }

  Moves-if :
      {A : Type 0} {a b : ℕ} (t : Bool) (x y : M World A)
      → Moves a b x
      → Moves a b y
      → Moves a b (if t then x else y)
  Moves-if true x y p q = p
  Moves-if false x y p q = q

  -- An open and its test.
  Moves-open :
      {A : Type 0} {a b : ℕ} (p : FilePath) (how : Access) (e : M World A) (k : ℤ → M World A)
      → Moves a b e
      → ((fd : ℤ) → Moves (suc a) b (k fd))
      → Moves a b (open_file s p how >>= λ fd. if negative fd then e else k fd)
  unfolding ◌>>=◌ open_file
  Moves-open p how e k fails works = record {
    moves = λ w h. elim (Bool-cases (negative ((s.open_path p how w).0))) [
      | inl bad ↦ rw bad (fails.moves _ (rw (d.open_fails p how w bad) h))
      | inr good ↦ rw good ((works _).moves _ (rw (d.open_works p how w good, h)))
    ];
  }

  Moves-access : (p : FilePath) (a : ℕ) → Moves a a (access s p)
  unfolding access
  Moves-access p a = record { moves = λ w h. rw (d.access_same p w) h }

  Moves-write : (fd : ℤ) (bytes : List ℕ) (a : ℕ) → Moves a a (write s fd bytes)
  unfolding write
  Moves-write fd bytes a = record { moves = λ w h. rw (d.write_same fd bytes w) h }

  Moves-read : (fd : ℤ) (n a : ℕ) → Moves a a (read s fd n)
  unfolding read
  Moves-read fd n a = record { moves = λ w h. rw (d.read_same fd n w) h }

  Moves-system : (c : Command) (a : ℕ) → Moves a a (system s c)
  unfolding system
  Moves-system c a = record { moves = λ w h. rw (d.system_same c w) h }

  -- A close and what follows it.
  Moves-close :
      {B : Type 0} {a b : ℕ} (fd : ℤ) (f : Unit {0} → M World B)
      → ((u : Unit {0}) → Moves a b (f u))
      → Moves (suc a) b (close s fd >>= f)
  unfolding ◌>>=◌ close
  Moves-close fd f p = record {
    moves = λ w h. (p tt).moves (s.close fd w) (omega (arith, d.close_one fd w));
  }

  ruleset moves = (
    Moves-pure, Moves-if, Moves-open, Moves-access, Moves-write, Moves-read, Moves-system,
    Moves-close, Moves-bind,
  )

  Moves-export : (n a : ℕ) → Moves a a (gpio_export s n)
  unfolding gpio_export
  Moves-export n a = search moves depth 20

  Moves-verify_level : (n v a : ℕ) → Moves a a (verify_level s n v)
  unfolding verify_level
  Moves-verify_level n v a = search moves depth 20

  Moves-unexport : (n a : ℕ) → Moves a a (gpio_unexport s n)
  unfolding gpio_unexport
  Moves-unexport n a = search moves depth 20

  Moves-verify_direction : (n : ℕ) (word : List ℕ) (a : ℕ) → Moves a a (verify_direction s n word)
  unfolding verify_direction
  Moves-verify_direction n word a = search moves depth 20

  Moves-set_direction : (n : ℕ) (dir : ℤ) (a : ℕ) → Moves a a (gpio_set_direction s n dir)
  unfolding gpio_set_direction
  Moves-set_direction n dir a = search (moves, Moves-verify_direction) depth 20

  Moves-get_direction : (n : ℕ) (dir : List ℕ) (a : ℕ) → Moves a a (gpio_get_direction s n dir)
  unfolding gpio_get_direction
  Moves-get_direction n dir a = search moves depth 20

  Moves-set_level : (n : ℕ) (level : ℤ) (a : ℕ) → Moves a a (gpio_set_level s n level)
  unfolding gpio_set_level
  Moves-set_level n level a = search (moves, Moves-verify_level) depth 20

  Moves-get_level : (n level a : ℕ) → Moves a a (gpio_get_level s n level)
  unfolding gpio_get_level
  Moves-get_level n level a = search moves depth 20

  ruleset functions = (moves, Moves-export, Moves-set_direction, Moves-set_level, Moves-get_level)

  Moves-set_out : (c : Channel) (a : ℕ) → Moves a a (gpio_set_out s c)
  unfolding gpio_set_out
  Moves-set_out c a = search functions depth 20

  Moves-set_in : (c : Channel) (a : ℕ) → Moves a a (gpio_set_in s c)
  unfolding gpio_set_in
  Moves-set_in c a = search functions depth 20

  Moves-init_all :
      (set : Channel → M World ℤ) (cs : List Channel) (a : ℕ)
      → ((c : Channel) → Moves a a (set c))
      → Moves a a (init_all s set cs)
  unfolding init_all
  Moves-init_all set [] a p = Moves-pure _ a
  Moves-init_all set (c ∷ cs) a p =
      Moves-bind _ _ (p c) (λ r. Moves-if _ _ _ (Moves-init_all set cs a p) (Moves-pure _ a))

  Moves-do_out : (channel level : ℤ) (a : ℕ) → Moves a a (do_out s channel level)
  unfolding do_out
  Moves-do_out channel level a = elim (Option-cases (do_get_chn channel)) [
    | inl absent ↦ rw (absent, do_out) (Moves-pure _ a)
    | inr (c, found) ↦ rw (found, do_out) (search functions depth 20)
  ]

  Moves-di_read : (channel : ℤ) (level a : ℕ) → Moves a a (di_read s channel level)
  unfolding di_read
  Moves-di_read channel level a = elim (Option-cases (di_get_chn channel)) [
    | inl absent ↦ rw (absent, di_read) (Moves-pure _ a)
    | inr (c, found) ↦ rw (found, di_read) (search functions depth 20)
  ]

  Moves-do_init : (a : ℕ) → Moves a a (do_init s)
  unfolding do_init
  Moves-do_init a = Moves-init_all _ do_chns a (λ c. Moves-set_out c a)

  Moves-di_init : (a : ℕ) → Moves a a (di_init s)
  unfolding di_init
  Moves-di_init a = Moves-init_all _ di_chns a (λ c. Moves-set_in c a)

  Moves-led_write : (p : FilePath) (v a : ℕ) → Moves a a (led_write s p v)
  unfolding led_write
  Moves-led_write p v a = search moves depth 20

  Moves-led_on : (led a : ℕ) → Moves a a (led_on s led)
  unfolding led_on
  Moves-led_on led a = search (moves, Moves-led_write) depth 20

  Moves-led_off : (led a : ℕ) → Moves a a (led_off s led)
  unfolding led_off
  Moves-led_off led a = search (moves, Moves-led_write) depth 20

  -- No function of the GPIO code, of the digital channels and of the leds leaks a file descriptor: on every
  -- path, errors included, it leaves as many open as it found, whatever the system calls return.
  pub descriptors_same :
      (n : ℕ) (dir level channel : ℤ) (old led : ℕ) (word : List ℕ) (w : World)
      → (d.opened ((gpio_export s n w).1) ≡ d.opened w)
        × (d.opened ((gpio_unexport s n w).1) ≡ d.opened w)
        × (d.opened ((gpio_set_direction s n dir w).1) ≡ d.opened w)
        × (d.opened ((gpio_get_direction s n word w).1) ≡ d.opened w)
        × (d.opened ((gpio_set_level s n level w).1) ≡ d.opened w)
        × (d.opened ((gpio_get_level s n old w).1) ≡ d.opened w)
        × (d.opened ((do_init s w).1) ≡ d.opened w)
        × (d.opened ((di_init s w).1) ≡ d.opened w)
        × (d.opened ((do_out s channel level w).1) ≡ d.opened w)
        × (d.opened ((di_read s channel old w).1) ≡ d.opened w)
        × (d.opened ((led_on s led w).1) ≡ d.opened w)
        × (d.opened ((led_off s led w).1) ≡ d.opened w)
  descriptors_same n dir level channel old led word w = (
    (Moves-export n _).moves w refl,
    (Moves-unexport n _).moves w refl,
    (Moves-set_direction n dir _).moves w refl,
    (Moves-get_direction n word _).moves w refl,
    (Moves-set_level n level _).moves w refl,
    (Moves-get_level n old _).moves w refl,
    (Moves-do_init _).moves w refl,
    (Moves-di_init _).moves w refl,
    (Moves-do_out channel level _).moves w refl,
    (Moves-di_read channel old _).moves w refl,
    (Moves-led_on led _).moves w refl,
    (Moves-led_off led _).moves w refl,
  )
