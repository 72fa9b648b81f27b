-- ===== src/Gpio/Sysfs.antt =====
-- What the functions of common/utils/gpio/gpio.c do to the level of a pin, over a sysfs that works.
use linux_comon.Prelude.{ℕ, ◌≡◌, refl, ◌∙◌, Bool, true, false, [], ◌∷◌, ◌==◌, if◌then◌else◌, arith}
use linux_comon.Prelude.Int.{ℤ, pos, negative}
use linux_comon.Gpio.Files.{gpio_value, rdwr, Files, M, ◌>>=◌, pure, open_file, write, read, close}
use linux_comon.Gpio.Pin.{gpio_set_level, verify_level, gpio_get_level, with_low_byte}

-- What the kernel documents of the `value` files of exported pins: they open, a written character
-- other than '0' sets the pin high and '0' sets it low, and a read gives '0' or '1'. `shows w fd n`
-- is that `fd` is open on the file of pin `n`.
pub record Sysfs {World : Type 0} (s : Files World) : Type 0 where
  pub high : World → ℕ → Bool
  pub ready : World → ℕ → Bool
  pub shows : World → ℤ → ℕ → Bool
  pub open_value :
      (n : ℕ) (w : World)
      → ready w n ≡ true
      → let r = s.open_path (gpio_value n) rdwr w in
        (negative (r.0) ≡ false)
        × (shows (r.1) (r.0) n ≡ true)
        × (ready (r.1) n ≡ true)
        × (high (r.1) n ≡ high w n)
  pub write_value :
      (fd : ℤ) (n c : ℕ) (w : World)
      → shows w fd n ≡ true
      → let r = s.write fd (c ∷ []) w in
        (r.0 ≡ pos 1)
        × (ready (r.1) n ≡ ready w n)
        × (high (r.1) n ≡ (if c == 48 then false else true))
  pub read_value :
      (fd : ℤ) (n : ℕ) (w : World)
      → shows w fd n ≡ true
      → let r = s.read fd 1 w in
        (r.0 ≡ pos 1)
        × (r.1 ≡ (if high w n then 49 else 48) ∷ [])
        × (ready (r.2) n ≡ ready w n)
        × (high (r.2) n ≡ high w n)
  pub close_value :
      (fd : ℤ) (n : ℕ) (w : World)
      → (ready (s.close fd w) n ≡ ready w n) × (high (s.close fd w) n ≡ high w n)

-- The two levels: as `gpio_set_level` takes them, and as `gpio_get_level` stores them.
abbrev pub level_of : Bool → ℤ
level_of false = pos 0
level_of true = pos 1

abbrev pub bit : Bool → ℕ
bit false = 0
bit true = 1

module _ {World : Type 0} {s : Files World} (fs : Sysfs s) where
  -- The pin works, and has the level.
  pub record At (n : ℕ) (up : Bool) (w : World) : Type 0 where
    pub works : fs.ready w n ≡ true
    pub level : fs.high w n ≡ up

  -- The pin works, has the level, and the descriptor is open on its file.
  record Opened (fd : ℤ) (n : ℕ) (up : Bool) (w : World) : Type 0 where
    pin : At n up w
    shown : fs.shows w fd n ≡ true

  -- From a world of the first kind the action returns `v`, in a world of the second kind.
  pub record Gives {A : Type 0} (before : World → Type 0) (x : M World A) (v : A)
      (after : World → Type 0) : Type 0 where
    pub runs : (w : World) → before w → ((x w).0 ≡ v) × after ((x w).1)

  pub Gives-pure : {A : Type 0} (v : A) (kind : World → Type 0) → Gives kind (pure v) v kind
  unfolding pure
  Gives-pure v kind = record { runs = λ w h. (refl, h) }

  pub Gives-bind :
      {A B : Type 0} {first second third : World → Type 0} {a : A} {b : B} (x : M World A)
      (f : A → M World B)
      → Gives first x a second
      → Gives second (f a) b third
      → Gives first (x >>= f) b third
  unfolding ◌>>=◌
  Gives-bind x f p q = record {
    runs = λ w h.
        let (e, m) = p.runs w h in
        let (e', m') = q.runs ((x w).1) m in (rw (e, ◌>>=◌) e', rw (e, ◌>>=◌) m');
  }

  Gives-open :
      {A : Type 0} {v : A} {third : World → Type 0} (n : ℕ) (up : Bool) (e : M World A)
      (k : ℤ → M World A)
      → ((fd : ℤ) → Gives (Opened fd n up) (k fd) v third)
      → Gives
          (At n up)
          (open_file s (gpio_value n) rdwr >>= λ fd. if negative fd then e else k fd)
          v
          third
  unfolding ◌>>=◌ open_file
  Gives-open n up e k p = record {
    runs = λ w h.
        let (good, shown, works, same) = fs.open_value n w h.works in
        let o = s.open_path (gpio_value n) rdwr w in
        let (e', m) =
          (p (o.0)).runs (o.1)
            (record { pin = record { works = works; level = same ∙ h.level }; shown = shown }) in
        (rw good e', rw good m);
  }

  Gives-read :
      (fd : ℤ) (n : ℕ) (up : Bool)
      → Gives (Opened fd n up) (read s fd 1) (pos 1, (if up then 49 else 48) ∷ []) (At n up)
  unfolding read
  Gives-read fd n up = record {
    runs = λ w h.
        let (one, byte, works, same) = fs.read_value fd n w h.shown in
        (
          ground (arith, h.pin.level),
          record { works = works ∙ h.pin.works; level = same ∙ h.pin.level },
        );
  }

  Gives-write :
      (fd : ℤ) (n c : ℕ) (up : Bool)
      → Gives
          (Opened fd n up)
          (write s fd (c ∷ []))
          (pos 1)
          (At n (if c == 48 then false else true))
  unfolding write
  Gives-write fd n c up = record {
    runs = λ w h.
        let (one, works, same) = fs.write_value fd n c w h.shown in
        (one, record { works = works ∙ h.pin.works; level = same });
  }

  Gives-close : (fd : ℤ) (n : ℕ) (up : Bool) → Gives (At n up) (close s fd) tt (At n up)
  unfolding close
  Gives-close fd n up = record {
    runs = λ w h.
        let (works, same) = fs.close_value fd n w in
        (refl, record { works = works ∙ h.works; level = same ∙ h.level });
  }

  pub Gives-get_level :
      (n old : ℕ) (up : Bool)
      → Gives
          (At n up)
          (gpio_get_level s n old)
          (pos 0, if with_low_byte old (if up then 49 else 48) == 48 then 0 else 1)
          (At n up)
  unfolding gpio_get_level
  Gives-get_level n old up = Gives-open n up _ _ (λ fd.
      Gives-bind _ _ (Gives-read fd n up) (Gives-bind _ _ (Gives-close fd n up) (Gives-pure _ _)))

  Gives-verify :
      (n : ℕ) (up : Bool)
      → Gives (At n up) (verify_level s n (if up then 49 else 48)) (pos 0) (At n up)
  unfolding verify_level
  Gives-verify n true = Gives-open n true _ _ (λ fd.
      Gives-bind _ _ (Gives-read fd n true)
        (Gives-bind _ _ (Gives-close fd n true) (Gives-pure _ _)))
  Gives-verify n false = Gives-open n false _ _ (λ fd.
      Gives-bind _ _ (Gives-read fd n false)
        (Gives-bind _ _ (Gives-close fd n false) (Gives-pure _ _)))

  pub Gives-set_level :
      (n : ℕ) (up before : Bool)
      → Gives (At n before) (gpio_set_level s n (level_of up)) (pos 0) (At n up)
  unfolding gpio_set_level
  Gives-set_level n true before = Gives-open n before _ _ (λ fd.
      Gives-bind _ _ (Gives-write fd n 49 before)
        (Gives-bind _ _ (Gives-close fd n true) (Gives-verify n true)))
  Gives-set_level n false before = Gives-open n before _ _ (λ fd.
      Gives-bind _ _ (Gives-write fd n 48 before)
        (Gives-bind _ _ (Gives-close fd n false) (Gives-verify n false)))
