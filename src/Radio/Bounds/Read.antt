-- ===== src/Radio/Bounds/Read.antt =====
-- The loops of `rf_read` of common/utils/rf/rf_common.c stay in an array that is longer than the read.
use linux_comon.Prelude.{
  ℕ, zero, suc, ◌+◌, ◌-◌, ◌≤◌, ◌<◌, ◌≡◌, refl, ◌∙◌, Bool, Option, none, some, List, [], ◌∷◌, ◌==◌,
  arith, length,
}
use linux_comon.Prelude.Int.{ℤ, positive}
use linux_comon.Radio.Modem.{Port, Modem, M, ◌>>=◌, pure, checked, call, run}
use linux_comon.Radio.Serial.{is_final, have_read, read_result, read_rounds, read_tries, rf_read}
use linux_comon.Radio.Bounds.{
  IsBounded, Returns, IsString, store_read-IsString, Returns-bind, Returns-if,
}

module _ {World : Type 0} where
  -- A `read` of at most `n` bytes in all, into an array of more bytes.
  module _ (p : Port World) (fd : ℤ) (n cap : ℕ) (held : Bool) where
    abbrev pub Loop : List ℕ × ℕ × Bool → Type 0
    Loop r = IsString cap (r.0) × (r.1 ≤ n)

    abbrev pub Goes : (List ℕ → ℕ → M World (List ℕ × ℕ × Bool)) → Type 0
    Goes next =
        (buf : List ℕ) (total : ℕ) (s : Modem World)
        → IsString cap buf
        → total ≤ n
        → s.locked ≡ held
        → Returns Loop held (next buf total s)

    have_read-Returns :
        (next : List ℕ → ℕ → M World (List ℕ × ℕ × Bool)) (buf : List ℕ) (total : ℕ) (bs : List ℕ)
        (s : Modem World)
        → Goes next
        → n < cap
        → IsString cap buf
        → total + length bs ≤ n
        → s.locked ≡ held
        → Returns Loop held (have_read p fd n next buf total bs s)
    unfolding have_read ◌>>=◌ checked pure run
    have_read-Returns next buf total bs s k small str fits free =
        let (buf', e, is) = store_read-IsString buf total bs (omega (arith, str.0)) in
        let stored : IsString cap buf' = (is.0 ∙ str.0, is.1) in
        rw e (
          Returns-if Loop held (is_final buf' (total + length bs)) _ _ s ((stored, fits), free)
            (Returns-if Loop held (n == (total + length bs)) _ _ s ((stored, fits), free)
              (k buf' (total + length bs) (record s { world = p.usleep 100000 s.world }) stored fits
                free)))

    read_result-Returns :
        (next : List ℕ → ℕ → M World (List ℕ × ℕ × Bool)) (buf : List ℕ) (total : ℕ)
        (r : Option (List ℕ)) (s : Modem World)
        → Goes next
        → n < cap
        → IsString cap buf
        → total ≤ n
        → ((bs : List ℕ) → r ≡ some bs → length bs ≤ n - total)
        → s.locked ≡ held
        → Returns Loop held (read_result p fd n next buf total r s)
    unfolding read_result pure
    read_result-Returns next buf total none s k small str below bound free = ((str, below), free)
    read_result-Returns next buf total (some []) s k small str below bound free =
        ((str, below), free)
    read_result-Returns next buf total (some (b ∷ bs)) s k small str below bound free =
        have_read-Returns next buf total (b ∷ bs) s k small str (omega (arith, bound (b ∷ bs) refl))
          free

    read_rounds-Returns : IsBounded p → n < cap → (left : ℕ) → Goes (read_rounds p fd n left)
    unfolding read_rounds ◌>>=◌ call pure
    read_rounds-Returns polite small zero buf total s str below free = ((str, below), free)
    read_rounds-Returns polite small (suc left) buf total s str below free =
        let r = p.read fd (n - total) s.world in
        read_result-Returns (read_rounds p fd n left) buf total r.0 (record s { world = r.1 })
          (read_rounds-Returns polite small left) small str below (polite fd (n - total) s.world)
          free

    abbrev pub Read : List ℕ × ℕ → Type 0
    Read r = IsString cap (r.0) × (r.1 ≤ n)

    read_tries-Returns :
        IsBounded p
        → n < cap
        → (left : ℕ) (buf : List ℕ) (total : ℕ) (s : Modem World) → IsString cap buf
        → total ≤ n
        → s.locked ≡ held
        → Returns Read held (read_tries p fd n left buf total s)
    unfolding read_tries pure
    read_tries-Returns polite small zero buf total s str below free = ((str, below), free)
    read_tries-Returns polite small (suc left) buf total s str below free =
        Returns-bind Loop Read held (read_rounds p fd n 10 buf total) _ s
          (read_rounds-Returns polite small 10 buf total s str below free)
          λ r t h kept.
            Returns-if Read held (r.2) _ _ t (h, kept)
              (read_tries-Returns polite small left r.0 r.1 t h.0 h.1 kept)

    pub rf_read-Returns :
        IsBounded p
        → n < cap
        → (buf : List ℕ) (s : Modem World) → IsString cap buf
        → s.locked ≡ held
        → Returns Read held (rf_read p fd buf n s)
    unfolding rf_read pure
    rf_read-Returns polite small buf s str free =
        Returns-if Read held (positive fd) _ _ s
          (read_tries-Returns polite small 3 buf 0 s str (omega arith) free)
          ((str, omega arith), free)
