-- ===== src/Radio/Bounds.antt =====
-- What `rf_read` of common/utils/rf/rf_common.c does to the array of a response.
pub mod Read
pub mod Request
use linux_comon.Prelude.{
  ℕ, zero, suc, ◌+◌, ◌-◌, ◌≤◌, ◌<◌, ◌≡◌, refl, sym, ap, ◌∙◌, Bool, true, false, ◌⊎◌, inl, inr,
  Option, none, some, List, [], ◌∷◌, ◌++◌, ltb, leb, ◌==◌, if◌then◌else◌, arith, length, take, drop,
  replicate, length-append, length-take, length-drop, length-replicate, Bool-cases, lt→ltb,
}
use linux_comon.Prelude.Int.{ℤ, pos, minus_one, negative, positive, equal, is_zero}
use linux_comon.Params.Strings.{c_string, strncpy}
use linux_comon.Radio.Modem.{
  Port, Outcome, done, fault, blocked, Modem, M, ◌>>=◌, ◌>>◌, pure, checked, lock, unlock, call,
  run,
}
use linux_comon.Radio.Text.{codes}
use linux_comon.Radio.Serial.{
  store_read, is_final, have_read, read_result, read_rounds, read_tries, rf_read, rf_write,
  write_error, parse_rfinfo_request,
}
use linux_comon.Radio.Common.Requests.{with_mutex, rf_at_cmd}

-- `read` delivers at most as many bytes as it is asked for.
abbrev pub IsBounded : {World : Type 0} → Port World → Type 0
IsBounded {World} p =
    (fd : ℤ) (n : ℕ) (w : World) (bs : List ℕ) → (p.read fd n w).0 ≡ some bs → length bs ≤ n

-- The call returns a result that fits `P`, and leaves the mutex as `held` says.
abbrev pub Returns : {World A : Type 0} → (A → Type 0) → Bool → Outcome (A × Modem World) → Type 0
Returns P held (done r) = P r.0 × (r.1.locked ≡ held)
Returns P held fault = ⊥
Returns P held blocked = ⊥

-- An array of `cap` bytes that holds a string.
abbrev pub IsString : ℕ → List ℕ → Type 0
IsString cap buf = (length buf ≡ cap) × ((cs : List ℕ) × (c_string buf ≡ some cs))

c_string-nul : (xs ys : List ℕ) → (cs : List ℕ) × (c_string (xs ++ (0 ∷ ys)) ≡ some cs)
c_string-nul [] ys = ([], refl)
c_string-nul (x ∷ xs) ys =
    let (cs, e) = c_string-nul xs ys in
    elim (Bool-cases (x == 0)) [ inl z ↦ ([], rw z refl) | inr nz ↦ (x ∷ cs, rw (nz, e) refl) ]

regroup : (xs bs rest : List ℕ) → xs ++ (bs ++ rest) ≡ (xs ++ bs) ++ rest
regroup [] bs rest = refl
regroup (x ∷ xs) bs rest = ap (◌∷◌ x) (regroup xs bs rest)

-- Bytes that leave room for the NUL are stored, and the array then holds a string.
pub store_read-IsString :
    (buf : List ℕ) (total : ℕ) (bs : List ℕ)
    → total + length bs < length buf
    → (buf' : List ℕ) × (store_read buf total bs ≡ some buf') × IsString (length buf) buf'
unfolding store_read
store_read-IsString buf total bs h =
    let after = drop (total + length bs + 1) buf in
    let (cs, e) = c_string-nul (take total buf ++ bs) after in
    (
      take total buf ++ (bs ++ (0 ∷ after)),
      ground (arith, h),
      (
        omega (
          arith,
          h,
          length-append (take total buf) (bs ++ (0 ∷ after)),
          length-append bs (0 ∷ after),
          length-take total buf,
          length-drop (total + length bs + 1) buf,
        ),
        (cs, ap c_string (regroup (take total buf) bs (0 ∷ after)) ∙ e),
      ),
    )

module _ {World : Type 0} where
  Returns-outcome :
      {A B : Type 0} (P : A → Type 0) (Q : B → Type 0) (held : Bool) (o : Outcome (A × Modem World))
      (f : A → M World B)
      → Returns P held o
      → ((a : A) (t : Modem World) → P a → t.locked ≡ held → Returns Q held (f a t))
      → Returns Q held (elim o [ done r ↦ f r.0 r.1 | fault ↦ fault | blocked ↦ blocked ])
  Returns-outcome P Q held (done r) f h k = k r.0 r.1 h.0 h.1
  Returns-outcome P Q held fault f h k = h
  Returns-outcome P Q held blocked f h k = h

  pub Returns-bind :
      {A B : Type 0} (P : A → Type 0) (Q : B → Type 0) (held : Bool) (x : M World A)
      (f : A → M World B) (s : Modem World)
      → Returns P held (x s)
      → ((a : A) (t : Modem World) → P a → t.locked ≡ held → Returns Q held (f a t))
      → Returns Q held ((x >>= f) s)
  unfolding ◌>>=◌
  Returns-bind P Q held x f s h k = Returns-outcome P Q held (x s) f h k

  pub Returns-if :
      {A : Type 0} (P : A → Type 0) (held b : Bool) (x y : M World A) (s : Modem World)
      → Returns P held (x s)
      → Returns P held (y s)
      → Returns P held ((if b then x else y) s)
  Returns-if P held true x y s hx hy = hx
  Returns-if P held false x y s hx hy = hy
