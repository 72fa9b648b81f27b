-- ===== src/Radio/Results.antt =====
-- What the results of `update_RF_status` (common/utils/rf/rf_common.c) and of
-- `get_RF_DeviceInfo_QUECTEL` (rf_quectel.c) tell.
use linux_comon.Prelude.{
  ℕ, ◌≡◌, refl, sym, ◌∙◌, Bool, true, false, Option, none, some, List, [], ◌∷◌, if◌then◌else◌,
  replicate, drop, ap, arith, Bool-cases, Option-cases, inl, inr,
}
use mathlib.Core.Path.{subst}
use linux_comon.Prelude.Int.{ℤ, minus_one, is_zero}
use linux_comon.Params.Strings.{c_string}
use linux_comon.Radio.Modem.{
  Port, Outcome, done, fault, blocked, Modem, M, ◌>>=◌, pure, checked, on_option,
}
use linux_comon.Radio.Text.{codes, strstr, starts_with, strncmp}
use linux_comon.Radio.Info.{RfInfo, Manufacturer, rf_none, rf_quectel, rf_lynq}
use linux_comon.Radio.Serial.{ask_into}
use linux_comon.Radio.Quectel.Device.{
  scan_ati, ati_offset, device_sim, device_sn, device_imei, get_rf_device_info_quectel,
}
use linux_comon.Radio.Common.Status.{
  or_result, get_rf_module_info, update_rf_signal_info, update_rf_status,
}

-- Where the call returns, its result fits `P`.
abbrev Result : {World A : Type 0} → (A → Type 0) → Outcome (A × Modem World) → Type 0
Result P (done r) = P r.0
Result P fault = Unit
Result P blocked = Unit

record Yields {World A : Type 0} (P : A → Type 0) (x : M World A) : Type 0 where
  always : (s : Modem World) → Result P (x s)

module _ {World : Type 0} where
  result_bind :
      {A B : Type 0} (P : A → Type 0) (Q : B → Type 0) (o : Outcome (A × Modem World))
      (f : A → M World B)
      → Result P o
      → ((a : A) → P a → Yields Q (f a))
      → Result Q (elim o [ done r ↦ f r.0 r.1 | fault ↦ fault | blocked ↦ blocked ])
  result_bind P Q (done r) f h k = (k r.0 h).always r.1
  result_bind P Q fault f h k = tt
  result_bind P Q blocked f h k = tt

  Yields-then :
      {A B : Type 0} (P : A → Type 0) (Q : B → Type 0) (x : M World A) (f : A → M World B)
      → Yields P x
      → ((a : A) → P a → Yields Q (f a))
      → Yields Q (x >>= f)
  unfolding ◌>>=◌
  Yields-then P Q x f h k = record { always = λ s. result_bind P Q (x s) f (h.always s) k }

  Result-any : {A : Type 0} (o : Outcome (A × Modem World)) → Result (λ _. Unit {0}) o
  Result-any (done r) = tt
  Result-any fault = tt
  Result-any blocked = tt

  Yields-bind :
      {A B : Type 0} (Q : B → Type 0) (x : M World A) (f : A → M World B)
      → ((a : A) → Yields Q (f a))
      → Yields Q (x >>= f)
  Yields-bind Q x f k =
      Yields-then (λ _. Unit {0}) Q x f (record { always = λ s. Result-any (x s) }) (λ a _. k a)

  Yields-pure : {A : Type 0} (Q : A → Type 0) (a : A) → Q a → Yields {World = World} Q (pure a)
  unfolding pure
  Yields-pure Q a h = record { always = λ s. h }

  Yields-on_option :
      {A B : Type 0} (Q : A → Type 0) (o : Option B) (x : M World A) (f : B → M World A)
      → Yields Q x
      → ((b : B) → Yields Q (f b))
      → Yields Q (on_option o x f)
  unfolding on_option
  Yields-on_option Q none x f h k = h
  Yields-on_option Q (some b) x f h k = k b

  Yields-if :
      {A : Type 0} (Q : A → Type 0) (b : Bool) (x y : M World A)
      → Yields Q x
      → Yields Q y
      → Yields Q (if b then x else y)
  Yields-if Q true x y h k = h
  Yields-if Q false x y h k = k

  Yields-done :
      {A : Type 0} {Q : A → Type 0} {x : M World A} {s t : Modem World} {a : A}
      → Yields Q x
      → x s ≡ done (a, t)
      → Q a
  Yields-done {Q} {s} h e = subst (Result Q) e (h.always s)

abbrev Fails : ℤ × RfInfo → Type 0
Fails r = r.0 ≡ minus_one

or_result-right : (a b : ℤ) → b ≡ minus_one → or_result a b ≡ minus_one
or_result-right a b e = rw e

or_result-left : (a b : ℤ) → a ≡ minus_one → or_result a b ≡ minus_one
or_result-left a b e = elim (Bool-cases (is_zero b)) [ inl z ↦ rw z e | inr nz ↦ rw nz ]

module _ {World : Type 0} (p : Port World) (dev : Option (List ℕ)) where
  get_rf_module_info-Fails : (i : RfInfo) → Yields Fails (get_rf_module_info p dev i rf_lynq)
  unfolding get_rf_module_info
  get_rf_module_info-Fails i = elim (Option-cases dev) [
    | inl null ↦ rw null (Yields-pure Fails _ refl)
    | inr (d, given) ↦ rw given (Yields-bind Fails _ _ λ _. Yields-pure Fails _ refl)
  ]

  update_rf_signal_info-Fails :
      (i : RfInfo) → Yields Fails (update_rf_signal_info p dev i rf_quectel)
  unfolding update_rf_signal_info
  update_rf_signal_info-Fails i = elim (Option-cases dev) [
    | inl null ↦ rw null (Yields-pure Fails _ refl)
    | inr (d, given) ↦ rw given (
        Yields-bind Fails _ _ λ _.
          Yields-bind Fails _ _
            λ _. Yields-bind Fails _ _ λ _. Yields-bind Fails _ _ λ _. Yields-pure Fails _ refl)
  ]

  none-Fails : (i : RfInfo) → Yields Fails (get_rf_module_info p dev i rf_none)
  unfolding get_rf_module_info
  none-Fails i = elim (Option-cases dev) [
    | inl null ↦ rw null (Yields-pure Fails _ refl)
    | inr (d, given) ↦ rw given (Yields-pure Fails _ refl)
  ]

  update_rf_status-Fails :
      (i : RfInfo) (m : Manufacturer) → Yields Fails (update_rf_status p dev i m)
  unfolding update_rf_status
  update_rf_status-Fails i rf_quectel = Yields-bind Fails _ _ λ a.
      Yields-then Fails Fails _ _ (update_rf_signal_info-Fails (a.1))
        λ b h. Yields-pure Fails _ (or_result-right (a.0) (b.0) h)
  update_rf_status-Fails i rf_lynq =
      Yields-then Fails Fails _ _ (get_rf_module_info-Fails i)
        λ a h. Yields-bind Fails _ _ λ b. Yields-pure Fails _ (or_result-left (a.0) (b.0) h)
  update_rf_status-Fails i rf_none =
      Yields-then Fails Fails _ _ (none-Fails i)
        λ a h. Yields-bind Fails _ _ λ b. Yields-pure Fails _ (or_result-left (a.0) (b.0) h)

  -- The value that `ret` has after the first response is the result on every path.
  module _ (ret : ℤ) where
    abbrev Gives : ℤ × RfInfo → Type 0
    Gives r = r.0 ≡ ret

    sim_gives : (resp : List ℕ) (i : RfInfo) → Yields Gives (device_sim p dev ret resp i)
    unfolding device_sim
    sim_gives resp i = search (Yields-bind, Yields-on_option, Yields-pure) depth 12

    sn_gives : (resp : List ℕ) (i : RfInfo) → Yields Gives (device_sn p dev ret resp i)
    unfolding device_sn
    sn_gives resp i = search (Yields-bind, Yields-on_option, Yields-pure, sim_gives) depth 12

    imei_gives : (resp : List ℕ) (i : RfInfo) → Yields Gives (device_imei p dev ret resp i)
    unfolding device_imei
    imei_gives resp i = search (Yields-bind, Yields-on_option, Yields-pure, sn_gives) depth 12

  bind_done :
      {A B : Type 0} (x : M World A) (f : A → M World B) (s u : Modem World) (a : A)
      → x s ≡ done (a, u)
      → (x >>= f) s ≡ f a u
  unfolding ◌>>=◌
  bind_done x f s u a e = rw (e, ◌>>=◌)

  is_zero-strncmp : (s word : List ℕ) → is_zero (strncmp s word) ≡ starts_with word s
  is_zero-strncmp s [] = refl
  is_zero-strncmp [] (w ∷ ws) = refl
  is_zero-strncmp (c ∷ cs) (w ∷ ws) = ground (arith, is_zero-strncmp cs ws)

  -- If the module answers "ATI" with a response that holds "OK", every result that
  -- `get_RF_DeviceInfo_QUECTEL` returns is 0 exactly when that response starts with the echo "ATI",
  -- whatever the response says and whatever becomes of the other four commands.
  device_info-echo :
      (i : RfInfo) (s t u : Modem World) (txt array rest : List ℕ) (r : ℤ × RfInfo)
      → ask_into p dev (codes "ATI\r\n") (replicate 256 0) s ≡ done ((some txt, array), u)
      → strstr txt (codes "OK\r\n") ≡ some rest
      → get_rf_device_info_quectel p dev i s ≡ done (r, t)
      → is_zero (r.0) ≡ starts_with (codes "ATI") txt
  unfolding get_rf_device_info_quectel on_option
  device_info-echo i s t u txt array rest r first final e =
      let ret = strncmp txt (codes "ATI") in
      let body : M World (ℤ × RfInfo) =
        checked (c_string (drop (ati_offset p dev ret) array)) >>= λ at.
        checked (scan_ati at i) >>= λ scanned.
        if scanned.0 then device_imei p dev ret array scanned.1 else pure (ret, scanned.1) in
      let gives : Yields (Gives ret) body =
        search (Yields-bind, Yields-if, Yields-pure, imei_gives) depth 12 in
      let reached : get_rf_device_info_quectel p dev i s ≡ body u =
        bind_done (ask_into p dev (codes "ATI\r\n") (replicate 256 0)) _ s u (some txt, array) first
        ∙ ap (λ o. on_option o (pure (minus_one, i)) (λ _. body) u) final in
      ap is_zero (Yields-done gives (sym reached ∙ e)) ∙ is_zero-strncmp txt (codes "ATI")
