-- ===== src/Radio/Bounds/Request.antt =====
-- `rf_at_cmd` of common/utils/rf/rf_common.c always returns; a response that fills its array
-- leaves it.
use linux_comon.Prelude.{
  ℕ, zero, suc, ◌+◌, ◌≤◌, ◌<◌, ◌≡◌, refl, Bool, true, false, ◌⊎◌, inl, inr, Option, none, some,
  List, [], ◌∷◌, ◌++◌, ltb, leb, if◌then◌else◌, arith, length, length-append, drop, lt→ltb,
  Bool-cases, replicate,
}
use linux_comon.Prelude.Int.{ℤ, pos, minus_one, negative, positive, equal, is_zero}
use linux_comon.Params.Strings.{c_string, strncpy}
use linux_comon.Radio.Modem.{
  Port, Outcome, done, fault, blocked, Modem, M, ◌>>=◌, ◌>>◌, pure, checked, lock, unlock, call,
  run,
}
use linux_comon.Radio.Text.{codes}
use linux_comon.Radio.Serial.{
  store_read, have_read, read_result, read_rounds, read_tries, rf_read, rf_write, write_error,
  parse_rfinfo_request,
}
use linux_comon.Radio.Common.Requests.{with_mutex, at_cmd_array, rf_at_cmd}
use linux_comon.Radio.Bounds.{IsBounded, Returns, IsString, Returns-bind, Returns-if}
use linux_comon.Radio.Bounds.Read.{Read, rf_read-Returns}

-- A request was answered with a string, or it failed.
abbrev pub Answered : ℤ × List ℕ → Type 0
Answered r = ((r.0 ≡ pos 0) × ((cs : List ℕ) × (c_string (r.1) ≡ some cs))) ⊎ (r.0 ≡ minus_one)

result_of :
    (size total : ℕ) (buf : List ℕ)
    → IsString size buf
    → Answered ((if ltb 0 total then pos 0 else minus_one), buf)
result_of size zero buf str = inr refl
result_of size (suc n) buf str = inl (ground arith, str.1)

module _ {World : Type 0} where
  rf_write-Returns :
      (p : Port World) (fd : ℤ) (held : Bool) (cmd : List ℕ) (s : Modem World)
      → s.locked ≡ held
      → Returns (λ _. Unit {0}) held (rf_write p fd cmd s)
  unfolding rf_write ◌>>=◌ call run pure
  rf_write-Returns p fd held [] s free = (tt, free)
  rf_write-Returns p fd held (c ∷ cs) s free =
      Returns-if (λ _. Unit {0}) held (positive fd) _ _ s (tt, free) (tt, free)

  -- The error message of a write that stopped fits the array.
  pub error_stored-Returns :
      (cap n : ℕ) (b : Bool) (resp text : List ℕ) (held : Bool) (s : Modem World)
      → length resp ≡ cap
      → n ≤ cap
      → s.locked ≡ held
      → Returns (λ _. Unit {0}) held (checked (if b then strncpy resp text n else some resp) s)
  unfolding checked strncpy
  error_stored-Returns cap n false resp text held s len le free = (tt, free)
  error_stored-Returns cap n true resp text held s len le free =
      let fits : leb n (length resp) ≡ true = ground (arith, len, le) in rw fits (tt, free)

  module _ (p : Port World) (held : Bool) (resp : List ℕ) (n size : ℕ) (small : n < size)
      (str : IsString size resp) where
    -- Behind the write of the command.
    written-Returns :
        IsBounded p
        → (fd : ℤ) (s : Modem World) → s.locked ≡ held
        → Returns Answered held (
            (rf_read p fd resp n >>= λ r.
            run (p.close fd) >> pure ((if ltb 0 (r.1) then pos 0 else minus_one), r.0))
              s)
    unfolding ◌>>=◌ run pure
    written-Returns polite fd s free =
        Returns-bind (Read p fd n size held) Answered held (rf_read p fd resp n) _ s
          (rf_read-Returns p fd n size held polite small resp s str free)
          λ r t h kept. (result_of size r.1 r.0 h.0, kept)

    parse-Returns :
        IsBounded p
        → (dev : Option (List ℕ)) (cmd : List ℕ) (s : Modem World) → s.locked ≡ held
        → Returns Answered held (parse_rfinfo_request p dev cmd resp n s)
    unfolding parse_rfinfo_request ◌>>=◌ call run pure
    parse-Returns polite none cmd s free = (inr refl, free)
    parse-Returns polite (some dev) cmd s free =
        let opened = p.open_dev dev s.world in
        let fd = opened.0 in
        let ready : Modem World = record s { world = p.set_serial fd opened.1 } in
        Returns-if Answered held (negative fd) _ _ (record s { world = opened.1 }) (inr refl, free)
          (Returns-bind (λ _. Unit {0}) Answered held (rf_write p fd cmd) _ ready
            (rf_write-Returns p fd held cmd ready free)
            λ ret t _ kept.
              Returns-if Answered held (equal ret (pos (length cmd + 1))) _ _ t
                (written-Returns polite fd t kept)
                (Returns-bind (λ _. Unit {0}) Answered held
                  (checked
                    (if positive ret then strncpy resp (write_error p cmd dev) n else some resp))
                  _ t
                  (error_stored-Returns size n (positive ret) resp (write_error p cmd dev) held t
                    str.0 (omega arith) kept)
                  λ resp' u _ k. (inr refl, k)))

-- `char response[256] = {0}` is a string.
empty_array : IsString 256 (replicate 256 0)
empty_array = (refl, ([], refl))

abbrev Ended : ℤ → Type 0
Ended r = (r ≡ pos 0) ⊎ (r ≡ minus_one)

reply-Returns :
    {World : Type 0} (held : Bool) (r : ℤ × List ℕ) (t : Modem World)
    → Answered r
    → t.locked ≡ held
    → Returns Ended held (
        (if is_zero (r.0) then (checked (c_string (r.1)) >>= λ s. pure (pos 0)) else pure minus_one)
          t)
unfolding ◌>>=◌ checked pure
reply-Returns held r t (inl (zero_result, (cs, string))) kept =
    rw (zero_result, string) (inl refl, kept)
reply-Returns held r t (inr failed) kept = rw failed (inr refl, kept)

released :
    {World A : Type 0} (P : A → Type 0) (o : Outcome (A × Modem World))
    → Returns P true o
    → Returns P false (elim o [
      | done r ↦ done (r.0, record r.1 { locked = false })
      | fault ↦ fault
      | blocked ↦ blocked
    ])
released P (done r) h = (h.0, refl)
released P fault h = h
released P blocked h = h

module _ {World : Type 0} (p : Port World) where
  request-Returns :
      IsBounded p
      → (dev : Option (List ℕ)) (cmd : List ℕ) (s : Modem World) → s.locked ≡ true
      → Returns Ended true (
          (parse_rfinfo_request p dev cmd (replicate 256 0) 255 >>= λ r.
          if is_zero (r.0)
          then (checked (c_string (r.1)) >>= λ s. pure (pos 0))
          else pure minus_one)
            s)
  request-Returns polite dev cmd s held =
      Returns-bind Answered Ended true (parse_rfinfo_request p dev cmd (replicate 256 0) 255) _ s
        (parse-Returns p true (replicate 256 0) 255 256 (omega arith) empty_array polite dev cmd s
          held)
        λ r t h kept. reply-Returns true r t h kept

  with_mutex-Returns :
      {A : Type 0} (P : A → Type 0) (x : M World A) (s : Modem World)
      → s.locked ≡ false
      → Returns P true (x (record s { locked = true }))
      → Returns P false (with_mutex x s)
  unfolding with_mutex ◌>>=◌ lock unlock pure
  with_mutex-Returns P x s free h = rw free (released P (x (record s { locked = true })) h)

  -- A command that passes the guard fits the array with its "\r\n" and its NUL.
  at_cmd_array-fits :
      (dev : Option (List ℕ)) (cmd : List ℕ)
      → length cmd ≤ 64
      → (at_cmd : List ℕ) × (at_cmd_array p dev cmd ≡ some at_cmd)
  at_cmd_array-fits dev cmd h =
      let text = cmd ++ codes "\r\n" in
      let fits : ltb (length text) 70 ≡ true =
        lt→ltb _ 70 (omega (arith, h, length-append cmd (codes "\r\n"))) in
      (text ++ (0 ∷ drop (length text + 1) (replicate 70 0)), rw fits refl)

  -- From a free mutex `rf_at_cmd` returns 0 or -1 and leaves the mutex free, whatever the module
  -- answers, if `read` delivers at most as many bytes as it is asked for: a command that passes the
  -- guard fits `at_cmd` with its line end and NUL, and no response leaves its array, since the
  -- request spares the last byte.
  pub rf_at_cmd-Returns :
      IsBounded p
      → (dev : Option (List ℕ)) (cmd : List ℕ) (s : Modem World) → s.locked ≡ false
      → Returns (λ r. (r ≡ pos 0) ⊎ (r ≡ minus_one)) false (rf_at_cmd p dev cmd s)
  unfolding rf_at_cmd pure ◌>>=◌ checked
  rf_at_cmd-Returns polite dev cmd s free = elim (Bool-cases (ltb 64 (length cmd))) [
    | inl long ↦ rw long (inr refl, free)
    | inr short ↦
        let (at_cmd, stored) = at_cmd_array-fits dev cmd (ground (arith, short)) in
        rw (short, stored)
          (with_mutex-Returns Ended _ s free
            (request-Returns polite dev (cmd ++ codes "\r\n") (record s { locked = true }) refl))
  ]

  -- A response whose first part fills an array of as many bytes as `rf_read` is told to read leaves
  -- the array: the NUL is stored behind it.
  rf_read-overrun :
      (fd b : ℕ) (buf bs : List ℕ) (s : Modem World)
      → (p.read (pos (suc fd)) (length buf) s.world).0 ≡ some (b ∷ bs)
      → length (b ∷ bs) ≡ length buf
      → rf_read p (pos (suc fd)) buf (length buf) s ≡ fault
  unfolding rf_read read_tries read_rounds read_result have_read ◌>>=◌ call checked store_read
  rf_read-overrun fd b buf bs s filled len = ground arith
