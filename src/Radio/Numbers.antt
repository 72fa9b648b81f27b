-- ===== src/Radio/Numbers.antt =====
-- The numbers in the answers of a module of Quectel (common/utils/rf/rf_quectel.c).
use linux_comon.Prelude.{
  zero, leb, ◌≤◌, ℕ, suc, ◌+◌, ◌-◌, ◌*◌, ◌/◌, ◌%◌, ◌^◌, ◌<◌, ◌≡◌, ◌≢◌, refl, sym, ap, ◌∙◌, Bool,
  true, false, none, some, List, [], ◌∷◌, ◌++◌, ltb, ◌==◌, if◌then◌else◌, arith, lt→ltb,
}
use linux_comon.Prelude.Int.{ℤ, pos, negsuc, nearest_int, FitsInt}
use linux_comon.Params.Strings.{decimal}
use linux_comon.Sd.Names.{is_digit, digits_value, negated}
use linux_comon.Sd.Numbers.{all_digits, all_digits-decimal, digits_value-decimal}
use linux_comon.Radio.Text.{
  codes, strstr, behind_digits, scan_digits, scan_int, scan_ints, minus, fifth,
}
use linux_comon.Radio.Info.{RfInfo}
use linux_comon.Radio.Quectel.Signal.{
  qcsq_sysmodes, find_mode, mode_lte, mode_numbers, read_numbers,
}
use linux_comon.Radio.Quectel.Control.{int_text}

-- No byte of the string is `c`.
abbrev lacks : ℕ → List ℕ → Bool
lacks c [] = true
lacks c (x ∷ xs) = if x == c then false else lacks c xs

lacks-append :
    (c : ℕ) (xs ys : List ℕ) → lacks c xs ≡ true → lacks c ys ≡ true → lacks c (xs ++ ys) ≡ true
lacks-append c [] ys h k = k
lacks-append c (x ∷ xs) ys h k = ground (arith, lacks-append c xs ys)

-- A word is not found where its first byte is missing.
strstr-lacks : (w : ℕ) (ws s : List ℕ) → lacks w s ≡ true → strstr s (w ∷ ws) ≡ none
strstr-lacks w ws [] h = refl
strstr-lacks w ws (x ∷ xs) h = ground (arith, strstr-lacks w ws xs)

lacks-digits : (c : ℕ) (ds : List ℕ) → is_digit c ≡ false → all_digits ds ≡ true → lacks c ds ≡ true
lacks-digits c [] h k = refl
lacks-digits c (d ∷ ds) h k = ground (arith, lacks-digits c ds)

FitsInt-nearest_int : (v : ℤ) → FitsInt v → nearest_int v ≡ v
FitsInt-nearest_int (pos n) h = rw (lt→ltb n (2 ^ 31) h) refl
FitsInt-nearest_int (negsuc n) h = rw (lt→ltb n (2 ^ 31) h) refl

lacks-int_text : (c : ℕ) (v : ℤ) → is_digit c ≡ false → c ≢ b'-' → lacks c (int_text v) ≡ true
lacks-int_text c (pos n) h k = lacks-digits c (decimal 10 n) h (all_digits-decimal 10 n)
lacks-int_text c (negsuc n) h k =
    ground (arith, lacks-digits c (decimal 10 (suc n)) h (all_digits-decimal 10 (suc n)))

-- Digits are read up to a byte that is no digit.
digits_value-until :
    (acc : ℕ) (ds : List ℕ) (c : ℕ) (rest : List ℕ)
    → all_digits ds ≡ true
    → is_digit c ≡ false
    → digits_value acc (ds ++ (c ∷ rest)) ≡ digits_value acc ds
digits_value-until acc [] c rest h k = ground (arith, k)
digits_value-until acc (d ∷ ds) c rest h k =
    ground (arith, digits_value-until (acc * 10 + (d - 48)) ds c rest)

behind_digits-until :
    (ds : List ℕ) (c : ℕ) (rest : List ℕ)
    → all_digits ds ≡ true
    → is_digit c ≡ false
    → behind_digits (ds ++ (c ∷ rest)) ≡ c ∷ rest
behind_digits-until [] c rest h k = ground (arith, k)
behind_digits-until (d ∷ ds) c rest h k = ground (arith, behind_digits-until ds c rest)

scan_digits-until :
    (sign : ℕ → ℤ) (d : ℕ) (ds : List ℕ) (c : ℕ) (rest : List ℕ)
    → all_digits (d ∷ ds) ≡ true
    → is_digit c ≡ false
    → scan_digits sign ((d ∷ ds) ++ (c ∷ rest))
      ≡ some (nearest_int (sign (digits_value 0 (d ∷ ds))), c ∷ rest)
scan_digits-until sign d ds c rest h k =
    ground
      (arith, digits_value-until 0 (d ∷ ds) c rest h k, behind_digits-until (d ∷ ds) c rest h k)

some_digit : (fuel n : ℕ) → (d : ℕ) × (ds : List ℕ) × (decimal (suc fuel) n ≡ d ∷ ds)
some_digit fuel n = front (if ltb n 10 then [] else decimal fuel (n / 10))
  where
    front : (xs : List ℕ) → (d : ℕ) × (ds : List ℕ) × (xs ++ ((48 + n % 10) ∷ []) ≡ d ∷ ds)
    front [] = (48 + n % 10, [], refl)
    front (x ∷ xs) = (x, xs ++ ((48 + n % 10) ∷ []), refl)

scan_int-unsigned :
    (ds : List ℕ) (d : ℕ) (ds' : List ℕ) (c : ℕ) (rest : List ℕ)
    → ds ≡ d ∷ ds'
    → all_digits ds ≡ true
    → is_digit c ≡ false
    → scan_int (ds ++ (c ∷ rest)) ≡ some (nearest_int (pos (digits_value 0 ds)), c ∷ rest)
scan_int-unsigned ds d ds' c rest e h k =
    let h' : all_digits (d ∷ ds') ≡ true = sym (ap all_digits e) ∙ h in
    let scanned = scan_digits-until pos d ds' c rest h' k in rw e (ground (arith, scanned, h'))

scan_digits-decimal :
    (sign : ℕ → ℤ) (n c : ℕ) (rest : List ℕ)
    → n < 10 ^ 10
    → is_digit c ≡ false
    → scan_digits sign (decimal 10 n ++ (c ∷ rest)) ≡ some (nearest_int (sign n), c ∷ rest)
scan_digits-decimal sign n c rest small k =
    let (d, ds, e) = some_digit 9 n in
    let h : all_digits (d ∷ ds) ≡ true = sym (ap all_digits e) ∙ all_digits-decimal 10 n in
    let value : digits_value 0 (d ∷ ds) ≡ n =
      sym (ap (digits_value 0) e) ∙ digits_value-decimal 10 n small in
    rw e (
      scan_digits-until sign d ds c rest h k
      ∙ ap (λ v. some (nearest_int (sign v), c ∷ rest)) value)

negated-suc : (n : ℕ) → negated (suc n) ≡ negsuc n
negated-suc n = ground arith

-- "%d" reads back what "%d" prints, before a byte that is no digit.
pub scan_int-int_text :
    (v : ℤ) (c : ℕ) (rest : List ℕ)
    → FitsInt v
    → is_digit c ≡ false
    → scan_int (int_text v ++ (c ∷ rest)) ≡ some (v, c ∷ rest)
scan_int-int_text (pos n) c rest small k =
    let (d, ds, e) = some_digit 9 n in
    scan_int-unsigned (decimal 10 n) d ds c rest e (all_digits-decimal 10 n) k
    ∙ ap (λ v. some (v, c ∷ rest))
        (ap (λ v. nearest_int (pos v)) (digits_value-decimal 10 n (omega (arith, small)))
          ∙ FitsInt-nearest_int (pos n) small)
scan_int-int_text (negsuc n) c rest small k =
    scan_digits-decimal negated (suc n) c rest (omega (arith, small)) k
    ∙ ap (λ v. some (v, c ∷ rest))
        (ap nearest_int (negated-suc n) ∙ FitsInt-nearest_int (negsuc n) small)

-- ",%d" in front of a byte that is no digit.
scan_ints-step :
    (n : ℕ) (v : ℤ) (c : ℕ) (rest : List ℕ)
    → FitsInt v
    → is_digit c ≡ false
    → scan_ints (suc n) (b',' ∷ (int_text v ++ (c ∷ rest))) ≡ v ∷ scan_ints n (c ∷ rest)
scan_ints-step n v c rest small k = rw (scan_int-int_text v c rest small k, scan_ints)

-- What stands behind the mode in the answer of a module in an LTE network.
abbrev pub lte_tail : ℤ → ℤ → ℤ → ℤ → List ℕ
lte_tail rssi rsrp sinr rsrq =
    b','
    ∷ (int_text rssi
        ++ (b','
            ∷ (int_text rsrp
                ++ (b',' ∷ (int_text sinr ++ (b',' ∷ (int_text rsrq ++ codes "\r\n\r\nOK\r\n")))))))

abbrev pub lte_answer : ℤ → ℤ → ℤ → ℤ → List ℕ
lte_answer rssi rsrp sinr rsrq = codes "\r\n+QCSQ: \"LTE\"" ++ lte_tail rssi rsrp sinr rsrq

scan_ints-lte :
    (rssi rsrp sinr rsrq : ℤ)
    → FitsInt rssi
    → FitsInt rsrp
    → FitsInt sinr
    → FitsInt rsrq
    → scan_ints 4 (lte_tail rssi rsrp sinr rsrq) ≡ rssi ∷ rsrp ∷ sinr ∷ rsrq ∷ []
scan_ints-lte rssi rsrp sinr rsrq h1 h2 h3 h4 =
    scan_ints-step 3 rssi b',' _ h1 refl
    ∙ (ap (◌∷◌ rssi) (scan_ints-step 2 rsrp b',' _ h2 refl)
        ∙ (ap (λ l. rssi ∷ rsrp ∷ l) (scan_ints-step 1 sinr b',' _ h3 refl)
            ∙ ap (λ l. rssi ∷ rsrp ∷ sinr ∷ l) (scan_ints-step 0 rsrq b'\r' _ h4 refl)))

lacks-field :
    (c : ℕ) (v : ℤ) (rest : List ℕ)
    → is_digit c ≡ false
    → c ≢ b'-'
    → c ≢ b','
    → lacks c rest ≡ true
    → lacks c (b',' ∷ (int_text v ++ rest)) ≡ true
lacks-field c v rest d minus_ne comma_ne k =
    let l = lacks-append c (int_text v) rest (lacks-int_text c v d minus_ne) k in
    ground (arith, l, comma_ne)

lacks-lte :
    (c : ℕ) (rssi rsrp sinr rsrq : ℤ)
    → is_digit c ≡ false
    → c ≢ b'-'
    → c ≢ b','
    → lacks c (codes "\r\n\r\nOK\r\n") ≡ true
    → lacks c (lte_tail rssi rsrp sinr rsrq) ≡ true
lacks-lte c rssi rsrp sinr rsrq d m k last =
    lacks-field c rssi _ d m k
      (lacks-field c rsrp _ d m k (lacks-field c sinr _ d m k (lacks-field c rsrq _ d m k last)))

-- The table's first name in the answer is that of LTE.
find_mode-lte :
    (rssi rsrp sinr rsrq : ℤ)
    → find_mode qcsq_sysmodes (lte_answer rssi rsrp sinr rsrq)
      ≡ some (mode_lte, lte_tail rssi rsrp sinr rsrq)
find_mode-lte rssi rsrp sinr rsrq =
    let quote = lacks-lte b'"' rssi rsrp sinr rsrq refl (omega arith) (omega arith) refl in
    let t = lacks-lte b'T' rssi rsrp sinr rsrq refl (omega arith) (omega arith) refl in
    rw (
      strstr-lacks b'"' (codes "NOSERVICE\"") _ quote,
      strstr-lacks b'"' (codes "GSM\"") _ quote,
      strstr-lacks b'"' (codes "WCDMA\"") _ quote,
      strstr-lacks b'T' (codes "DSCDMA") _ t,
      find_mode,
    )

-- a + n
abbrev pub plus : ℤ → ℕ → ℤ
plus (pos a) n = pos (a + n)
plus (negsuc a) n = if leb n a then negsuc (a - n) else pos (n - a - 1)

plus-minus : (v : ℤ) (n : ℕ) → plus (minus v n) n ≡ v
plus-minus (pos a) n = ground arith
plus-minus (negsuc a) n = ground arith

-- A whole number of fives as near to 0 as it can be: the second number is a fifth of the first.
abbrev pub IsFifth : ℤ → ℤ → Type 0
IsFifth (pos a) (pos q) = (q * 5 ≤ a) × (a < q * 5 + 5)
IsFifth (pos a) (negsuc q) = ⊥
IsFifth (negsuc a) (pos zero) = a < 4
IsFifth (negsuc a) (pos (suc q)) = ⊥
IsFifth (negsuc a) (negsuc q) = (q * 5 + 4 ≤ a) × (a < q * 5 + 9)

fifth-IsFifth : (v : ℤ) → IsFifth v (fifth v)
fifth-IsFifth (pos a) = (omega arith, omega arith)
fifth-IsFifth (negsuc a) = ground arith

-- The numbers in the answer of a module in an LTE network are the ones that the struct gets: RSRP and
-- RSRQ as they are, RSSI less 120, and a fifth of SINR less 20, if each number fits an `int` and RSSI
-- less 120 does, so that the subtraction does not overflow: 120 added to the one is RSSI again, and
-- the fifth is a whole number of fives as near to 0 as it can be.
pub mode_numbers-lte :
    (rssi rsrp sinr rsrq : ℤ) (i : RfInfo)
    → FitsInt rssi
    → FitsInt rsrp
    → FitsInt sinr
    → FitsInt rsrq
    → FitsInt (minus rssi 120)
    → (mode_numbers (find_mode qcsq_sysmodes (lte_answer rssi rsrp sinr rsrq)) i ≡ (
      pos 0,
      record i {
        rf_signal = record i.rf_signal {
          rsrp = rsrp;
          rsrq = rsrq;
          rssi = minus rssi 120;
          sinr = minus (fifth sinr) 20;
        };
      },
    ))
      × (plus (minus rssi 120) 120 ≡ rssi)
      × (plus (minus (fifth sinr) 20) 20 ≡ fifth sinr)
      × IsFifth sinr (fifth sinr)
unfolding mode_numbers read_numbers
mode_numbers-lte rssi rsrp sinr rsrq i h1 h2 h3 h4 _ = (
  rw (
    find_mode-lte rssi rsrp sinr rsrq,
    mode_numbers,
    scan_ints-lte rssi rsrp sinr rsrq h1 h2 h3 h4,
  ),
  plus-minus rssi 120,
  plus-minus (fifth sinr) 20,
  fifth-IsFifth sinr,
)
