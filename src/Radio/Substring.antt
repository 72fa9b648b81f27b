-- ===== src/Radio/Substring.antt =====
-- What `isSubstring` of common/utils/rf/rf_common.c finds.
use linux_comon.Prelude.{
  ℕ, zero, suc, ◌<◌, ◌≡◌, ◌≢◌, refl, ap, ◌∙◌, true, inl, inr, List, [], ◌∷◌, ◌++◌, ◌==◌, arith,
  length, length-append, take, get_or, Bool-cases, ==_iff,
}
use linux_comon.Radio.Serial.{is_substring_from, is_substring}

-- The string holds the bytes of `sub`, one after the other.
abbrev pub Occurs : List ℕ → List ℕ → Type 0
Occurs sub s = (before : List ℕ) × (after : List ℕ) × (s ≡ before ++ (sub ++ after))

take-get :
    (sub cs : List ℕ) (j : ℕ)
    → j < length sub
    → take j sub ++ (get_or sub j 0 ∷ cs) ≡ take (suc j) sub ++ cs
take-get [] cs j h = absurd (omega arith)
take-get (x ∷ xs) cs zero h = refl
take-get (x ∷ xs) cs (suc j) h = ap (◌∷◌ x) (take-get xs cs j (omega arith))

take-length : (sub : List ℕ) → take (length sub) sub ≡ sub
take-length [] = refl
take-length (x ∷ xs) = ap (◌∷◌ x) (take-length xs)

regroup : (xs ys zs : List ℕ) → xs ++ (ys ++ zs) ≡ (xs ++ ys) ++ zs
regroup [] ys zs = refl
regroup (x ∷ xs) ys zs = ap (◌∷◌ x) (regroup xs ys zs)

Occurs-behind : (sub front s : List ℕ) → Occurs sub s → Occurs sub (front ++ s)
Occurs-behind sub front s (before, after, e) =
    (front ++ before, after, ap (◌++◌ front) e ∙ regroup front before (sub ++ after))

-- `take j sub` has been matched just before `cs`.
found-Occurs :
    (sub : List ℕ) (j : ℕ) (cs : List ℕ)
    → j < length sub
    → is_substring_from sub j cs ≡ true
    → Occurs sub (take j sub ++ cs)
unfolding is_substring_from
found-Occurs sub j [] h e = cc
found-Occurs sub j (c ∷ cs) h e = elim (Bool-cases (c == get_or sub j 0)) [
  | inr differs ↦
      let rest : is_substring_from sub zero cs ≡ true = ground (arith, e, differs) in
      Occurs-behind sub (take j sub) (c ∷ cs)
        (Occurs-behind sub (c ∷ []) cs (found-Occurs sub zero cs (omega arith) rest))
  | inl same ↦
      let moved : take j sub ++ (c ∷ cs) ≡ take (suc j) sub ++ cs =
        rw ((==_iff c (get_or sub j 0)).0 same) (take-get sub cs j h) in
      elim (Bool-cases (suc j == length sub)) [
        | inl whole ↦ (
          [],
          cs,
          moved
              ∙ ap (λ s. s ++ cs)
                  (ap (λ n. take n sub) ((==_iff (suc j) (length sub)).0 whole) ∙ take-length sub),
        )
        | inr part ↦
            let rest : is_substring_from sub (suc j) cs ≡ true = ground (arith, e, same, part) in
            let (before, after, at) = found-Occurs sub (suc j) cs (ground (arith, h, part)) rest in
            (before, after, moved ∙ at)
      ]
]

get_or-append : (front back : List ℕ) (b : ℕ) → get_or (front ++ (b ∷ back)) (length front) 0 ≡ b
get_or-append [] back b = refl
get_or-append (x ∷ front) back b = get_or-append front back b

-- `front` has been matched, and the rest of `sub` follows.
matches :
    (sub front : List ℕ) (j b : ℕ) (back post : List ℕ)
    → sub ≡ front ++ (b ∷ back)
    → j ≡ length front
    → is_substring_from sub j ((b ∷ back) ++ post) ≡ true
unfolding is_substring_from
matches sub front j b [] post e at =
    let here : get_or sub j 0 ≡ b = rw (e, at) (get_or-append front [] b) in
    let last : suc j ≡ length sub = rw e (omega (arith, at, length-append front (b ∷ []))) in
    ground (arith, here, last)
matches sub front j b (b' ∷ back) post e at =
    let here : get_or sub j 0 ≡ b = rw (e, at) (get_or-append front (b' ∷ back) b) in
    let more : suc j < length sub =
      rw e (omega (arith, at, length-append front (b ∷ (b' ∷ back)))) in
    let next : is_substring_from sub (suc j) ((b' ∷ back) ++ post) ≡ true =
      matches sub (front ++ (b ∷ [])) (suc j) b' back post (e ∙ regroup front (b ∷ []) (b' ∷ back))
        (omega (arith, at, length-append front (b ∷ []))) in
    elim (Bool-cases (b == get_or sub j 0)) [
      | inl same ↦ elim (Bool-cases (suc j == length sub)) [
        | inl whole ↦ rw (same, whole)
        | inr part ↦ rw (same, part) next
      ]
      | inr differs ↦ absurd (ground (arith, differs, here))
    ]

-- Behind a byte that `sub` does not hold, `sub` is found, whatever stands in front.
behind_mark :
    (sub : List ℕ) (mark : ℕ) (post : List ℕ)
    → 0 < length sub
    → ((j : ℕ) → j < length sub → get_or sub j 0 ≢ mark)
    → (pre : List ℕ) (j : ℕ) → j < length sub
    → is_substring_from sub j (pre ++ (mark ∷ (sub ++ post))) ≡ true
unfolding is_substring_from
behind_mark sub mark post some_byte free [] j h =
    let start : is_substring_from sub zero (sub ++ post) ≡ true = whole sub some_byte in
    ground (arith, free j h, start)
  where
    whole : (s : List ℕ) → 0 < length s → is_substring_from s zero (s ++ post) ≡ true
    whole [] k = absurd (omega arith)
    whole (b ∷ back) k = matches (b ∷ back) [] zero b back post refl refl
behind_mark sub mark post some_byte free (c ∷ pre) j h =
    let fresh = behind_mark sub mark post some_byte free pre zero some_byte in
    elim (Bool-cases (c == get_or sub j 0)) [
      | inr differs ↦ rw differs fresh
      | inl same ↦ elim (Bool-cases (suc j == length sub)) [
        | inl whole_word ↦ rw (same, whole_word)
        | inr part ↦
            rw (same, part)
              (behind_mark sub mark post some_byte free pre (suc j) (ground (arith, h, part)))
      ]
    ]

-- What `isSubstring` finds occurs in the string.
pub is_substring-Occurs :
    (sub s : List ℕ) → 0 < length sub → is_substring s sub ≡ true → Occurs sub s
unfolding is_substring
is_substring-Occurs sub s some_byte found = found-Occurs sub zero s some_byte found

-- `isSubstring` finds an occurrence that stands behind a byte which `sub` does not hold, as "OK" and
-- "ERROR" stand behind a line feed.
is_substring-behind :
    (sub pre post : List ℕ) (mark : ℕ)
    → 0 < length sub
    → ((j : ℕ) → j < length sub → get_or sub j 0 ≢ mark)
    → is_substring (pre ++ (mark ∷ (sub ++ post))) sub ≡ true
unfolding is_substring
is_substring-behind sub pre post mark some_byte free =
    behind_mark sub mark post some_byte free pre zero some_byte
