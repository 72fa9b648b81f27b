-- ===== src/Params/Terminated.antt =====
-- That the strings of project/elec/module/src/ModParam.c stay in their arrays, and end in them.
use linux_comon.Prelude.{
  ℕ, zero, suc, ◌+◌, ◌-◌, ◌≤◌, ◌<◌, ◌≡◌, refl, sym, ap, ◌∙◌, Bool, true, false, some, List, [], ◌∷◌,
  ◌++◌, ◌==◌, if◌then◌else◌, length, take, drop, replicate, get_or, arith, Bool-cases, inl, inr,
  length-append, length-take, length-drop, length-replicate,
}
use native.Mathlib.Decide.{dec_lt}
use linux_comon.Params.Strings.{c_string, strncpy, snprintf, copy_string}

-- No byte is NUL.
abbrev pub no_nul : List ℕ → Bool
no_nul [] = true
no_nul (b ∷ bs) = if b == 0 then false else no_nul bs

-- An array of bytes with the given last index, whose last byte is NUL.
pub record IsString (last : ℕ) (bytes : List ℕ) : Type 0 where
  pub sized : length bytes ≡ suc last
  pub ends : get_or bytes last 1 ≡ 0

get_or-take : (k : ℕ) (xs : List ℕ) (j d : ℕ) → j < k → get_or (take k xs) j d ≡ get_or xs j d
get_or-take zero xs j d h = absurd (omega arith)
get_or-take (suc k) [] j d h = refl
get_or-take (suc k) (x ∷ xs) zero d h = refl
get_or-take (suc k) (x ∷ xs) (suc j) d h = get_or-take k xs j d (omega arith)

get_or-drop : (k : ℕ) (xs : List ℕ) (j d : ℕ) → get_or (drop k xs) j d ≡ get_or xs (k + j) d
get_or-drop zero xs j d = ap (λ i. get_or xs i d) (omega arith)
get_or-drop (suc k) [] j d = refl
get_or-drop (suc k) (x ∷ xs) j d =
    let next : suc k + j ≡ suc (k + j) = omega arith in rw next (get_or-drop k xs j d)

get_or-append :
    (xs ys : List ℕ) (j d : ℕ) → length xs ≤ j → get_or (xs ++ ys) j d ≡ get_or ys (j - length xs) d
get_or-append [] ys j d h = ap (λ i. get_or ys i d) (omega arith)
get_or-append (x ∷ xs) ys zero d h = absurd (omega arith)
get_or-append (x ∷ xs) ys (suc j) d h =
    get_or-append xs ys j d (omega arith) ∙ ap (λ i. get_or ys i d) (omega arith)

-- What `strncpy` leaves when it does not overflow.
abbrev pub copied : List ℕ → List ℕ → ℕ → List ℕ
copied dst src n = take n (src ++ replicate n 0) ++ drop n dst

length-front : (src : List ℕ) (n : ℕ) → length (take n (src ++ replicate n 0)) ≡ n
length-front src n = omega (
  arith,
  length-take n (src ++ replicate n 0),
  length-append src (replicate n 0),
  length-replicate {A = ℕ} n 0,
)

length-copied : (dst src : List ℕ) (n : ℕ) → n ≤ length dst → length (copied dst src n) ≡ length dst
length-copied dst src n h = omega (
  arith,
  length-append (take n (src ++ replicate n 0)) (drop n dst),
  length-drop n dst,
  length-front src n,
)

-- Behind the first `n` bytes the old ones stay.
copied-behind :
    (dst src : List ℕ) (n j d : ℕ) → n ≤ j → get_or (copied dst src n) j d ≡ get_or dst j d
copied-behind dst src n j d h =
    let full : length (take n (src ++ replicate n 0)) ≡ n = length-front src n in
    let back : n + (j - n) ≡ j = omega arith in
    rw
      (
        get_or-append (take n (src ++ replicate n 0)) (drop n dst) j d (omega arith),
        full,
        get_or-drop n dst (j - n) d,
        back,
      )
      refl

-- The byte behind the string is NUL.
get_or-padded :
    (m : ℕ) (src rest : List ℕ)
    → get_or (take (suc (length src)) (src ++ replicate (suc m) 0) ++ rest) (length src) 1 ≡ 0
get_or-padded m [] rest = refl
get_or-padded m (x ∷ src) rest = get_or-padded m src rest

strncpy-copied :
    (dst src : List ℕ) (n : ℕ) → n ≤ length dst → strncpy dst src n ≡ some (copied dst src n)
unfolding strncpy
strncpy-copied dst src n h = ground arith

-- A string that is cut to `k` bytes and padded with zeros, in front of a NUL.
c_string-cut :
    (k m : ℕ) (src rest : List ℕ)
    → k ≤ m
    → no_nul src ≡ true
    → c_string rest ≡ some []
    → c_string (take k (src ++ replicate m 0) ++ rest) ≡ some (take k src)
c_string-cut zero m src rest h s e = e
c_string-cut (suc k) zero src rest h s e = absurd (omega arith)
c_string-cut (suc k) (suc m) [] rest h s e = refl
c_string-cut (suc k) (suc m) (x ∷ src) rest h s e =
    ground (arith, c_string-cut k (suc m) src rest (omega arith))

-- A string that is copied with its NUL.
c_string-padded :
    (m : ℕ) (src rest : List ℕ)
    → no_nul src ≡ true
    → c_string (take (suc (length src)) (src ++ replicate (suc m) 0) ++ rest) ≡ some src
c_string-padded m [] rest s = refl
c_string-padded m (x ∷ src) rest s = ground (arith, c_string-padded m src rest)

-- An array that ends in NUL holds a string that is shorter than it.
pub IsString-c_string :
    (last : ℕ) (bytes : List ℕ)
    → IsString last bytes
    → (cs : List ℕ) × (c_string bytes ≡ some cs) × (length cs ≤ last) × (no_nul cs ≡ true)
IsString-c_string last [] h = absurd (omega (arith, h.sized))
IsString-c_string zero (b ∷ bs) h = ([], ground (arith, h.ends), omega arith, refl)
IsString-c_string (suc n) (b ∷ bs) h = elim (Bool-cases (b == 0)) [
  | inl nul ↦ ([], ground arith, omega arith, refl)
  | inr more ↦
      let (cs, found, short, free) =
        IsString-c_string n bs (record { sized = omega (arith, h.sized); ends = h.ends }) in
      (b ∷ cs, rw (more, found) refl, omega arith, rw more free)
]

-- A string of fewer bytes than the array has is copied whole, and the array still ends in NUL.
pub copy_string-IsString :
    {last : ℕ} {dst src : List ℕ}
    → IsString last dst
    → IsString last src
    → (r : List ℕ) × (copy_string dst src ≡ some r) × IsString last r × (c_string r ≡ c_string src)
unfolding copy_string
copy_string-IsString {last} {dst} {src} d s =
    let (cs, found, short, free) = IsString-c_string last src s in
    let one : length cs + 1 ≡ suc (length cs) = omega arith in
    let room : suc (length cs) ≤ length dst = omega (arith, d.sized) in
    let new = copied dst cs (suc (length cs)) in
    (
      new,
      rw (found, one) (strncpy-copied dst cs _ room),
      record { sized = length-copied dst cs _ room ∙ d.sized; ends = last_byte cs (omega arith) },
      c_string-padded (length cs) cs (drop (suc (length cs)) dst) free ∙ sym found,
    )
  where
    last_byte :
        (cs : List ℕ) → length cs ≤ last → get_or (copied dst cs (suc (length cs))) last 1 ≡ 0
    last_byte cs h = elim (dec_lt (length cs) last) [
      | yes below ↦ copied-behind dst cs (suc (length cs)) last 1 (omega arith) ∙ d.ends
      | no above ↦
          let here : last ≡ length cs = omega arith in
          rw here (get_or-padded (length cs) cs (drop (suc (length cs)) dst))
    ]

-- A string that is cut to the array's size, as `set_user_name` and `set_passwd` cut it: the array
-- still ends in NUL, and it holds as much of the string as fits in front of that.
pub strncpy-IsString :
    {last : ℕ} {dst : List ℕ} (src : List ℕ)
    → IsString last dst
    → no_nul src ≡ true
    → (r : List ℕ) × (strncpy dst src last ≡ some r)
      × IsString last r
      × (c_string r ≡ some (take last src))
strncpy-IsString {last} {dst} src d s =
    let room : last ≤ length dst = omega (arith, d.sized) in
    (
      copied dst src last,
      strncpy-copied dst src last room,
      record {
        sized = length-copied dst src last room ∙ d.sized;
        ends = copied-behind dst src last last 1 (omega arith) ∙ d.ends;
      },
      c_string-cut last last src (drop last dst) (omega arith) s (last_nul last dst d),
    )
  where
    last_nul : (n : ℕ) (bytes : List ℕ) → IsString n bytes → c_string (drop n bytes) ≡ some []
    last_nul zero [] h = absurd (omega (arith, h.sized))
    last_nul zero (b ∷ bs) h = ground (arith, h.ends)
    last_nul (suc n) [] h = absurd (omega (arith, h.sized))
    last_nul (suc n) (b ∷ bs) h =
        last_nul n bs (record { sized = omega (arith, h.sized); ends = h.ends })

c_string-cut_end :
    (k : ℕ) (src rest : List ℕ)
    → no_nul src ≡ true
    → c_string (take k src ++ (0 ∷ rest)) ≡ some (take k src)
c_string-cut_end zero src rest s = refl
c_string-cut_end (suc k) [] rest s = refl
c_string-cut_end (suc k) (x ∷ src) rest s = ground (arith, c_string-cut_end k src rest)

-- A string with its NUL over the front of an array.
over_front :
    {last : ℕ} {dst : List ℕ} (cs : List ℕ)
    → IsString last dst
    → length cs ≤ last
    → IsString last (cs ++ (0 ∷ drop (length cs + 1) dst))
over_front {last} {dst} cs d h = record {
  sized = omega (
    arith,
    d.sized,
    length-append cs (0 ∷ drop (length cs + 1) dst),
    length-drop (length cs + 1) dst,
  );
  ends = elim (dec_lt (length cs) last) [
    | yes below ↦
        let gap : last - length cs ≡ suc (last - (length cs + 1)) = omega arith in
        let back : length cs + 1 + (last - (length cs + 1)) ≡ last = omega arith in
        rw
          (
            get_or-append cs (0 ∷ drop (length cs + 1) dst) last 1 h,
            gap,
            get_or-drop (length cs + 1) dst (last - (length cs + 1)) 1,
            back,
          )
          d.ends
    | no above ↦
        let here : last - length cs ≡ 0 = omega arith in
        rw (get_or-append cs (0 ∷ drop (length cs + 1) dst) last 1 h, here) refl
  ];
}

-- The same of `snprintf`.
pub snprintf-IsString :
    {last : ℕ} {dst : List ℕ} (text : List ℕ)
    → IsString last dst
    → no_nul text ≡ true
    → IsString last (snprintf dst text) × (c_string (snprintf dst text) ≡ some (take last text))
unfolding snprintf
snprintf-IsString {last} {dst} text d s =
    let one : length dst - 1 ≡ last = omega (arith, d.sized) in
    (
      rw one (over_front (take last text) d (omega (arith, length-take last text))),
      rw one (c_string-cut_end last text (drop (length (take last text) + 1) dst) s),
    )
