-- ===== src/NetIp/DefaultRoute.antt =====
-- What `net_check_default_route` of common/utils/network/netip.c tells of the table of routes.
use linux_comon.Prelude.{
  ℕ, ◌≡◌, refl, sym, ap, ◌∙◌, Bool, true, false, not, ◌&&◌, ◌||◌, some, List, [], ◌∷◌, ◌++◌, map,
  arith, length, Bool-cases, inl, inr, same_bytes, lt→ltb,
}
use linux_comon.Gpio.Files.{◌>>=◌, pure}
use linux_comon.Radio.Text.{codes, starts_with, strtok, strtok_from, ended}
use linux_comon.NetIp.Interface.{Netif}
use linux_comon.NetIp.Routes.{
  is_tab, field, is_default_row, any_default, read_routes, net_check_default_route,
}

-- A row of the table: what stands in its first three columns, and the rest of its line.
pub record Row : Type 0 where
  pub iface : List ℕ
  pub destination : List ℕ
  pub gateway : List ℕ
  pub others : List ℕ

abbrev pub row_line : Row → List ℕ
row_line r = r.iface ++ (b'\t' ∷ (r.destination ++ (b'\t' ∷ (r.gateway ++ (b'\t' ∷ r.others)))))

abbrev pub no_tab : List ℕ → Bool
no_tab [] = true
no_tab (c ∷ cs) = not (is_tab c) && no_tab cs

-- A column is not empty and holds no tab.
abbrev pub IsColumn : List ℕ → Type 0
IsColumn [] = ⊥
IsColumn (c ∷ cs) = no_tab (c ∷ cs) ≡ true

-- A row that the kernel writes: more columns follow, and no interface is called "Iface…".
pub record IsRow (r : Row) : Type 0 where
  pub iface_column : IsColumn r.iface
  pub destination_column : IsColumn r.destination
  pub gateway_column : IsColumn r.gateway
  pub more : (c : ℕ) × (cs : List ℕ) × ((r.others ≡ c ∷ cs) × (is_tab c ≡ false))
  pub no_title : starts_with (codes "Iface") (row_line r) ≡ false

abbrev pub AllRows : List Row → Type 0
AllRows [] = Unit
AllRows (r ∷ rows) = IsRow r × AllRows rows

-- A default route over the interface.
abbrev pub is_default : List ℕ → Row → Bool
is_default ifc r =
    (same_bytes r.destination (codes "00000000")
      || (same_bytes r.gateway (codes "UG") || same_bytes r.gateway (codes "UGH")))
    && same_bytes r.iface ifc

abbrev pub some_default : List ℕ → List Row → Bool
some_default ifc [] = false
some_default ifc (r ∷ rows) = is_default ifc r || some_default ifc rows

append_assoc : (xs ys zs : List ℕ) → (xs ++ ys) ++ zs ≡ xs ++ (ys ++ zs)
append_assoc [] ys zs = refl
append_assoc (x ∷ xs) ys zs = ap (◌∷◌ x) (append_assoc xs ys zs)

append_nil : (xs : List ℕ) → xs ++ [] ≡ xs
append_nil [] = refl
append_nil (x ∷ xs) = ap (◌∷◌ x) (append_nil xs)

-- A column up to its tab ends the piece.
strtok_from-column :
    (piece col rest : List ℕ)
    → no_tab col ≡ true
    → strtok_from is_tab piece (col ++ (b'\t' ∷ rest))
      ≡ ended (piece ++ col) (strtok_from is_tab [] rest)
strtok_from-column piece [] rest h =
    ap (λ p. ended p (strtok_from is_tab [] rest)) (sym (append_nil piece))
strtok_from-column piece (c ∷ cs) rest h = elim (Bool-cases (is_tab c)) [
  | inl tab ↦ absurd (ground (arith, h, tab))
  | inr free ↦
      let tail : no_tab cs ≡ true = ground (arith, h, free) in
      rw free (
        strtok_from-column (piece ++ (c ∷ [])) cs rest tail
        ∙ ap (λ p. ended p (strtok_from is_tab [] rest)) (append_assoc piece (c ∷ []) cs))
]

strtok-column :
    (col rest : List ℕ)
    → IsColumn col
    → strtok is_tab (col ++ (b'\t' ∷ rest)) ≡ col ∷ strtok is_tab rest
strtok-column [] rest h = absurd h
strtok-column (c ∷ cs) rest h = strtok_from-column [] (c ∷ cs) rest h

-- What follows gives a piece more.
strtok_from-some :
    (c : ℕ) (piece cs : List ℕ)
    → (q : List ℕ) × (qs : List (List ℕ)) × (strtok_from is_tab (c ∷ piece) cs ≡ q ∷ qs)
strtok_from-some c piece [] = (c ∷ piece, [], refl)
strtok_from-some c piece (d ∷ cs) = elim (Bool-cases (is_tab d)) [
  | inl tab ↦ (c ∷ piece, strtok_from is_tab [] cs, rw tab refl)
  | inr free ↦ let (q, qs, e) = strtok_from-some c (piece ++ (d ∷ [])) cs in (q, qs, rw free e)
]

-- The pieces of a row: the three columns, and more behind them.
strtok-row_line :
    (r : Row)
    → IsRow r
    → (q : List ℕ) × (qs : List (List ℕ)) × (strtok is_tab (row_line r)
        ≡ r.iface ∷ r.destination ∷ r.gateway ∷ q ∷ qs)
strtok-row_line r h =
    let (c, cs, (others, free)) = h.more in
    let (q, qs, last) = strtok_from-some c [] cs in
    let rest : strtok is_tab r.others ≡ q ∷ qs = ap (strtok is_tab) others ∙ rw free last in
    (
      q,
      qs,
      strtok-column r.iface _ h.iface_column
          ∙ (ap (◌∷◌ r.iface) (strtok-column r.destination _ h.destination_column)
              ∙ (ap (λ l. r.iface ∷ r.destination ∷ l) (strtok-column r.gateway _ h.gateway_column)
                  ∙ ap (λ l. r.iface ∷ r.destination ∷ r.gateway ∷ l) rest)),
    )

-- The first three fields are the first three columns.
fields :
    (a b c q : List ℕ) (qs : List (List ℕ))
    → (field (a ∷ b ∷ c ∷ q ∷ qs) 1 ≡ a)
      × (field (a ∷ b ∷ c ∷ q ∷ qs) 2 ≡ b)
      × (field (a ∷ b ∷ c ∷ q ∷ qs) 3 ≡ c)
fields a b c q qs = (
  rw (lt→ltb 1 (length (a ∷ b ∷ c ∷ q ∷ qs)) (omega arith)) refl,
  rw (lt→ltb 2 (length (a ∷ b ∷ c ∷ q ∷ qs)) (omega arith)) refl,
  rw (lt→ltb 3 (length (a ∷ b ∷ c ∷ q ∷ qs)) (omega arith)) refl,
)

is_default_row-is_default :
    (ifc : List ℕ) (r : Row) → IsRow r → is_default_row ifc (row_line r) ≡ is_default ifc r
unfolding is_default_row
is_default_row-is_default ifc r h =
    let (q, qs, e) = strtok-row_line r h in
    let (f1, f2, f3) = fields r.iface r.destination r.gateway q qs in
    rw (e, f1, f2, f3, h.no_title) refl

any_default-some_default :
    (ifc : List ℕ) (rows : List Row)
    → AllRows rows
    → any_default ifc (map row_line rows) ≡ some_default ifc rows
unfolding any_default
any_default-some_default ifc [] h = refl
any_default-some_default ifc (r ∷ rows) (one, all) =
    rw (is_default_row-is_default ifc r one, any_default-some_default ifc rows all) refl

-- Over a table with a title and rows in the form that the kernel writes, `net_check_default_route`
-- tells whether some row of the interface has the destination 00000000, or the gateway "UG" or "UGH".
-- An interface is the one asked for only if the whole names are equal.
pub net_check_default_route-some_default :
    {World : Type 0} (n : Netif World) (ifc title : List ℕ) (rows : List Row) (w : World)
    → starts_with (codes "Iface") title ≡ true
    → AllRows rows
    → (n.read_routes w).0 ≡ some (title ∷ map row_line rows)
    → (net_check_default_route n ifc w).0 ≡ some_default ifc rows
unfolding net_check_default_route any_default is_default_row ◌>>=◌ pure read_routes
net_check_default_route-some_default n ifc title rows w named all table =
    rw (table, named) (any_default-some_default ifc rows all)
