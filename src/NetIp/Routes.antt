-- ===== src/NetIp/Routes.antt =====
-- The table of routes in common/utils/network/netip.c: `net_check_default_route`, `get_localgateway`
-- and `set_localgateway`. A line of /proc/net/route is the list of its bytes, which fit the buffer;
-- the name of an interface fits its array.
use linux_comon.Prelude.{
  same_bytes, ℕ, ◌+◌, ◌-◌, ◌*◌, ◌/◌, ◌%◌, ◌^◌, Bool, false, not, ◌&&◌, ◌||◌, Option, none, some,
  List, [], ◌∷◌, ◌++◌, ltb, leb, ◌==◌, if◌then◌else◌, length, get_or, drop,
}
use linux_comon.Prelude.Int.{ℤ, pos, minus_one, negative}
use linux_comon.Gpio.Files.{M, ◌>>=◌, ◌>>◌, pure}
use linux_comon.Params.Strings.{decimal, snprintf}
use linux_comon.Sd.Names.{is_digit}
use linux_comon.Radio.Text.{codes, starts_with, strtok, skip_blanks, scan_word}
use linux_comon.NetIp.Interface.{Netif, socket, run, is_valid_ip}

abbrev pub is_tab : ℕ → Bool
is_tab c = c == b'\t'

-- fields[k]: the piece in front of the one that call `k` of `strtok` gives, and nothing where that call
-- gives NULL.
abbrev pub field : List (List ℕ) → ℕ → List ℕ
field pieces k = if ltb k (length pieces) then get_or pieces (k - 1) [] else []

-- The tests on a line. `fields[2]` holds the destination and `fields[3]` the gateway.
unfoldable pub is_default_row : List ℕ → List ℕ → Bool
is_default_row ifc line =
    let pieces = strtok is_tab line in
    let gateway = field pieces 3 in
    not (starts_with (codes "Iface") line)
    && ((same_bytes (field pieces 2) (codes "00000000")
          || (same_bytes gateway (codes "UG") || same_bytes gateway (codes "UGH")))
        && same_bytes (field pieces 1) ifc)

unfoldable pub any_default : List ℕ → List (List ℕ) → Bool
unfolding is_default_row
any_default ifc [] = false
any_default ifc (line ∷ lines) = is_default_row ifc line || any_default ifc lines

-- "%lX" of a number without a sign and without "0x".
abbrev pub is_hex : ℕ → Bool
is_hex c = is_digit c || ((leb 65 c && leb c 70) || (leb 97 c && leb c 102))

abbrev pub hex_value : ℕ → ℕ
hex_value c = if is_digit c then c - 48 else if leb c 70 then c - 55 else c - 87

abbrev pub read_hex : ℕ → List ℕ → ℕ × List ℕ
read_hex n [] = (n, [])
read_hex n (c ∷ cs) =
    let more = read_hex (n * 16 + hex_value c) cs in if is_hex c then more else (n, c ∷ cs)

abbrev pub scan_hex_digits : List ℕ → Option (ℕ × List ℕ)
scan_hex_digits [] = none
scan_hex_digits (c ∷ cs) = if is_hex c then some (read_hex 0 (c ∷ cs)) else none

abbrev pub scan_hex : List ℕ → Option (ℕ × List ℕ)
scan_hex s = scan_hex_digits (skip_blanks s)

-- "%s\t%lX\t%lX": the interface, the destination and the gateway.
unfoldable pub scan_route : List ℕ → Option (List ℕ × ℕ × ℕ)
scan_route line = elim (scan_word line) as (λ _. Option (List ℕ × ℕ × ℕ)) [
  | none ↦ none
  | some (iface, rest) ↦ elim (scan_hex rest) as (λ _. Option (List ℕ × ℕ × ℕ)) [
    | none ↦ none
    | some (dest, rest') ↦ elim (scan_hex rest') as (λ _. Option (List ℕ × ℕ × ℕ)) [
      | none ↦ none
      | some (gate, _) ↦ some (iface, dest, gate)
    ]
  ]
]

-- The loop of `get_localgateway`: what `inp` holds behind it. A line of another interface is passed
-- over if its name is no beginning of `netif`.
unfoldable pub find_gateway : List ℕ → List (List ℕ) → ℕ
unfolding scan_route
find_gateway netif [] = 2 ^ 32 - 1
find_gateway netif (line ∷ lines) =
    let rest = find_gateway netif lines in
    elim (scan_route line) as (λ _. ℕ) [
      | none ↦ rest
      | some (iface, dest, gate) ↦
          if (dest == 0) && (not (gate == 0) && starts_with iface netif)
          then gate % 2 ^ 32
          else rest
    ]

-- `inet_ntoa`: the low byte of `s_addr` is the first number.
unfoldable pub inet_ntoa : ℕ → List ℕ
inet_ntoa a =
    decimal 3 (a % 256)
    ++ (b'.'
        ∷ (decimal 3 (a / 2 ^ 8 % 256)
            ++ (b'.' ∷ (decimal 3 (a / 2 ^ 16 % 256) ++ (b'.' ∷ decimal 3 (a / 2 ^ 24 % 256))))))

-- The result and the caller's array, which is not empty.
unfoldable pub gateway_result : ℕ → List ℕ → ℤ × List ℕ
unfolding inet_ntoa
gateway_result inp o_gw =
    if inp == 2 ^ 32 - 1 then (minus_one, o_gw) else (pos 0, snprintf o_gw (inet_ntoa inp))

module _ {World : Type 0} (n : Netif World) where
  -- fopen, fgets and fclose of /proc/net/route
  unfoldable pub read_routes : M World (Option (List (List ℕ)))
  read_routes w = n.read_routes w

  unfoldable pub net_check_default_route : List ℕ → M World Bool
  unfolding any_default read_routes
  net_check_default_route ifc = read_routes >>= λ r.
      pure (elim r as (λ _. Bool) [ none ↦ false | some lines ↦ any_default ifc lines ])

  -- The first line is the title.
  unfoldable pub get_localgateway : List ℕ → List ℕ → M World (ℤ × List ℕ)
  unfolding find_gateway gateway_result read_routes
  get_localgateway netif o_gw = read_routes >>= λ r. pure (elim r as (λ _. ℤ × List ℕ) [
    | none ↦ (minus_one, o_gw)
    | some lines ↦ gateway_result (find_gateway netif (drop 1 lines)) o_gw
  ])

  -- SIOCADDRT; 17 is EEXIST.
  unfoldable pub add_route : ℤ → ℕ × ℕ × ℕ × ℕ → M World ℤ
  add_route fd gw w = n.add_route fd gw w

  unfoldable pub get_errno : M World ℕ
  get_errno w = (n.errno w, w)

  unfoldable pub set_localgateway : Option (List ℕ) → M World ℤ
  unfolding add_route get_errno
  set_localgateway gw = elim (is_valid_ip n gw) [
    | none ↦ pure minus_one
    | some a ↦ socket n >>= λ fd.
        if negative fd
        then pure minus_one
        else (add_route fd a >>= λ ret.
            if negative ret
            then (get_errno >>= λ lerrno.
                run n (n.close fd) >> pure (if lerrno == 17 then pos 0 else minus_one))
            else (run n (n.close fd) >> pure (pos 0)))
  ]
