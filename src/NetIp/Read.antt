-- ===== src/NetIp/Read.antt =====
-- `get_addr` of common/utils/network/netip.c and the functions that call it.
use linux_comon.Prelude.{
  ℕ, ◌+◌, ◌/◌, ◌%◌, Option, none, some, List, [], ◌∷◌, ◌++◌, ltb, if◌then◌else◌, take,
}
use linux_comon.Prelude.Int.{ℤ, pos, minus_one, negative}
use linux_comon.Gpio.Files.{M, ◌>>=◌, ◌>>◌, pure}
use linux_comon.Params.Strings.{decimal, snprintf}
use linux_comon.Radio.Text.{codes}
use linux_comon.NetIp.Interface.{
  GetFlag, siocgifaddr, siocgifnetmask, siocgifhwaddr, Netif, socket, run,
}

-- "%2.2x"
abbrev pub lower_digit : ℕ → ℕ
lower_digit d = if ltb d 10 then 48 + d else 87 + d

abbrev pub hex_byte : ℕ → List ℕ
hex_byte b = lower_digit (b / 16) ∷ lower_digit (b % 16) ∷ []

-- Bytes with a separator between them.
abbrev pub joined : (ℕ → List ℕ) → ℕ → List ℕ → List ℕ
joined text separator [] = []
joined text separator (b ∷ []) = text b
joined text separator (b ∷ (c ∷ bytes)) = text b ++ (separator ∷ joined text separator (c ∷ bytes))

-- The text of the bytes: the six of a hardware address, or the four of an address of IPv4.
unfoldable pub address_text : GetFlag → List ℕ → List ℕ
address_text siocgifhwaddr bytes = joined hex_byte b':' bytes ++ codes "\n"
address_text siocgifaddr bytes = joined (decimal 3) b'.' bytes
address_text siocgifnetmask bytes = joined (decimal 3) b'.' bytes

module _ {World : Type 0} (n : Netif World) where
  unfoldable pub get_address : GetFlag → ℤ → List ℕ → M World (Option (List ℕ))
  get_address flag fd name w = n.get_address flag fd name w

  -- The result, and the caller's array, which is not empty. A name of no characters is refused.
  unfoldable pub get_addr : List ℕ → GetFlag → List ℕ → M World (ℤ × List ℕ)
  unfolding address_text get_address
  get_addr netif flag o_addr = socket n >>= λ sockfd.
      if negative sockfd then pure (minus_one, o_addr) else elim netif [
        | [] ↦ run n (n.close sockfd) >> pure (minus_one, o_addr)
        | c ∷ cs ↦ get_address flag sockfd (take 14 (c ∷ cs)) >>= λ r.
            run n (n.close sockfd)
            >> pure (elim r as (λ _. ℤ × List ℕ) [
              | none ↦ (minus_one, o_addr)
              | some bytes ↦ (pos 0, snprintf o_addr (address_text flag bytes))
            ])
      ]

  unfoldable pub get_localip : List ℕ → List ℕ → M World (ℤ × List ℕ)
  unfolding get_addr
  get_localip netif o_ipaddr = get_addr netif siocgifaddr o_ipaddr

  unfoldable pub get_localnetmask : List ℕ → List ℕ → M World (ℤ × List ℕ)
  unfolding get_addr
  get_localnetmask netif o_netmask = get_addr netif siocgifnetmask o_netmask

  unfoldable pub get_localmac : List ℕ → List ℕ → M World (ℤ × List ℕ)
  unfolding get_addr
  get_localmac netif o_hwaddr = get_addr netif siocgifhwaddr o_hwaddr
