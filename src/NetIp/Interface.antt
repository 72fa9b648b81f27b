-- ===== src/NetIp/Interface.antt =====
-- The functions of common/utils/network/netip.c that change interfaces.
use linux_comon.Prelude.{
  ℕ, ◌-◌, bit_and, bit_or, Bool, true, false, Option, none, some, List, [], ◌∷◌, ◌==◌,
  if◌then◌else◌, take,
}
use linux_comon.Prelude.Int.{ℤ, pos, minus_one, negative, positive, is_zero, is_minus_one}
use linux_comon.Gpio.Files.{M, ◌>>=◌, ◌>>◌, pure}
use linux_comon.NetIp.Mask.{is_valid_netmask}

-- SIOCSIFADDR and SIOCSIFNETMASK
pub data AddrFlag : Type 0 where
  siocsifaddr siocsifnetmask : AddrFlag

-- SIOCGIFADDR, SIOCGIFNETMASK and SIOCGIFHWADDR
pub data GetFlag : Type 0 where
  siocgifaddr siocgifnetmask siocgifhwaddr : GetFlag

-- The calls, on an interface by its name. The results of `ioctl` are those of SIOCGIFFLAGS, with the
-- flags, of SIOCSIFFLAGS and of an `AddrFlag`, which are given the first 16 bits and the address in the
-- union of `struct ifreq`.
pub record Netif (World : Type 0) : Type 0 where
  pub inet_pton : List ℕ → Option (ℕ × ℕ × ℕ × ℕ)
  pub socket : World → ℤ × World
  pub get_flags : ℤ → List ℕ → World → Option ℕ × World
  pub set_flags : ℤ → List ℕ → ℕ → World → ℤ × World
  pub set_address : AddrFlag → ℤ → List ℕ → ℕ → ℕ × ℕ × ℕ × ℕ → World → ℤ × World
  -- The bytes of the address, or none where the call fails.
  pub get_address : GetFlag → ℤ → List ℕ → World → Option (List ℕ) × World
  -- SIOCADDRT of a gateway for all destinations.
  pub add_route : ℤ → ℕ × ℕ × ℕ × ℕ → World → ℤ × World
  -- The lines of /proc/net/route, or none where it does not open.
  pub read_routes : World → Option (List (List ℕ)) × World
  pub close : ℤ → World → World
  pub usleep : ℕ → World → World
  pub errno : World → ℕ

-- The members of the union of `struct ifreq`: `ifr_flags` shares its 16 bits with `sin_family`.
pub record Ifreq : Type 0 where
  pub ifr_flags : ℕ
  pub sin_addr : ℕ × ℕ × ℕ × ℕ

abbrev pub af_inet : ℕ
af_inet = 2

-- IFF_UP | IFF_RUNNING
abbrev pub up_running : ℕ
up_running = 0x41

-- memcpy(&ifr.ifr_addr, &sin, sizeof(struct sockaddr))
unfoldable pub with_address : ℕ × ℕ × ℕ × ℕ → Ifreq → Ifreq
with_address a i = record i { ifr_flags = af_inet; sin_addr = a }

-- ifr.ifr_flags |= IFF_UP | IFF_RUNNING
unfoldable pub raise_flags : Ifreq → Ifreq
raise_flags i = record i { ifr_flags = bit_or i.ifr_flags up_running }

-- ifr.ifr_flags &= ~(IFF_UP | IFF_RUNNING), of 16 bits
unfoldable pub lower_flags : Ifreq → Ifreq
lower_flags i = record i { ifr_flags = bit_and i.ifr_flags (0xffff - up_running) }

module _ {World : Type 0} (n : Netif World) where
  unfoldable pub socket : M World ℤ
  socket w = n.socket w

  unfoldable pub get_flags : ℤ → List ℕ → M World (Option ℕ)
  get_flags fd name w = n.get_flags fd name w

  unfoldable pub set_flags : ℤ → List ℕ → ℕ → M World ℤ
  set_flags fd name flags w = n.set_flags fd name flags w

  unfoldable pub set_address : AddrFlag → ℤ → List ℕ → Ifreq → M World ℤ
  set_address flag fd name i w = n.set_address flag fd name i.ifr_flags i.sin_addr w

  unfoldable pub run : (World → World) → M World (Unit {0})
  run f w = (tt, f w)

  -- From the label `exit_` on.
  unfoldable pub exit_with : ℤ → ℤ → M World ℤ
  exit_with sockfd res = if negative sockfd then pure res else (run (n.close sockfd) >> pure res)

  -- `is_valid_ip` on a pointer: the text of an address that is not empty.
  unfoldable pub is_valid_ip : Option (List ℕ) → Option (ℕ × ℕ × ℕ × ℕ)
  is_valid_ip none = none
  is_valid_ip (some []) = none
  is_valid_ip (some (c ∷ cs)) = n.inet_pton (c ∷ cs)

  -- From the write of the flags on; `res` is what it holds before.
  unfoldable pub bring_up : ℤ → ℤ → List ℕ → Ifreq → M World ℤ
  unfolding raise_flags
  bring_up sockfd res name i = set_flags sockfd name (raise_flags i).ifr_flags >>= λ ret.
      if negative ret
      then exit_with sockfd res
      else (run (n.usleep 100000) >> exit_with sockfd (pos 0))

  -- From `inet_pton` on, which returns 1 again, and leaves it in `res`.
  unfoldable pub write_address : ℤ → List ℕ → AddrFlag → ℕ × ℕ × ℕ × ℕ → Ifreq → M World ℤ
  unfolding with_address bring_up
  write_address sockfd name flag a i = set_address flag sockfd name (with_address a i) >>= λ ret.
      if negative ret
      then exit_with sockfd (pos 1)
      else (run (n.usleep 100000) >> bring_up sockfd (pos 1) name (with_address a i))

  -- The socket, the name and the flags, and then `next`. A name of no characters is refused.
  unfoldable pub with_interface : List ℕ → (ℤ → List ℕ → Ifreq → M World ℤ) → M World ℤ
  unfolding exit_with
  with_interface [] next = socket >>= λ sockfd. exit_with sockfd minus_one
  with_interface (c ∷ cs) next = socket >>= λ sockfd.
      if positive sockfd
      then (get_flags sockfd (take 14 (c ∷ cs)) >>= λ r. elim r [
        | none ↦ exit_with sockfd minus_one
        | some flags ↦
            next sockfd (take 14 (c ∷ cs)) (record { ifr_flags = flags; sin_addr = (0, 0, 0, 0) })
      ])
      else exit_with sockfd minus_one

  unfoldable pub set_addr : List ℕ → Option (List ℕ) → AddrFlag → M World ℤ
  unfolding write_address with_interface is_valid_ip
  set_addr netif addr flag = elim (is_valid_ip addr) [
    | none ↦ pure minus_one
    | some a ↦ with_interface netif (λ sockfd name i. write_address sockfd name flag a i)
  ]

  -- `set_localip` and `set_localnetmask`
  unfoldable pub set_localip : List ℕ → Option (List ℕ) → M World ℤ
  unfolding set_addr
  set_localip netif ipaddr = set_addr netif ipaddr siocsifaddr

  unfoldable pub set_localnetmask : List ℕ → Option (List ℕ) → M World ℤ
  unfolding set_addr
  set_localnetmask netif netmask = set_addr netif netmask siocsifnetmask

  -- Both addresses in one go: `set_ip2netmask`.
  unfoldable pub write_both : ℤ → List ℕ → ℕ × ℕ × ℕ × ℕ → ℕ × ℕ × ℕ × ℕ → Ifreq → M World ℤ
  unfolding with_address bring_up
  write_both sockfd name a mask i =
      set_address siocsifaddr sockfd name (with_address a i) >>= λ ret.
      if negative ret
      then exit_with sockfd (pos 1)
      else (set_address siocsifnetmask sockfd name (with_address mask i) >>= λ ret'.
          if negative ret'
          then exit_with sockfd (pos 1)
          else bring_up sockfd (pos 1) name (with_address mask i))

  unfoldable pub set_localip2netmask : List ℕ → Option (List ℕ) → Option (List ℕ) → M World ℤ
  unfolding write_both with_interface is_valid_ip
  set_localip2netmask netif addr netmask = elim (is_valid_ip addr) [
    | none ↦ pure minus_one
    | some a ↦ elim (is_valid_ip netmask) [
      | none ↦ pure minus_one
      | some mask ↦
          if is_valid_netmask (some mask) 0
          then with_interface netif (λ sockfd name i. write_both sockfd name a mask i)
          else pure minus_one
    ]
  ]

  -- `down_netif` and `up_netif` by the change of the flags. The name is not cut here: the callers'
  -- names have less than 16 characters.
  unfoldable pub change_netif : (Ifreq → Ifreq) → Option (List ℕ) → M World ℤ
  unfolding exit_with
  change_netif change none = pure minus_one
  change_netif change (some []) = pure minus_one
  change_netif change (some (c ∷ cs)) = socket >>= λ sockfd.
      if positive sockfd
      then (get_flags sockfd (c ∷ cs) >>= λ r. elim r [
        | none ↦ exit_with sockfd minus_one
        | some flags ↦
            set_flags sockfd (c ∷ cs)
              (change (record { ifr_flags = flags; sin_addr = (0, 0, 0, 0) })).ifr_flags
            >>= λ ret.
                if negative ret
                then exit_with sockfd minus_one
                else (run (n.usleep 100000) >> exit_with sockfd (pos 0))
      ])
      else exit_with sockfd minus_one

  unfoldable pub down_netif : Option (List ℕ) → M World ℤ
  unfolding change_netif lower_flags
  down_netif netif = change_netif lower_flags netif

  unfoldable pub up_netif : Option (List ℕ) → M World ℤ
  unfolding change_netif raise_flags
  up_netif netif = change_netif raise_flags netif

  -- The address is bound to "eth0:5", which is `check_name`, and taken down again; 17 is EEXIST.
  unfoldable pub is_valid_ip2 : List ℕ → Option (List ℕ) → M World Bool
  unfolding set_localip down_netif
  is_valid_ip2 check_name ipaddr = elim (is_valid_ip ipaddr) [
    | none ↦ pure false
    | some a ↦ set_localip check_name ipaddr >>= λ ret.
        if is_zero ret
        then (down_netif (some check_name) >>= λ down. pure (is_zero down))
        else (λ w. (n.errno w == 17, w))
  ]

  -- The process ends where the socket cannot be made: none.
  unfoldable pub netif_exist : List ℕ → M World (Option Bool)
  netif_exist ifc = socket >>= λ sockfd.
      if is_minus_one sockfd
      then pure none
      else (get_flags sockfd (take 15 ifc) >>= λ r.
          run (n.close sockfd)
          >> pure (elim r as (λ _. Option Bool) [ none ↦ some false | some _ ↦ some true ]))
