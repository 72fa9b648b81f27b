-- ===== src/NetIp/Mask.antt =====
-- `is_valid_netmask` and `is_valid_netmask2` of common/utils/network/netip.c.
use linux_comon.Prelude.{
  ℕ, ◌+◌, ◌-◌, ◌*◌, ◌%◌, ◌^◌, bit_and, Bool, true, false, Option, none, some, ◌==◌, if◌then◌else◌,
}

-- b = ~b + 1, of an `uint32_t`
unfoldable pub negate32 : ℕ → ℕ
negate32 b = (2 ^ 32 - 1 - b + 1) % 2 ^ 32

-- (b & (b - 1)) == 0
unfoldable pub one_bit : ℕ → Bool
one_bit b = bit_and b ((b + 2 ^ 32 - 1) % 2 ^ 32) == 0

unfoldable pub is_valid_netmask2 : ℕ → ℕ → Bool
unfolding negate32 one_bit
is_valid_netmask2 netmask expected =
    if one_bit (negate32 netmask)
    then (if expected == 0 then true else netmask == expected)
    else false

-- The four numbers of an address that `inet_pton` accepts are below 256; none is any other text, or
-- NULL. Then `sscanf` reads the same four, from the left.
abbrev pub Address : Type 0
Address = Option (ℕ × ℕ × ℕ × ℕ)

-- b += n[i] << (i * 8)
abbrev pub address_word : ℕ × ℕ × ℕ × ℕ → ℕ
address_word (n3, n2, n1, n0) = (n0 + n1 * 2 ^ 8 + n2 * 2 ^ 16 + n3 * 2 ^ 24) % 2 ^ 32

unfoldable pub is_valid_netmask : Address → ℕ → Bool
unfolding negate32 one_bit
is_valid_netmask none expected = false
is_valid_netmask (some address) expected =
    let bn = address_word address in
    if one_bit (negate32 bn) then (if expected == 0 then true else bn == expected) else false
