-- ===== src/NetIp/Tests.antt =====
-- The functions of common/utils/network/netip.c on a mask and on a table of routes.
use linux_comon.Prelude.{ℕ, ◌≡◌, true, false, ◌⊎◌, ◌↔◌, refl, List, [], ◌∷◌, none, some, arith}
use linux_comon.Prelude.Int.{pos}
use linux_comon.Radio.Text.{codes}
use linux_comon.NetIp.Interface.{Netif}
use linux_comon.NetIp.Routes.{net_check_default_route}
use linux_comon.NetIp.DefaultRoute.{Row, row_line, IsRow, net_check_default_route-some_default}
use linux_comon.NetIp.Mask.{is_valid_netmask, is_valid_netmask2, address_word}
use linux_comon.NetIp.Masks.{IsMask, is_valid_netmask-IsMask}

abbrev mask : ℕ
mask = 0xffffff00

abbrev any_mask : ℕ
any_mask = 0

is_valid_netmask-IsMask_example :
    ((is_valid_netmask2 mask any_mask ≡ true)
      ↔ (IsMask mask × ((any_mask ≡ 0) ⊎ (mask ≡ any_mask))))
    × (is_valid_netmask (some (255, 255, 255, 0)) 0
        ≡ is_valid_netmask2 (address_word (255, 255, 255, 0)) 0)
    × (is_valid_netmask none 0 ≡ false)
is_valid_netmask-IsMask_example = is_valid_netmask-IsMask mask any_mask 255 255 255 0 (omega arith)

-- A table with one row, and an interface on which every call works.
abbrev usb0 : Row
usb0 = record {
  iface = codes "usb0";
  destination = codes "00000000";
  gateway = codes "0101A8C0";
  others = codes "0003\t0\n";
}

abbrev title : List ℕ
title = codes "Iface\tDestination\n"

abbrev gateway_net : Netif ℕ
gateway_net = record {
  inet_pton = λ name. none;
  socket = λ w. (pos 3, w);
  get_flags = λ fd name w. (some 0, w);
  set_flags = λ fd name flags w. (pos 0, w);
  set_address = λ which fd name flags a w. (pos 0, w);
  get_address = λ which fd name w. (none, w);
  add_route = λ fd gw w. (pos 0, w);
  read_routes = λ w. (some (title ∷ row_line usb0 ∷ []), w);
  close = λ fd w. w;
  usleep = λ us w. w;
  errno = λ w. 0;
}

usb0-IsRow : IsRow usb0
usb0-IsRow = record {
  iface_column = refl;
  destination_column = refl;
  gateway_column = refl;
  more = (b'0', codes "003\t0\n", (refl, refl));
  no_title = refl;
}

net_check_default_route-some_default_example :
    (net_check_default_route gateway_net (codes "usb0") 0).0 ≡ true
net_check_default_route-some_default_example =
    net_check_default_route-some_default gateway_net (codes "usb0") title (usb0 ∷ []) 0 refl
      (usb0-IsRow, tt) refl
