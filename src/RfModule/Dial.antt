-- ===== src/RfModule/Dial.antt =====
-- `rf_module_dial` of project/iot-gw/module/src/rf.c, over the interfaces of
-- common/utils/network/netip.c.
use linux_comon.Prelude.{true, Option, none, some, ℕ, List, if◌then◌else◌}
use linux_comon.Prelude.Int.{ℤ, pos, minus_one, is_zero}
use linux_comon.Gpio.Files.{M, ◌>>=◌, ◌>>◌, pure}
use linux_comon.Radio.Text.{codes}
use linux_comon.NetIp.Interface.{Netif, netif_exist}
use linux_comon.NetIp.Routes.{net_check_default_route}
use linux_comon.RfModule.Device.{Board, route_add, dial_4g, system, poweron_rf, wait_for}

-- NET_INTF_4G
abbrev pub net_intf_4g : List ℕ
net_intf_4g = codes "usb0"

module _ {World : Type 0} (b : Board World) (n : Netif World) where
  -- The interface is there: a default route is added where none is found.
  unfoldable pub ensure_route : M World (Unit {0})
  ensure_route = net_check_default_route n net_intf_4g >>= λ found.
      if found then pure tt else (system b route_add >>= λ ret. pure tt)

  -- The interface is not there.
  unfoldable pub dial : M World ℤ
  dial = poweron_rf b >>= λ ignored. wait_for b true 10 >>= λ back.
      if back
      then (system b dial_4g >>= λ ret. pure (if is_zero ret then pos 0 else minus_one))
      else pure minus_one

  -- The process ends where `netif_exist` gets no socket: none.
  unfoldable pub rf_module_dial : M World (Option ℤ)
  unfolding ensure_route dial
  rf_module_dial = netif_exist n net_intf_4g >>= λ r. elim r [
    | none ↦ pure none
    | some exists ↦
        if exists then (ensure_route >> pure (some (pos 0))) else (dial >>= λ ret. pure (some ret))
  ]
