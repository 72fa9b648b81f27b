-- ===== src/NetIp.antt =====
-- common/utils/network/netip.c: netmasks, the addresses of interfaces and the table of routes.
pub mod Mask
pub mod Masks
pub mod Interface
pub mod Read
pub mod Routes
pub mod DefaultRoute
mod Tests
