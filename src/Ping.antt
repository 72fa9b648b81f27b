-- ===== src/Ping.antt =====
-- common/utils/network/ping.c: ICMP echo requests over a raw socket.
pub mod Checksum
pub mod Packet
pub mod Replies
pub mod Changes
pub mod Session
pub mod Echo
mod Tests
