-- ===== src/Sd.antt =====
-- project/iot-gw/app/mount_sd.c: the monitor that mounts the partitions of the gateway's SD card.
pub mod Names
pub mod Numbers
pub mod Events
pub mod Monitor
pub mod Arrivals
pub mod Mounts
mod Tests
