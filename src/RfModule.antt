-- ===== src/RfModule.antt =====
-- project/iot-gw/module/src/rf.c: the radio module of the gateway, over common/utils/rf and
-- common/utils/network.
pub mod Device
pub mod Reset
pub mod Info
pub mod Dial
mod Tests
