-- ===== src/Meter.antt =====
-- project/elec/module/src/im3332.c: the driver of the IM3332 power meter, on libmodbus and on the
-- meter's sampling device.
pub mod Modbus
pub mod Driver
pub mod Alarm
pub mod Sample
pub mod Mutex
pub mod RegisterFile
pub mod Limits
pub mod RoundTrip
pub mod Dangling
pub mod Tests
