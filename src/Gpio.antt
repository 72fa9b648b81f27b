-- ===== src/Gpio.antt =====
-- common/utils/gpio/gpio.c, and the digital channels of the gateway on top of it,
-- project/iot-gw/module/src/do.c and project/iot-gw/module/src/di.c.
pub mod Files
pub mod Pin
pub mod Channel
pub mod Led
pub mod Descriptors
pub mod Sysfs
pub mod Levels
pub mod Tests
