-- ===== src/Daemon.antt =====
-- project/iot-gw/app/iot_daemon.c: the test daemon of the gateway, which runs the commands of its
-- clients on the board.
pub mod Package
pub mod Handlers
pub mod Process
pub mod States
pub mod Outputs
mod Tests
pub mod Inputs
pub mod Sent
