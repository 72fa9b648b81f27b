-- ===== src/Radio.antt =====
-- common/utils/rf: the radio module on its serial line.
pub mod Modem
pub mod Text
pub mod Info
pub mod Serial
pub mod Quectel
pub mod Lynq
pub mod Common
pub mod Mutex
pub mod Bounds
pub mod Substring
pub mod Results
pub mod Numbers
mod Tests
