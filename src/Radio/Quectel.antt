-- ===== src/Radio/Quectel.antt =====
-- common/utils/rf/rf_quectel.c: the commands that a module of Quectel understands.
pub mod Device
pub mod Signal
pub mod Control
