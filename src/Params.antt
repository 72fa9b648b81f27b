-- ===== src/Params.antt =====
-- project/elec/module/src/ModParam.c: the parameters of the power meter's application, kept in one
-- static struct.
pub mod Strings
pub mod State
pub mod Reset
pub mod Events
pub mod Terminated
pub mod Setters
pub mod Broker
pub mod Topics
pub mod Coherence
pub mod Access
pub mod Uuid
mod Tests
