-- ===== src/FrameRing.antt =====
-- project/SmartCam/app/ringbuffer.c: the pool of five frames between capture and streaming.
pub mod Queue
pub mod Fifo
pub mod Frame
pub mod Copy
pub mod Ring
pub mod System
pub mod Ownership
pub mod Progress
pub mod Stream
pub mod Leak
mod Tests
