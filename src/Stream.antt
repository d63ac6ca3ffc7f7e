-- ===== src/Stream.antt =====
-- Streaming (libuvc/src/stream.c): from USB payloads to whole frames (`Payload`), the transfers
-- that carry them (`Callback`, `Stop`), and what a run of packets or of calls comes to (`Packets`,
-- `Frames`, `Lifecycle`).
pub mod Payload
pub mod Callback
pub mod Packets
pub mod Frames
pub mod Stop
pub mod Lifecycle
pub mod Started
pub mod Drain
pub mod Overrun
mod Tests
