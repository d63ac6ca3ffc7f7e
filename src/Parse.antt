-- ===== src/Parse.antt =====
-- The parsing of descriptors in libuvc/src/device.c: the loop over blocks (`Scan`), the blocks of a
-- VideoStreaming interface (`Streaming`) and of the VideoControl interface (`Control`).
pub mod Scan
pub mod Streaming
pub mod Control
pub mod Termination
mod Tests
