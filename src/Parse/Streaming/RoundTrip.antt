-- ===== src/Parse/Streaming/RoundTrip.antt =====
-- What the blocks of a streaming interface carry is read back.
pub mod Words
pub mod Frame
pub mod Format
pub mod Interface
