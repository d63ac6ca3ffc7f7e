-- ===== src/StreamCtrl.antt =====
-- The streaming control block of libuvc/src/stream.c: its wire format and the queries that carry
-- it (`uvc_query_stream_ctrl`, `uvc_stream_ctrl`, `uvc_probe_stream_ctrl`), and the search for a
-- frame descriptor.
pub mod Find
pub mod Wire
pub mod Query
pub mod Formats
pub mod Probe
pub mod Negotiate
mod Tests
