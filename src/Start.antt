-- ===== src/Start.antt =====
-- Opening and starting a stream (libuvc/src/stream.c): the alternate setting and the transfers that
-- `uvc_stream_start` chooses (`Plan`), the function itself (`Begin`), and `uvc_stream_open_ctrl`
-- and `uvc_stream_close` on the list of open streams (`Handles`).
pub mod Plan
pub mod Begin
pub mod Handles
mod Tests
