-- ===== src/Delivery.antt =====
-- How a held frame reaches the user (libuvc/src/stream.c): `_uvc_populate_frame` copies it out and
-- `uvc_stream_get_frame` polls for it, or `_uvc_user_caller` hands it to a callback.
pub mod Populate
pub mod Poll
pub mod Caller
pub mod Turns
mod Tests
