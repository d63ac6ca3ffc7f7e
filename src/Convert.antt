-- ===== src/Convert.antt =====
-- The conversions of libuvc/src/frame.c: the pixel macros (`Pixels`), the loop that every
-- conversion runs (`Loop`), and the functions on frames (`Frames`). That the frame converted and
-- the frame written are one object is not modelled.
pub mod Pixels
pub mod Colour
pub mod Loop
pub mod Frames
mod Tests
