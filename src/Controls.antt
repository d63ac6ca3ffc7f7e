-- ===== src/Controls.antt =====
-- Camera controls: the control transfers that libuvc/src/ctrl-gen.c writes out once for every
-- control, on any terminal or unit and any list of fields. `Camera`, `Processing` and `Selector`
-- have the functions of that file, and `Generic` those of libuvc/src/ctrl.c.
pub mod Fields
pub mod Transfer
pub mod Generic
pub mod Camera
pub mod Processing
pub mod Selector
pub mod Table
pub mod Address
pub mod Calls
pub mod Rows
pub mod RoundTrip
mod Tests
