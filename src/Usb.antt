-- ===== src/Usb.antt =====
-- libusb, which the program calls and does not implement: a record of operations over a state of
-- its own. A result is the `int` that libusb returns: a count of bytes or 0, or a negative code.
-- `uvc_error_t` shares those codes (libuvc/include/libuvc/libuvc.h).
pub mod Error
pub mod Request
pub mod Config
use tcluvc.Prelude.{ℕ, ◌+◌, ◌*◌, Bool, true, false, List, ◌==◌}
use tcluvc.Prelude.Int.{ℤ, pos, negsuc}

-- The setup packet of a control transfer.
pub record Setup : Type 0 where
  pub request_type : ℕ
  pub request : ℕ
  pub value : ℕ
  pub index : ℕ

pub record Usb : Type 1 where
  pub World : Type 0
  -- the buffer and how much of it is transferred; the buffer comes back as the transfer left it
  pub control_transfer : World → Setup → List ℕ → ℕ → ℤ × List ℕ × World
  pub detach_kernel_driver : World → ℕ → ℤ × World
  pub attach_kernel_driver : World → ℕ → ℤ × World
  pub claim_interface : World → ℕ → ℤ × World
  pub release_interface : World → ℕ → ℤ × World
  pub set_interface_alt_setting : World → ℕ → ℕ → ℤ × World

abbrev pub req_type_set : ℕ
req_type_set = 0x21

abbrev pub req_type_get : ℕ
req_type_get = 0xa1

abbrev pub is_zero : ℤ → Bool
is_zero (pos n) = n == 0
is_zero (negsuc n) = false

-- `ret == n` for a number of bytes.
abbrev pub is_count : ℤ → ℕ → Bool
is_count (pos m) n = m == n
is_count (negsuc m) n = false
