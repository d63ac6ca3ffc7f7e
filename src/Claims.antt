-- ===== src/Claims.antt =====
-- `uvc_claim_if` and `uvc_release_if` of libuvc/src/device.c. The bit mask `devh->claimed` is a
-- function from an interface's number to its bit; numbers of 32 and more, for which the shift is
-- undefined, are left out of account.
pub mod Laws
mod Tests
use tcluvc.Prelude.{ℕ, Bool, true, false, not, ◌||◌, ◌==◌, if◌then◌else◌}
use tcluvc.Prelude.Int.{ℤ, pos, negsuc}
use tcluvc.Usb.{Usb, is_zero}

-- `devh->claimed |= 1 << idx` and `devh->claimed &= ~(1 << idx)`.
abbrev pub set_bit : (ℕ → Bool) → ℕ → ℕ → Bool
set_bit claimed idx i = if i == idx then true else claimed i

abbrev pub clear_bit : (ℕ → Bool) → ℕ → ℕ → Bool
clear_bit claimed idx i = if i == idx then false else claimed i

-- Success, LIBUSB_ERROR_NOT_FOUND (-5) or LIBUSB_ERROR_NOT_SUPPORTED (-12).
abbrev pub is_harmless : ℤ → Bool
is_harmless (pos n) = n == 0
is_harmless (negsuc n) = n == 4 || n == 11

module _ (usb : Usb) where
  open usb use {
    World, detach_kernel_driver, attach_kernel_driver, claim_interface, release_interface,
    set_interface_alt_setting,
  }

  unfoldable pub claim_if : World → (ℕ → Bool) → ℕ → ℤ × (ℕ → Bool) × World
  claim_if w claimed idx =
      if claimed idx
      then (pos 0, claimed, w)
      else (let (detached, w₁) = detach_kernel_driver w idx in
          let (ret, w₂) = claim_interface w₁ idx in
          if is_harmless detached
          then (ret, (if is_zero ret then set_bit claimed idx else claimed), w₂)
          else (detached, claimed, w₁))

  unfoldable pub release_if : World → (ℕ → Bool) → ℕ → ℤ × (ℕ → Bool) × World
  release_if w claimed idx =
      if not (claimed idx)
      then (pos 0, claimed, w)
      else (let (_, w₁) = set_interface_alt_setting w idx 0 in
          let (ret, w₂) = release_interface w₁ idx in
          let (attached, w₃) = attach_kernel_driver w₂ idx in
          if is_zero ret
          then ((if is_harmless attached then pos 0 else attached), clear_bit claimed idx, w₃)
          else (ret, claimed, w₂))
