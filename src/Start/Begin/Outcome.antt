-- ===== src/Start/Begin/Outcome.antt =====
-- What a start leaves behind, on every path.
use tcluvc.Prelude.{ℕ, ◌≡◌, ◌⊎◌, Bool, true, false, Option, some, List, map}
use tcluvc.Prelude.Int.{ℤ}
use tcluvc.Usb.{Usb, is_zero}
use tcluvc.StreamCtrl.Wire.{StreamCtrl}
use tcluvc.Stream.Stop.{submit_all}
use tcluvc.Start.Plan.{Plan}
use tcluvc.Start.Begin.{Handle, Filled, fresh_slot}

-- The transfers were handed to libusb, in fresh slots, by a stream that is reset and runs.
pub record IsSubmitted (ids : List ℕ) (submit : ℕ → ℤ) (ret : ℤ) (h : Handle) : Type 0 where
  pub running : h.stream.running ≡ true
  pub seq : h.stream.asm.seq ≡ 0
  pub fid : h.stream.asm.fid ≡ 0
  pub transfers : (ret, h.stream.slots) ≡ submit_all submit (map fresh_slot ids)
  pub filled : (f : Filled) × (h.filled ≡ some f)

abbrev pub IsStarted : List ℕ → (ℕ → ℤ) → ℤ → Handle → Type 0
IsStarted ids submit ret h =
    ((is_zero ret ≡ false) × (h.stream.running ≡ false)) ⊎ IsSubmitted ids submit ret h

-- A stream that is about to be started.
record IsReset (h : Handle) : Type 0 where
  running : h.stream.running ≡ true
  seq : h.stream.asm.seq ≡ 0
  fid : h.stream.asm.fid ≡ 0

module _ (usb : Usb) (ids : List ℕ) (thread : Option Bool) (submit : ℕ → ℤ) where
  abbrev Started : ℤ × Handle × usb.World → Type 0
  Started (ret, h, w) = IsStarted ids submit ret h
