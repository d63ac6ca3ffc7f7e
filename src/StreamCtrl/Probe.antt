-- ===== src/StreamCtrl/Probe.antt =====
-- `uvc_probe_stream_ctrl` of libuvc/src/stream.c.
use tcluvc.Prelude.{ℕ, Bool}
use tcluvc.Prelude.Int.{ℤ}
use tcluvc.Usb
use tcluvc.Usb.{Usb}
use tcluvc.Descriptors.{DeviceInfo}
use tcluvc.Claims.{claim_if}
use tcluvc.StreamCtrl.Wire.{StreamCtrl}
use tcluvc.StreamCtrl.Query.{probe, query_stream_ctrl}

module _ (usb : Usb) where
  -- What a call leaves: its result, the control block, the claimed interfaces and libusb's state.
  abbrev pub Probed : Type 0
  Probed = ℤ × StreamCtrl × (ℕ → Bool) × usb.World

  -- The results of the claim and of the SET_CUR are ignored.
  unfoldable pub probe_stream_ctrl :
      usb.World → (ℕ → Bool) → DeviceInfo → StreamCtrl → ℤ × StreamCtrl × (ℕ → Bool) × usb.World
  probe_stream_ctrl w claimed info c =
      let (_, claimed', w₁) = claim_if usb w claimed c.interface_number in
      let (_, c₁, w₂) = query_stream_ctrl usb w₁ info c probe Usb.Request.set_cur in
      let (ret, c₂, w₃) = query_stream_ctrl usb w₂ info c₁ probe Usb.Request.get_cur in
      (ret, c₂, claimed', w₃)
