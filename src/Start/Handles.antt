-- ===== src/Start/Handles.antt =====
-- `uvc_stream_open_ctrl` and `uvc_stream_close` of libuvc/src/stream.c, on the list of open streams.
-- Memory is there; the frame buffers of a fresh stream, its mutex and its condition are left out,
-- and so is the stop of a running stream that is closed, which Stream.Stop models.
pub mod Invariant
use tcluvc.Prelude.{
  ℕ, zero, suc, get_elem?, Bool, true, false, not, Option, none, some, List, [], ◌∷◌, ◌++◌, ◌==◌,
  if◌then◌else◌,
}
use tcluvc.Prelude.Int.{ℤ, pos}
use tcluvc.Usb
use tcluvc.Usb.{Usb, is_zero}
use tcluvc.Descriptors.{DeviceInfo, StreamingInterface}
use tcluvc.StreamCtrl.Wire.{StreamCtrl}
use tcluvc.StreamCtrl.Query.{stream_ctrl}
use tcluvc.Claims.{claim_if, release_if}

-- A stream: the number of its interface, and its current control block.
pub record OpenStream : Type 0 where
  pub interface_number : ℕ
  pub cur_ctrl : StreamCtrl

-- The fields of `struct uvc_device_handle` that opening and closing streams uses.
pub record DeviceHandle : Type 0 where
  pub info : DeviceInfo
  pub claimed : ℕ → Bool
  pub streams : List OpenStream

unfoldable pub get_stream_by_interface : List OpenStream → ℕ → Option OpenStream
get_stream_by_interface [] idx = none
get_stream_by_interface (s ∷ ss) idx =
    let rest = get_stream_by_interface ss idx in if s.interface_number == idx then some s else rest

unfoldable pub get_stream_if : List StreamingInterface → ℕ → Option StreamingInterface
get_stream_if [] idx = none
get_stream_if (s ∷ ss) idx =
    let rest = get_stream_if ss idx in if s.interface_number == idx then some s else rest

-- `calloc`.
abbrev pub no_ctrl : StreamCtrl
no_ctrl = record {
  hint = 0;
  format_index = 0;
  frame_index = 0;
  frame_interval = 0;
  key_frame_rate = 0;
  p_frame_rate = 0;
  comp_quality = 0;
  comp_window_size = 0;
  delay = 0;
  max_video_frame_size = 0;
  max_payload_transfer_size = 0;
  clock_frequency = 0;
  framing_info = 0;
  preferred_version = 0;
  min_version = 0;
  max_version = 0;
  interface_number = 0;
}

-- DL_DELETE of the stream at a place.
unfoldable pub remove_at : List OpenStream → ℕ → List OpenStream
remove_at [] n = []
remove_at (s ∷ ss) zero = ss
remove_at (s ∷ ss) (suc n) = s ∷ remove_at ss n

module _ (usb : Usb) where
  open usb use {World}

  -- A control block that the device refuses leaves the interface claimed.
  unfoldable pub stream_open_ctrl : World → DeviceHandle → StreamCtrl → ℤ × DeviceHandle × World
  unfolding get_stream_by_interface get_stream_if
  stream_open_ctrl w d c = elim (get_stream_by_interface d.streams c.interface_number) [
    | some s ↦ (Usb.Error.busy, d, w)
    | none ↦ elim (get_stream_if d.info.stream_ifs c.interface_number) [
      | none ↦ (Usb.Error.invalid_param, d, w)
      | some i ↦
          let (claim_ret, claimed', w₁) = claim_if usb w d.claimed i.interface_number in
          let d₁ = record d { claimed = claimed' } in
          let (ctrl_ret, cur_ctrl, w₂) =
            stream_ctrl usb w₁ d.info i.interface_number false no_ctrl c in
          let s : OpenStream = record {
            interface_number = i.interface_number;
            cur_ctrl = cur_ctrl;
          } in
          if not (is_zero claim_ret)
          then (claim_ret, d₁, w₁)
          else if not (is_zero ctrl_ret)
          then (ctrl_ret, d₁, w₂)
          else (pos 0, record d₁ { streams = d.streams ++ (s ∷ []) }, w₂)
    ]
  ]

  unfoldable pub stream_close : World → DeviceHandle → ℕ → DeviceHandle × World
  unfolding remove_at
  stream_close w d n = elim (get_elem? d.streams n) [
    | none ↦ (d, w)
    | some s ↦
        let (_, claimed', w') = release_if usb w d.claimed s.interface_number in
        (record d { claimed = claimed'; streams = remove_at d.streams n }, w')
  ]
