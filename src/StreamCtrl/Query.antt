-- ===== src/StreamCtrl/Query.antt =====
-- `uvc_query_stream_ctrl`, `uvc_stream_ctrl` and `uvc_probe_stream_ctrl` of libuvc/src/stream.c.
pub mod Laws
use tcluvc.Prelude.{
  ℕ, zero, suc, ◌+◌, ◌*◌, Bool, true, false, not, ◌&&◌, ◌||◌, Option, none, some, List, [], ◌∷◌,
  leb, ◌==◌, if◌then◌else◌, replicate,
}
use tcluvc.Prelude.Int.{ℤ, pos, negsuc}
use tcluvc.Usb
use tcluvc.Usb.{Usb, Setup, req_type_set, req_type_get, is_zero}
use tcluvc.Descriptors.{DeviceInfo}
use tcluvc.StreamCtrl.Find.{find_frame_desc}
use tcluvc.StreamCtrl.Wire.{StreamCtrl, encode, decode}

-- Which of the two control blocks of a streaming interface.
pub data Block : Type 0 where
  probe commit : Block

-- UVC_VS_PROBE_CONTROL and UVC_VS_COMMIT_CONTROL.
abbrev pub selector : Block → ℕ
selector probe = 0x01
selector commit = 0x02

abbrev pub wire_length : DeviceInfo → ℕ
wire_length info = if leb 0x0110 info.ctrl_if.bcd_uvc then 34 else 26

abbrev pub query_setup : StreamCtrl → Block → ℕ → Setup
query_setup c b req = record {
  request_type = if req == Usb.Request.set_cur then req_type_set else req_type_get;
  request = req;
  value = selector b * 256;
  index = c.interface_number;
}

-- For cameras that leave out the frame size.
unfoldable pub fix_frame_size : DeviceInfo → StreamCtrl → StreamCtrl
fix_frame_size info c =
    if c.max_video_frame_size == 0 || c.max_video_frame_size == 0xffffffff
    then elim (find_frame_desc info c.format_index c.frame_index) [
      | none ↦ c
      | some f ↦ record c { max_video_frame_size = f.max_video_frame_buffer_size }
    ]
    else c

-- What follows the transfer, from its result and the buffer as it left it.
unfoldable pub finish_query : DeviceInfo → StreamCtrl → ℕ → ℤ → List ℕ → ℤ × StreamCtrl
finish_query info c req (negsuc n) buf = (negsuc n, c)
finish_query info c req (pos n) buf =
    if n == 0
    then (pos 0, c)
    else if req == Usb.Request.set_cur
    then (pos 0, c)
    else (pos 0, fix_frame_size info (decode c buf (wire_length info) info.ctrl_if.clock_frequency))

module _ (usb : Usb) where
  open usb use {World, control_transfer}

  unfoldable pub query_stream_ctrl :
      World → DeviceInfo → StreamCtrl → Block → ℕ → ℤ × StreamCtrl × World
  unfolding finish_query
  query_stream_ctrl w info c b req =
      let buf =
        if req == Usb.Request.set_cur then encode c (wire_length info) else replicate 34 0 in
      let (err, buf', w') = control_transfer w (query_setup c b req) buf (wire_length info) in
      let (ret, c') = finish_query info c req err buf' in (ret, c', w')

  -- The stream's interface, whether it runs, and its current control block.
  unfoldable pub stream_ctrl :
      World → DeviceInfo → ℕ → Bool → StreamCtrl → StreamCtrl → ℤ × StreamCtrl × World
  stream_ctrl w info interface running current c =
      if not (interface == c.interface_number)
      then (Usb.Error.invalid_param, current, w)
      else if running
      then (Usb.Error.busy, current, w)
      else (let (ret, c', w') = query_stream_ctrl w info c commit Usb.Request.set_cur in
          (ret, (if is_zero ret then c' else current), w'))
