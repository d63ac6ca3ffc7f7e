-- ===== src/Start/Plan.antt =====
-- The choice of the alternate setting in `uvc_stream_start` (libuvc/src/stream.c). The product of a
-- frame's width, its height and 6 is one without wrap-around.
pub mod Laws
pub mod Largest
use tcluvc.Prelude.{
  ℕ, suc, ◌+◌, ◌-◌, ◌*◌, ◌/◌, ◌%◌, min, Bool, not, ◌||◌, ◌&&◌, Option, none, some, List, [], ◌∷◌,
  ltb, leb, ◌==◌, if◌then◌else◌, Run, done, fault,
}
use tcluvc.Usb.Config.{Endpoint, AltSetting}
use tcluvc.Descriptors.{FrameDesc}
use tcluvc.StreamCtrl.Wire.{StreamCtrl}

-- wMaxPacketSize: [unused:2 (multiplier-1):3 size:11], of which two bits of the multiplier are read.
abbrev pub packet_bytes : ℕ → ℕ
packet_bytes w = w % 2048 * (w / 2048 % 4 + 1)

-- The bytes per packet of the first endpoint with the address.
unfoldable pub endpoint_bytes : ℕ → List Endpoint → ℕ
endpoint_bytes address [] = 0
endpoint_bytes address (e ∷ es) =
    let rest = endpoint_bytes address es in
    if e.endpoint_address == address then packet_bytes e.max_packet_size else rest

-- The bandwidth estimation; 1000 units a kilobyte, 8 microframes a millisecond, a header of 12.
abbrev pub bandwidth : FrameDesc → ℕ → ℕ
bandwidth f interval = f.width * f.height * 6 * (10000000 / interval + 1) / 1000 / 8 + 12

-- The estimate stands for the payload size 0xFFFF.
unfoldable pub config_bytes_per_packet : StreamCtrl → FrameDesc → Run ℕ
config_bytes_per_packet c f =
    if c.frame_interval == 0
    then fault
    else done (
        if ltb 0 (bandwidth f c.frame_interval) && c.max_payload_transfer_size == 0xffff
        then bandwidth f c.frame_interval
        else c.max_payload_transfer_size)

-- The packets of a transfer: one frame, rounded up, and 32 at most.
abbrev pub packets_for : ℕ → ℕ → ℕ
packets_for frame_size bytes =
    let packets = (frame_size + bytes - 1) / bytes in if ltb 32 packets then 32 else packets

-- The setting selected, the packets of a transfer, their size, and the size of the transfer.
pub record Plan : Type 0 where
  pub setting : AltSetting
  pub packets : ℕ
  pub packet_size : ℕ
  pub total : ℕ

abbrev pub plan_for : ℕ → AltSetting → ℕ → Plan
plan_for frame_size alt bytes = record {
  setting = alt;
  packets = packets_for frame_size bytes;
  packet_size = bytes;
  total = packets_for frame_size bytes * bytes;
}

-- The largest setting, if it can carry anything; `none` is UVC_ERROR_INVALID_MODE.
unfoldable pub fall_back : ℕ → ℕ → Option AltSetting → ℕ → Run (Option Plan)
fall_back address frame_size none max_bpp = done none
fall_back address frame_size (some alt) max_bpp =
    let bytes = endpoint_bytes address alt.endpoints in
    let plan = plan_for frame_size alt bytes in
    if not (bytes == max_bpp)
    then done none
    else if bytes == 0
    then fault
    else done (if plan.packets == 0 || plan.total == 0 then none else some plan)

-- The first setting whose packets hold what the format needs, else the largest. A packet size of 0
-- is divided by where the format needs 0.
unfoldable pub choose : ℕ → ℕ → ℕ → Option AltSetting → ℕ → List AltSetting → Run (Option Plan)
unfolding endpoint_bytes fall_back
choose address frame_size need best max_bpp [] = fall_back address frame_size best max_bpp
choose address frame_size need best max_bpp (alt ∷ alts) =
    let bytes = endpoint_bytes address alt.endpoints in
    let rest =
      choose address frame_size need (if ltb max_bpp bytes then some alt else best)
        (if ltb max_bpp bytes then bytes else max_bpp) alts in
    if leb need bytes
    then (if bytes == 0 then fault else done (some (plan_for frame_size alt bytes)))
    else rest
