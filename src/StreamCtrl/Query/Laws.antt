-- ===== src/StreamCtrl/Query/Laws.antt =====
-- The control block survives the wire, and what a query leaves of it on each path.
use tcluvc.Prelude.{
  ℕ, suc, ◌^◌, ◌≤◌, ◌<◌, ◌≡◌, ◌≢◌, ◌⊎◌, inl, inr, refl, ap, Bool, true, false, not, ◌||◌, none,
  some, List, ◌==◌, if◌then◌else◌, replicate, arith, Bool-cases, Option-cases,
}
use tcluvc.Prelude.Int.{ℤ, pos, negsuc}
use tcluvc.Usb
use tcluvc.Usb.{Usb, Setup}
use tcluvc.Descriptors.{FrameDesc, DeviceInfo}
use tcluvc.StreamCtrl.Find.{find_frame_desc}
use tcluvc.StreamCtrl.Wire.{StreamCtrl, encode, decode}
use tcluvc.StreamCtrl.Query.{
  Block, commit, query_setup, fix_frame_size, finish_query, query_stream_ctrl, wire_length,
  stream_ctrl,
}

-- Every field fits its C type.
pub record IsWord (c : StreamCtrl) : Type 0 where
  pub hint : c.hint < 2 ^ 16
  pub frame_interval : c.frame_interval < 2 ^ 32
  pub key_frame_rate : c.key_frame_rate < 2 ^ 16
  pub p_frame_rate : c.p_frame_rate < 2 ^ 16
  pub comp_quality : c.comp_quality < 2 ^ 16
  pub comp_window_size : c.comp_window_size < 2 ^ 16
  pub delay : c.delay < 2 ^ 16
  pub max_video_frame_size : c.max_video_frame_size < 2 ^ 32
  pub max_payload_transfer_size : c.max_payload_transfer_size < 2 ^ 32
  pub clock_frequency : c.clock_frequency < 2 ^ 32

-- The 34 bytes carry the whole control block, whatever the block they are read into held before;
-- only the interface number is not on the wire.
decode-encode :
    (c old : StreamCtrl) (clock : ℕ)
    → IsWord c
    → decode old (encode c 34) 34 clock ≡ record c { interface_number = old.interface_number }
unfolding decode encode
decode-encode c old clock w = ground arith

-- The 26 bytes of version 1.0 carry all but the version fields, which stay, and the clock
-- frequency, which comes from the device's header.
decode-encode_old :
    (c old : StreamCtrl) (clock : ℕ)
    → IsWord c
    → decode old (encode c 26) 26 clock ≡ record c {
      interface_number = old.interface_number;
      clock_frequency = clock;
      framing_info = old.framing_info;
      preferred_version = old.preferred_version;
      min_version = old.min_version;
      max_version = old.max_version;
    }
unfolding decode encode
decode-encode_old c old clock w = ground arith

-- The frame size is one that the camera can have meant.
abbrev pub HasFrameSize : StreamCtrl → Type 0
HasFrameSize c = (c.max_video_frame_size ≢ 0) × (c.max_video_frame_size ≢ 0xffffffff)

fix_frame_size_same :
    (info : DeviceInfo) (c : StreamCtrl) → HasFrameSize c → fix_frame_size info c ≡ c
unfolding fix_frame_size
fix_frame_size_same info c (a, b) = ground arith

-- A control block that the device holds is read back whole by a GET request into any other block,
-- if the device speaks version 1.1 or later, every field fits its type and the frame size is set:
-- the query succeeds, and only the interface number is the reader's own.
pub query_reads_back :
    (usb : Usb) (w w' : usb.World) (info : DeviceInfo) (c old : StreamCtrl) (b : Block) (n : ℕ)
    → 0x0110 ≤ info.ctrl_if.bcd_uvc
    → IsWord c
    → HasFrameSize c
    → usb.control_transfer w (query_setup old b Usb.Request.get_cur) (replicate 34 0) 34
      ≡ (pos (suc n), encode c 34, w')
    → query_stream_ctrl usb w info old b Usb.Request.get_cur
      ≡ (pos 0, record c { interface_number = old.interface_number }, w')
unfolding query_stream_ctrl
query_reads_back usb w w' info c old b n new word size answer = ground (
  arith,
  answer,
  decode-encode c old info.ctrl_if.clock_frequency word,
  fix_frame_size_same info (record c { interface_number = old.interface_number }) size,
)

-- The frame size can be meant, or is that of the descriptor of the block's frame, or the device
-- has no such descriptor.
abbrev pub IsSized : DeviceInfo → StreamCtrl → Type 0
IsSized info c =
    HasFrameSize c
    ⊎ (find_frame_desc info c.format_index c.frame_index ≡ none)
    ⊎ ((f : FrameDesc) × (find_frame_desc info c.format_index c.frame_index ≡ some f)
        × (c.max_video_frame_size ≡ f.max_video_frame_buffer_size))

fix_frame_size-IsSized : (info : DeviceInfo) (c : StreamCtrl) → IsSized info (fix_frame_size info c)
unfolding fix_frame_size
fix_frame_size-IsSized info c =
    elim (Bool-cases (c.max_video_frame_size == 0 || c.max_video_frame_size == 0xffffffff)) [
      | inl missing ↦ elim (Option-cases (find_frame_desc info c.format_index c.frame_index)) [
        | inl e ↦ rw (missing, e) (inr (inl e))
        | inr (f, e) ↦ rw (missing, e) (inr (inr (f, e, refl)))
      ]
      | inr there ↦ rw there (inl (ground (arith, there), ground (arith, there)))
    ]

-- After a query that read a control block from the device, whatever bytes came, the block's frame
-- size is neither 0 nor 0xffffffff, or it is that of the descriptor of the frame that the block
-- names, or the device has no descriptor of that frame.
pub query_sizes_frame :
    (usb : Usb) (w w' : usb.World) (info : DeviceInfo) (c : StreamCtrl) (b : Block) (req n : ℕ)
    (buf : List ℕ)
    → req ≢ Usb.Request.set_cur
    → usb.control_transfer w (query_setup c b req) (replicate 34 0) (wire_length info)
      ≡ (pos (suc n), buf, w')
    → IsSized info (query_stream_ctrl usb w info c b req).1
unfolding query_stream_ctrl
query_sizes_frame usb w w' info c b req n buf get answer = rw e (fix_frame_size-IsSized info _)
  where
    e :
        (query_stream_ctrl usb w info c b req).1
        ≡ fix_frame_size info (decode c buf (wire_length info) info.ctrl_if.clock_frequency)
    e = ground (arith, answer)

-- `uvc_error_t` of a query: a count of bytes is success.
abbrev pub status : ℤ → ℤ
status (pos n) = pos 0
status (negsuc n) = negsuc n

abbrev pub moves_bytes : ℤ → Bool
moves_bytes (pos n) = not (n == 0)
moves_bytes (negsuc n) = false

finish_query_keeps :
    (info : DeviceInfo) (c : StreamCtrl) (req : ℕ) (err : ℤ) (buf : List ℕ)
    → (req ≡ Usb.Request.set_cur) ⊎ (moves_bytes err ≡ false)
    → finish_query info c req err buf ≡ (status err, c)
unfolding finish_query
finish_query_keeps info c req (pos n) buf h = ground arith
finish_query_keeps info c req (negsuc n) buf h = refl

-- A query that libusb refuses or that moves no byte, and every SET_CUR, leaves the control block as
-- it was, and reports libusb's error or success.
pub query_keeps_block :
    (usb : Usb) (w w' : usb.World) (info : DeviceInfo) (c : StreamCtrl) (b : Block) (req : ℕ)
    (err : ℤ) (buf : List ℕ)
    → usb.control_transfer w
        (query_setup c b req)
        (if req == Usb.Request.set_cur then encode c (wire_length info) else replicate 34 0)
        (wire_length info)
      ≡ (err, buf, w')
    → (req ≡ Usb.Request.set_cur) ⊎ (moves_bytes err ≡ false)
    → query_stream_ctrl usb w info c b req ≡ (status err, c, w')
unfolding query_stream_ctrl
query_keeps_block usb w w' info c b req err buf answer h =
    ground (arith, answer, finish_query_keeps info c req err buf h)

set_cur_keeps :
    (usb : Usb) (w : usb.World) (info : DeviceInfo) (c : StreamCtrl) (b : Block)
    → (query_stream_ctrl usb w info c b Usb.Request.set_cur).1 ≡ c
unfolding query_stream_ctrl
set_cur_keeps usb w info c b =
    ap (λ r. r.1) (finish_query_keeps info c Usb.Request.set_cur answer.0 answer.1 (inl refl))
  where
    answer : ℤ × List ℕ × usb.World
    answer =
        usb.control_transfer w (query_setup c b Usb.Request.set_cur) (encode c (wire_length info))
          (wire_length info)

-- `uvc_stream_ctrl` either succeeds, and the block asked for is the stream's current one, or
-- reports an error and leaves the current block.
pub stream_ctrl_outcome :
    (usb : Usb) (w : usb.World) (info : DeviceInfo) (interface : ℕ) (running : Bool)
    (current c : StreamCtrl)
    → let (ret, after, _) = stream_ctrl usb w info interface running current c in
      ((ret ≡ pos 0) × (after ≡ c)) ⊎ ((ret ≢ pos 0) × (after ≡ current))
unfolding stream_ctrl
stream_ctrl_outcome usb w info interface running current c =
    grind (arith, set_cur_keeps usb w info c commit)

-- A block of another interface, or a stream that runs, is refused: an error, the current block as
-- it was, and nothing sent to the device.
pub stream_ctrl_refuses :
    (usb : Usb) (w : usb.World) (info : DeviceInfo) (interface : ℕ) (running : Bool)
    (current c : StreamCtrl)
    → (interface ≢ c.interface_number) ⊎ (running ≡ true)
    → let (ret, after, w') = stream_ctrl usb w info interface running current c in
      (ret ≢ pos 0) × (after ≡ current) × (w' ≡ w)
unfolding stream_ctrl
stream_ctrl_refuses usb w info interface running current c h = ground arith
