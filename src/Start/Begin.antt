-- ===== src/Start/Begin.antt =====
-- `uvc_stream_start` of libuvc/src/stream.c. The transfers that libusb allocates are an argument,
-- as are whether the callback thread can be created and what each submission answers.
pub mod Outcome
use tcluvc.Prelude.{
  ℕ, suc, ◌+◌, ◌-◌, ◌*◌, Bool, true, false, not, Option, none, some, List, [], ◌∷◌, map, length,
  leb, ltb, ◌==◌, if◌then◌else◌, Run, done, fault, stuck, after, get_elem?,
}
use tcluvc.Prelude.Int.{ℤ, pos, negsuc}
use tcluvc.Usb
use tcluvc.Usb.{Usb, is_zero}
use tcluvc.Usb.Config.{AltSetting}
use tcluvc.Descriptors.{FrameDesc, FormatDesc, StreamingInterface}
use tcluvc.StreamCtrl.Find.{find_frame}
use tcluvc.StreamCtrl.Formats
use tcluvc.StreamCtrl.Formats.{FrameFormat, frame_format_for_guid}
use tcluvc.StreamCtrl.Wire.{StreamCtrl}
use tcluvc.Stream.Callback.{Slot, Stream}
use tcluvc.Stream.Stop.{submit_all}
use tcluvc.Start.Plan.{Plan, config_bytes_per_packet, choose}

-- `uvc_find_frame_desc_stream`, with the frame's parent.
unfoldable pub find_with_format : List FormatDesc → ℕ → ℕ → Option (FormatDesc × FrameDesc)
find_with_format [] format_id frame_id = none
find_with_format (g ∷ gs) format_id frame_id =
    let rest = find_with_format gs format_id frame_id in
    if g.format_index == format_id
    then elim (find_frame g.frame_descs frame_id) [ none ↦ rest | some f ↦ some (g, f) ]
    else rest

-- What each transfer was filled with: the endpoint, and for isochronous transfers the packets.
pub data Filled : Type 0 where
  iso : (endpoint packets packet_size total : ℕ) → Filled
  bulk : (endpoint total : ℕ) → Filled

-- The fields of `struct uvc_stream_handle` that a start sets.
pub record Handle : Type 0 where
  pub stream : Stream
  pub frame_format : FrameFormat
  pub filled : Option Filled

-- UVC_FRAME_FORMAT_UNKNOWN.
abbrev pub is_unknown : FrameFormat → Bool
is_unknown Formats.any = true
is_unknown _ = false

abbrev pub set_running : Bool → Handle → Handle
set_running b h = record h { stream = record h.stream { running = b } }

-- `running`, `seq`, `fid`, `pts` and `last_scr`.
abbrev pub reset : Handle → Handle
reset h = record h {
  stream = record h.stream {
    running = true;
    asm = record h.stream.asm { seq = 0; fid = 0; pts = 0; last_scr = 0 };
  };
}

abbrev pub fresh_slot : ℕ → Slot
fresh_slot t = record { transfer = some t; is_deleted = false }

-- The callback thread, `none` without a callback, and the submissions.
unfoldable pub submit_transfers : Option Bool → (ℕ → ℤ) → Handle → ℤ × Handle
submit_transfers (some false) submit h = (Usb.Error.no_mem, set_running false h)
submit_transfers _ submit h =
    let (ret, slots) = submit_all submit h.stream.slots in
    (ret, record h { stream = record h.stream { slots = slots } })

abbrev pub fill : List ℕ → Filled → Handle → Handle
fill ids filled h = record h {
  stream = record h.stream { slots = map fresh_slot ids };
  filled = some filled;
}

module _ (usb : Usb) where
  open usb use {World, set_interface_alt_setting}

  -- The setting is selected, and the transfers are filled and submitted.
  unfoldable pub start_iso :
      World → Option Plan → ℕ → List ℕ → Option Bool → (ℕ → ℤ) → Handle → ℤ × Handle × World
  unfolding submit_transfers
  start_iso w none endpoint ids thread submit h = (Usb.Error.invalid_mode, set_running false h, w)
  start_iso w (some p) endpoint ids thread submit h =
      let (ret, w') =
        set_interface_alt_setting w p.setting.interface_number p.setting.alternate_setting in
      let (started, h') =
        submit_transfers thread submit
          (fill ids (iso endpoint p.packets p.packet_size p.total) h) in
      if not (is_zero ret) then (ret, set_running false h, w') else (started, h', w')

  -- From the chosen format on: isochronous iff the interface has several settings.
  unfoldable pub start_format :
      World
      → List AltSetting
      → ℕ
      → StreamCtrl
      → FrameDesc
      → List ℕ
      → Option Bool
      → (ℕ → ℤ)
      → Handle
      → Run (ℤ × Handle × World)
  unfolding config_bytes_per_packet choose submit_transfers
  start_format w alts endpoint c f ids thread submit h =
      if ltb 1 (length alts)
      then after (config_bytes_per_packet c f) (λ need.
        after (choose endpoint c.max_video_frame_size need none 0 alts)
          (λ plan. done (start_iso w plan endpoint ids thread submit h)))
      else (let (started, h') =
            submit_transfers thread submit
              (fill ids (bulk endpoint c.max_payload_transfer_size) h) in
          done (started, h', w))

  unfoldable pub stream_start :
      World
      → List (List AltSetting)
      → StreamingInterface
      → StreamCtrl
      → List ℕ
      → Option Bool
      → (ℕ → ℤ)
      → Handle
      → Run (ℤ × Handle × World)
  unfolding find_with_format
  stream_start w config i c ids thread submit h =
      if h.stream.running
      then done (Usb.Error.busy, h, w)
      else elim (find_with_format i.format_descs c.format_index c.frame_index) [
        | none ↦ done (Usb.Error.invalid_param, set_running false (reset h), w)
        | some (g, f) ↦
            let h' = record (reset h) { frame_format = frame_format_for_guid g.guid } in
            if is_unknown h'.frame_format
            then done (Usb.Error.not_supported, set_running false h', w)
            else elim (get_elem? config i.interface_number) [
              | none ↦ fault
              | some alts ↦ start_format w alts i.endpoint_address c f ids thread submit h'
            ]
      ]
