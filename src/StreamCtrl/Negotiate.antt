-- ===== src/StreamCtrl/Negotiate.antt =====
-- `uvc_get_stream_ctrl_format_size` of libuvc/src/stream.c: the search for a frame of the wanted
-- format, size and rate, and the probe of the block found. A division by zero is `none`.
pub mod Search
pub mod Fits
pub mod Outcome
mod Tests
use tcluvc.Prelude.{
  ℕ, ◌+◌, ◌-◌, ◌/◌, ◌%◌, ◌^◌, Bool, true, false, not, ◌&&◌, ◌||◌, Option, none, some, ◌>>=◌, List,
  [], ◌∷◌, leb, ◌==◌, if◌then◌else◌,
}
use tcluvc.Prelude.Int.{ℤ, pos, negsuc}
use tcluvc.Usb
use tcluvc.Usb.{Usb, is_zero}
use tcluvc.Descriptors.{FrameDesc, FormatDesc, StreamingInterface, DeviceInfo}
use tcluvc.StreamCtrl.Wire.{StreamCtrl}
use tcluvc.StreamCtrl.Query.{probe, query_stream_ctrl}
use tcluvc.StreamCtrl.Formats.{FrameFormat, matches_guid}
use tcluvc.StreamCtrl.Probe.{probe_stream_ctrl}

-- A loop over a list that ends with the first element for which the body reports a find.
unfoldable pub search {ℓ κ} :
    {A : Type ℓ} {S : Type κ} → (A → S → Option (Bool × S)) → List A → S → Option (Bool × S)
search body [] s = some (false, s)
search body (x ∷ xs) s = do
  (found, s') ← body x s
  elim found [ true ↦ some (true, s') | false ↦ search body xs s' ]

-- The list of intervals ends with a zero.
abbrev pub until_zero : List ℕ → List ℕ
until_zero [] = []
until_zero (v ∷ vs) = let rest = until_zero vs in if v == 0 then [] else v ∷ rest

-- What the caller asks for. `fps` is an `int`; a negative rate is left out of account.
pub record Wanted : Type 0 where
  pub format : FrameFormat
  pub width : ℕ
  pub height : ℕ
  pub fps : ℕ

module _ (usb : Usb) (info : DeviceInfo) where
  abbrev pub State : Type 0
  State = StreamCtrl × usb.World

  -- UVC_GET_MAX on the interface, and the fields of the frame.
  unfoldable pub propose :
      StreamingInterface
      → FormatDesc
      → FrameDesc
      → ℕ
      → StreamCtrl × usb.World
      → StreamCtrl × usb.World
  propose i f d interval (c, w) =
      let (_, c₁, w₁) =
        query_stream_ctrl usb w info (record c { interface_number = i.interface_number }) probe
          Usb.Request.get_max in
      (
        record c₁ {
          hint = 1;
          format_index = f.format_index;
          frame_index = d.frame_index;
          frame_interval = interval;
        },
        w₁,
      )

  unfoldable pub try_interval :
      Wanted
      → StreamingInterface
      → FormatDesc
      → FrameDesc
      → ℕ
      → StreamCtrl × usb.World
      → Option (Bool × (StreamCtrl × usb.World))
  try_interval q i f d interval s =
      if 10000000 / interval == q.fps || q.fps == 0
      then some (
          let (c, w) = propose i f d interval s in
          let (_, cur, w₁) = query_stream_ctrl usb w info c probe Usb.Request.set_cur in
          let (_, cur', w₂) = query_stream_ctrl usb w₁ info cur probe Usb.Request.get_cur in
          (not (cur'.max_payload_transfer_size == 0xFFFF), (c, w₂)))
      else some (false, s)

  -- A frame with a range of intervals; the difference is that of 32-bit words.
  unfoldable pub try_range :
      Wanted
      → StreamingInterface
      → FormatDesc
      → FrameDesc
      → StreamCtrl × usb.World
      → Option (Bool × (StreamCtrl × usb.World))
  try_range q i f d s =
      if q.fps == 0
      then none
      else (let interval = 10000000 / q.fps in
          let offset = (interval + 2 ^ 32 - d.min_frame_interval) % 2 ^ 32 in
          if leb d.min_frame_interval interval && leb interval d.max_frame_interval
          then (if offset == 0
              then some (true, propose i f d interval s)
              else if d.frame_interval_step == 0
              then none
              else if offset % d.frame_interval_step == 0
              then some (true, propose i f d interval s)
              else some (false, s))
          else some (false, s))

  unfoldable pub try_frame :
      Wanted
      → StreamingInterface
      → FormatDesc
      → FrameDesc
      → StreamCtrl × usb.World
      → Option (Bool × (StreamCtrl × usb.World))
  try_frame q i f d s =
      if not (d.width == q.width && d.height == q.height)
      then some (false, s)
      else elim d.intervals [
        | none ↦ try_range q i f d s
        | some vs ↦ search (try_interval q i f d) (until_zero vs) s
      ]

  unfoldable pub try_format :
      Wanted
      → StreamingInterface
      → FormatDesc
      → StreamCtrl × usb.World
      → Option (Bool × (StreamCtrl × usb.World))
  try_format q i f s =
      if not (matches_guid q.format f.guid)
      then some (false, s)
      else search (try_frame q i f) f.frame_descs s

  unfoldable pub find_ctrl :
      Wanted → StreamCtrl × usb.World → Option (Bool × (StreamCtrl × usb.World))
  find_ctrl q = search (λ i. search (try_format q i) i.format_descs) info.stream_ifs

  unfoldable pub get_stream_ctrl_format_size :
      usb.World
      → (ℕ → Bool)
      → StreamCtrl
      → Wanted
      → Option (ℤ × StreamCtrl × (ℕ → Bool) × usb.World)
  get_stream_ctrl_format_size w claimed c q = do
    (found, (c₁, w₁)) ← find_ctrl q (c, w)
    elim found [
      | false ↦ some (Usb.Error.invalid_mode, c₁, claimed, w₁)
      | true ↦
          let (ret, c₂, claimed₂, w₂) = probe_stream_ctrl usb w₁ claimed info c₁ in
          some (
            if is_zero ret
            then (ret, c₂, claimed₂, w₂)
            else probe_stream_ctrl usb w₂ claimed₂ info (record c₂ { hint = 0 }))
    ]
