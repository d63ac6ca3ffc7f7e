-- ===== src/StreamCtrl/Negotiate/Fits.antt =====
-- A block found in one frame, or in the frames of one format, is one for that frame and has the
-- wanted size and rate.
use tcluvc.Prelude.{
  ℕ, ◌/◌, ◌≤◌, ◌≡◌, ◌≢◌, ◌⊎◌, inl, inr, refl, sym, Bool, true, false, ◌&&◌, none, some, List, [],
  ◌∷◌, ◌==◌, if◌then◌else◌, arith, replicate, Bool-cases, Option-cases,
}
use tcluvc.Prelude.Int.{ℤ}
use tcluvc.Usb
use tcluvc.Usb.{Usb, is_zero}
use tcluvc.Descriptors.{FrameDesc, FormatDesc, StreamingInterface, DeviceInfo}
use tcluvc.StreamCtrl.Wire.{StreamCtrl, encode, decode}
use tcluvc.StreamCtrl.Query.{
  Block, query_setup, wire_length, finish_query, fix_frame_size, query_stream_ctrl,
}
use tcluvc.StreamCtrl.Formats.{matches_guid}
use tcluvc.StreamCtrl.Negotiate.{
  Wanted, search, until_zero, propose, try_interval, try_range, try_frame, try_format,
}
use tcluvc.StreamCtrl.Negotiate.Search.{Among, Among-map, Among-elim, search-Among}

-- The interval is one of the frame's list with the wanted rate, or it is that of the wanted rate
-- and lies in the frame's range.
abbrev pub HasRate : Wanted → FrameDesc → ℕ → Type 0
HasRate q d v =
    ((vs : List ℕ) × (d.intervals ≡ some vs)
      × Among (λ u. (u ≡ v)) vs
      × ((10000000 / v ≡ q.fps) ⊎ (q.fps ≡ 0)))
    ⊎ ((d.intervals ≡ none)
        × (q.fps ≢ 0)
        × (v ≡ 10000000 / q.fps)
        × (d.min_frame_interval ≤ v)
        × (v ≤ d.max_frame_interval))

pub record Fits (q : Wanted) (d : FrameDesc) (c : StreamCtrl) : Type 0 where
  pub width : d.width ≡ q.width
  pub height : d.height ≡ q.height
  pub frame : c.frame_index ≡ d.frame_index
  pub rate : HasRate q d c.frame_interval

finish_query_interface :
    (info : DeviceInfo) (c : StreamCtrl) (req : ℕ) (err : ℤ) (buf : List ℕ)
    → (finish_query info c req err buf).1.interface_number ≡ c.interface_number
unfolding finish_query fix_frame_size decode
finish_query_interface info c req err buf = ground arith

query_interface :
    (usb : Usb) (w : usb.World) (info : DeviceInfo) (c : StreamCtrl) (b : Block) (req : ℕ)
    → (query_stream_ctrl usb w info c b req).1.interface_number ≡ c.interface_number
unfolding query_stream_ctrl
query_interface usb w info c b req = finish_query_interface info c req answer.0 answer.1
  where
    answer : ℤ × List ℕ × usb.World
    answer =
        usb.control_transfer w (query_setup c b req)
          (if req == Usb.Request.set_cur then encode c (wire_length info) else replicate 34 0)
          (wire_length info)

-- What stands in the block proposed for a frame.
record IsFor (i : StreamingInterface) (f : FormatDesc) (d : FrameDesc) (v : ℕ) (c : StreamCtrl)
    : Type 0 where
  interface : c.interface_number ≡ i.interface_number
  format : c.format_index ≡ f.format_index
  frame : c.frame_index ≡ d.frame_index
  interval : c.frame_interval ≡ v

propose-IsFor :
    (usb : Usb) (info : DeviceInfo) (i : StreamingInterface) (f : FormatDesc) (d : FrameDesc)
    (v : ℕ) (s : StreamCtrl × usb.World)
    → IsFor i f d v (propose usb info i f d v s).0
unfolding propose
propose-IsFor usb info i f d v s = record {
  interface = query_interface usb s.1 info _ _ _;
  format = refl;
  frame = refl;
  interval = refl;
}

cut-Among :
    (P : ℕ → Type 0) (b : Bool) (v : ℕ) (us vs : List ℕ)
    → (Among P us → Among P vs)
    → Among P (if b then [] else v ∷ us)
    → Among P (v ∷ vs)
cut-Among P true v us vs more h = elim h [ ]
cut-Among P false v us vs more (inl h) = inl h
cut-Among P false v us vs more (inr h) = inr (more h)

until_zero-Among : (P : ℕ → Type 0) (vs : List ℕ) → Among P (until_zero vs) → Among P vs
until_zero-Among P [] h = h
until_zero-Among P (v ∷ vs) h = cut-Among P (v == 0) v (until_zero vs) vs (until_zero-Among P vs) h

try_interval_found :
    (usb : Usb) (info : DeviceInfo) (q : Wanted) (i : StreamingInterface) (f : FormatDesc)
    (d : FrameDesc) (v : ℕ) (s s' : StreamCtrl × usb.World)
    → try_interval usb info q i f d v s ≡ some (true, s')
    → (s'.0 ≡ (propose usb info i f d v s).0) × ((10000000 / v ≡ q.fps) ⊎ (q.fps ≡ 0))
unfolding try_interval
try_interval_found usb info q i f d v s s' e = ground arith

try_range_found :
    (usb : Usb) (info : DeviceInfo) (q : Wanted) (i : StreamingInterface) (f : FormatDesc)
    (d : FrameDesc) (s s' : StreamCtrl × usb.World)
    → try_range usb info q i f d s ≡ some (true, s')
    → (s'.0 ≡ (propose usb info i f d (10000000 / q.fps) s).0)
      × (q.fps ≢ 0)
      × (d.min_frame_interval ≤ 10000000 / q.fps)
      × (10000000 / q.fps ≤ d.max_frame_interval)
unfolding try_range
try_range_found usb info q i f d s s' e = ground arith

-- A find in the frame of a format of an interface.
abbrev pub IsFrameFound : Wanted → StreamingInterface → FormatDesc → FrameDesc → StreamCtrl → Type 0
IsFrameFound q i f d c =
    (c.interface_number ≡ i.interface_number) × (c.format_index ≡ f.format_index) × Fits q d c

module _ (usb : Usb) (info : DeviceInfo) (q : Wanted) where
  listed_found :
      (i : StreamingInterface) (f : FormatDesc) (d : FrameDesc) (vs : List ℕ)
      (s s' : StreamCtrl × usb.World)
      → d.width ≡ q.width
      → d.height ≡ q.height
      → d.intervals ≡ some vs
      → search (try_interval usb info q i f d) (until_zero vs) s ≡ some (true, s')
      → IsFrameFound q i f d s'.0
  listed_found i f d vs s s' wide high list e = Among-elim (until_zero vs) found among
    where
      Found : ℕ → Type 0
      Found v =
          (s₀ : StreamCtrl × usb.World) × (try_interval usb info q i f d v s₀ ≡ some (true, s'))

      among : Among Found (until_zero vs)
      among = search-Among (try_interval usb info q i f d) (until_zero vs) s s' e

      for : (v : ℕ) → Found v → IsFor i f d v s'.0
      for v (s₀, g) =
          rw ((try_interval_found usb info q i f d v s₀ s' g).0) (propose-IsFor usb info i f d v s₀)

      found : (v : ℕ) → Found v → IsFrameFound q i f d s'.0
      found v (s₀, g) = (
        (for v (s₀, g)).interface,
        (for v (s₀, g)).format,
        record {
          width = wide;
          height = high;
          frame = (for v (s₀, g)).frame;
          rate = inl (
            vs,
            list,
            Among-map vs (λ u h. sym (for u h).interval) (until_zero-Among Found vs among),
            rw ((for v (s₀, g)).interval) ((try_interval_found usb info q i f d v s₀ s' g).1),
          );
        },
      )

  ranged_found :
      (i : StreamingInterface) (f : FormatDesc) (d : FrameDesc) (s s' : StreamCtrl × usb.World)
      → d.width ≡ q.width
      → d.height ≡ q.height
      → d.intervals ≡ none
      → try_range usb info q i f d s ≡ some (true, s')
      → IsFrameFound q i f d s'.0
  unfolding propose
  ranged_found i f d s s' wide high open_list e =
      let (same, rate, low, up) = try_range_found usb info q i f d s s' e in
      rw same (
        let p = propose-IsFor usb info i f d (10000000 / q.fps) s in
        (
          p.interface,
          p.format,
          record {
            width = wide;
            height = high;
            frame = p.frame;
            rate = inr (open_list, rate, refl, low, up);
          },
        ))

  try_frame_found :
      (i : StreamingInterface) (f : FormatDesc) (d : FrameDesc) (s s' : StreamCtrl × usb.World)
      → try_frame usb info q i f d s ≡ some (true, s')
      → IsFrameFound q i f d s'.0
  unfolding try_frame
  try_frame_found i f d s s' e = elim (Bool-cases (d.width == q.width && d.height == q.height)) [
    | inr other ↦ ground (arith, e, other)
    | inl size ↦ elim (Option-cases d.intervals) [
      | inl n ↦
          ranged_found i f d s s' (ground (arith, size)) (ground (arith, size)) n
            (ground (arith, e, size, n))
      | inr (vs, l) ↦
          listed_found i f d vs s s' (ground (arith, size)) (ground (arith, size)) l
            (ground (arith, e, size, l))
    ]
  ]

  pub try_format_found :
      (i : StreamingInterface) (f : FormatDesc) (s s' : StreamCtrl × usb.World)
      → try_format usb info q i f s ≡ some (true, s')
      → (matches_guid q.format f.guid ≡ true) × Among (λ d. IsFrameFound q i f d s'.0) f.frame_descs
  unfolding try_format
  try_format_found i f s s' e = elim (Bool-cases (matches_guid q.format f.guid)) [
    | inr other ↦ ground (arith, e, other)
    | inl m ↦ (
      m,
      Among-map f.frame_descs (λ d h. try_frame_found i f d h.0 s' h.1)
          (search-Among (try_frame usb info q i f) f.frame_descs s s' (ground (arith, e, m))),
    )
  ]
