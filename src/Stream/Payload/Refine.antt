-- ===== src/Stream/Payload/Refine.antt =====
-- `_uvc_process_payload` does to the buffers what `feed` says of frames.
use tcluvc.Prelude.{
  ℕ, zero, suc, refl, [], ◌∷◌, ◌++◌, ◌∙◌, ap, if◌then◌else◌, ◌+◌, ◌-◌, ◌%◌, ◌≤◌, ◌≡◌, false, none,
  some, List, arith, length, take, drop, ◌==◌, take-write_at, length-take, length-drop,
}
use mathlib.Core.Option
use tcluvc.Bytes.{byte_at, dw_to_int, test_bit}
use tcluvc.Stream.Payload.{
  Assembly, swap_buffers, turn_frame, read_pts, read_scr, scr_offset, append_data, store, consume,
  with_header, process_payload,
}
use tcluvc.Stream.Payload.Validity.{IsValid, turn_frame-IsValid}
use tcluvc.Stream.Payload.Assemble.{
  Header, View, publish, turn, stamp, or_keep, is_empty, add_data, feed,
}

-- The bytes that each buffer holds, and the counters beside them.
unfoldable pub view : Assembly → View
view a = record {
  pending = take a.got_bytes a.outbuf;
  held = take a.hold_bytes a.holdbuf;
  fid = a.fid;
  seq = a.seq;
  held_seq = a.hold_seq;
  pts = a.pts;
  held_pts = a.hold_pts;
  scr = a.last_scr;
  held_scr = a.hold_last_scr;
}

-- The header that stands at the start of a payload.
unfoldable pub header_of : List ℕ → Header
header_of p =
    let info = byte_at p 1 in
    record {
      frame_id = info % 2;
      ends_frame = test_bit info 1;
      is_error = test_bit info 6;
      pts = if test_bit info 2 then some (dw_to_int p 2) else none;
      scr = if test_bit info 3 then some (dw_to_int p (scr_offset info)) else none;
    }

swap_buffers-publish : (a : Assembly) → view (swap_buffers a) ≡ publish (view a)
unfolding view swap_buffers publish
swap_buffers-publish a = refl

is_empty-take : (n : ℕ) (xs : List ℕ) → n ≤ length xs → is_empty (take n xs) ≡ (n == 0)
is_empty-take zero xs h = refl
is_empty-take (suc n) [] h = absurd (omega arith)
is_empty-take (suc n) (x ∷ xs) h = ground arith

turn_frame-turn :
    {cap : ℕ} {a : Assembly} (info : ℕ)
    → IsValid cap a
    → view (turn_frame a info) ≡ turn (view a) (info % 2)
unfolding turn_frame turn view swap_buffers publish
turn_frame-turn {cap} {a} info v = ground (arith, is_empty-take a.got_bytes a.outbuf)

-- The bytes that `memcpy` takes from the payload.
abbrev pub slice : List ℕ → ℕ → ℕ → List ℕ
slice p h d = take d (drop h p)

pub length-slice : (p : List ℕ) (h d : ℕ) → h + d ≤ length p → length (slice p h d) ≡ d
length-slice p h d fits = omega (arith, length-take d (drop h p), length-drop h p)

append_data-view :
    {cap : ℕ} {a : Assembly} (p : List ℕ) (h d : ℕ)
    → IsValid cap a
    → h + d ≤ length p
    → view (append_data a p h d) ≡ record (view a) { pending = (view a).pending ++ slice p h d }
unfolding append_data view
append_data-view {cap} {a} p h d v fits =
    ground (arith, take-write_at a.outbuf (slice p h d) a.got_bytes, length-slice p h d)

store-add_data :
    {cap : ℕ} {a : Assembly} (p : List ℕ) (h d info : ℕ)
    → IsValid cap a
    → a.got_bytes + d ≤ cap
    → h + d ≤ length p
    → Option.map view (store a p h d info)
      ≡ some (add_data (view a) (slice p h d) (test_bit info 1))
unfolding store add_data
store-add_data {cap} {a} p h d info v room fits = ground (
  arith,
  append_data-view p h d v,
  swap_buffers-publish (append_data a p h d),
  is_empty-take d (drop h p),
  length-drop h p,
)

-- Where the header's optional fields end; `scr_offset` has the first, if it is there.
abbrev pub fields_end : ℕ → ℕ
fields_end info = if test_bit info 3 then scr_offset info + 4 else scr_offset info

unfoldable pub stamped : Assembly → List ℕ → ℕ → Assembly
stamped a p info = record a {
  pts = if test_bit info 2 then dw_to_int p 2 else a.pts;
  last_scr = if test_bit info 3 then dw_to_int p (scr_offset info) else a.last_scr;
}

pub with_header-stamped :
    (a : Assembly) (p : List ℕ) (h d info : ℕ)
    → fields_end info ≤ length p
    → with_header a p h d info ≡ store (stamped (turn_frame a info) p info) p h d info
unfolding with_header read_pts read_scr stamped
with_header-stamped a p h d info fits = ground arith

stamped-stamp :
    (a : Assembly) (p : List ℕ) → view (stamped a p (byte_at p 1)) ≡ stamp (view a) (header_of p)
unfolding stamped view stamp header_of or_keep
stamped-stamp a p = ground arith

stamped-IsValid :
    {cap : ℕ} {a : Assembly} (p : List ℕ) (info : ℕ)
    → IsValid cap a
    → IsValid cap (stamped a p info)
unfolding stamped
stamped-IsValid p info v = omega arith

got_bytes-turned :
    (a : Assembly) (p : List ℕ) (info : ℕ)
    → (stamped (turn_frame a info) p info).got_bytes ≤ a.got_bytes
unfolding stamped turn_frame swap_buffers
got_bytes-turned a p info = ground arith

with_header-feed :
    {cap : ℕ} {a : Assembly} (p : List ℕ) (h d : ℕ)
    → IsValid cap a
    → fields_end (byte_at p 1) ≤ length p
    → a.got_bytes + d ≤ cap
    → h + d ≤ length p
    → Option.map view (with_header a p h d (byte_at p 1))
      ≡ some (
          add_data
            (stamp (turn (view a) (byte_at p 1 % 2)) (header_of p))
            (slice p h d)
            (test_bit (byte_at p 1) 1))
with_header-feed {cap} {a} p h d v fits room inside =
    ap (Option.map view) (with_header-stamped a p h d info fits)
    ∙ store-add_data p h d info (stamped-IsValid p info (turn_frame-IsValid info v))
        (omega (arith, got_bytes-turned a p info)) inside
    ∙ ap (λ w. some (add_data w (slice p h d) (test_bit info 1)))
        (stamped-stamp (turn_frame a info) p
          ∙ ap (λ w. stamp w (header_of p)) (turn_frame-turn info v))
  where
    info : ℕ
    info = byte_at p 1

clear_halt-view : (a : Assembly) → view (record a { clear_halts = a.clear_halts + 1 }) ≡ view a
unfolding view
clear_halt-view a = refl

-- A payload with a header, from a camera other than an iSight, whose fields lie inside the
-- transfer buffer and whose data fits behind the frame in progress, is stored without an access
-- outside memory, and does to pending and held frame, frame ID, sequence numbers and time stamps
-- what `feed` says of its header and its data.
pub process_payload-feed :
    {cap : ℕ} {a : Assembly} (p : List ℕ) (len : ℕ)
    → IsValid cap a
    → a.is_isight ≡ false
    → 2 ≤ byte_at p 0
    → byte_at p 0 ≤ len
    → len ≤ length p
    → fields_end (byte_at p 1) ≤ length p
    → a.got_bytes + (len - byte_at p 0) ≤ cap
    → Option.map view (process_payload a p len)
      ≡ some (feed (view a) (header_of p) (slice p (byte_at p 0) (len - byte_at p 0)))
unfolding process_payload consume feed header_of
process_payload-feed {cap} {a} p len v plain two le inside fits room =
    ground
      (arith, with_header-feed p (byte_at p 0) (len - byte_at p 0) v fits room, clear_halt-view a)
