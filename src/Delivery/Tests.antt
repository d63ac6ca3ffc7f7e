-- ===== src/Delivery/Tests.antt =====
-- The theorems on delivery at a held MJPEG image of three bytes without its end marker.
use tcluvc.Prelude.{
  ◌+◌, ◌*◌, ◌<◌, ◌≡◌, refl, true, false, none, some, Bool, List, [], ◌∷◌, map, replicate, arith,
}
use tcluvc.Prelude.Int.{ℤ, pos, negsuc}
use tcluvc.Bytes.{byte_at}
use tcluvc.Descriptors.{FrameDesc}
use tcluvc.StreamCtrl.Formats.{mjpeg}
use tcluvc.Stream.Payload.{Assembly, swap_buffers}
use tcluvc.Stream.Payload.Validity.{IsValid}
use tcluvc.Delivery.Populate.{Frame, Timespec, populate_frame}
use tcluvc.Delivery.Populate.Laws.{IsInside, image, held, delivered, populate_frame-delivers}
use tcluvc.Delivery.Poll.{woken, Poll, deadline, take_newest, get_frame}
use tcluvc.Delivery.Caller.{waits, caller_turn, first_frame_missed}
use tcluvc.Delivery.Turns.{
  Moment, caller_turns, caller_turns_once, called_with, held_frame, before_stop, without_repeats,
}
use tcluvc.Delivery.Poll.Laws.{deadline_exact, get_frame-fresh}

abbrev vga : FrameDesc
vga = record {
  subtype = 7;
  frame_index = 1;
  capabilities = 0;
  width = 640;
  height = 480;
  min_bit_rate = 0;
  max_bit_rate = 0;
  max_video_frame_buffer_size = 614400;
  default_frame_interval = 333333;
  min_frame_interval = 0;
  max_frame_interval = 0;
  frame_interval_step = 0;
  frame_interval_type = 0;
  bytes_per_line = 0;
  intervals = none;
}

abbrev three_held : Assembly
three_held = record {
  is_isight = false;
  fid = 0;
  seq = 4;
  hold_seq = 3;
  pts = 0;
  hold_pts = 0;
  last_scr = 0;
  hold_last_scr = 0;
  got_bytes = 0;
  hold_bytes = 3;
  outbuf = replicate 4 0;
  holdbuf = 1 ∷ 2 ∷ 3 ∷ 0 ∷ [];
  clear_halts = 0;
  broadcasts = 0;
}

three_held-IsValid : IsValid 4 three_held
three_held-IsValid = omega arith

abbrev no_frame : Frame
no_frame = record {
  memory = [];
  data_bytes = 0;
  width = 0;
  height = 0;
  frame_format = mjpeg;
  step = 0;
  sequence = 0;
  tv_sec = 0;
  tv_usec = 0;
  library_owns_data = true;
}

abbrev now : Timespec
now = record { tv_sec = 7; tv_nsec = 999999999 }

populate_frame-delivers_example :
    (fr' : Frame) × (populate_frame no_frame mjpeg (some vga) three_held now ≡ some fr')
    × IsInside fr'
    × (image fr' ≡ delivered mjpeg (held three_held))
    × (fr'.width ≡ 640)
    × (fr'.height ≡ 480)
    × (fr'.sequence ≡ 3)
populate_frame-delivers_example =
    populate_frame-delivers no_frame mjpeg vga now three_held-IsValid (omega arith)

eoi_run : delivered mjpeg (held three_held) ≡ 1 ∷ 2 ∷ 3 ∷ 0xff ∷ 0xd9 ∷ []
unfolding byte_at
eoi_run = refl

deadline_exact_example :
    ((deadline now 1500000).tv_nsec < 1000000000)
    × ((deadline now 1500000).tv_sec * 1000000000 + (deadline now 1500000).tv_nsec ≡ 9499999999)
deadline_exact_example = deadline_exact now 1500000

polled :
    (r : ℤ × Frame × Poll) × (get_frame mjpeg
        (some vga)
        now
        true
        false
        (record { last_polled_seq = 2; frame = no_frame })
        three_held
        (negsuc 0)
        (woken three_held)
      ≡ some (r.0, some r.1, r.2))
unfolding get_frame take_newest
polled =
    let (fr, e, _, _, _, _, _) =
      populate_frame-delivers no_frame mjpeg vga now three_held-IsValid (omega arith) in
    ((pos 0, fr, record { last_polled_seq = 3; frame = fr }), rw e refl)

get_frame-fresh_example :
    (polled.0.0 ≡ pos 0)
    × (2 < polled.0.2.last_polled_seq)
    × (polled.0.1.sequence ≡ polled.0.2.last_polled_seq)
get_frame-fresh_example =
    get_frame-fresh mjpeg (some vga) now true false
      (record { last_polled_seq = 2; frame = no_frame }) polled.0.2 three_held (negsuc 0)
      (woken three_held) polled.0.0 polled.0.1 polled.1

-- The thread finds the same frame twice, and then the stream stopped.
abbrev moment : Bool → Moment
moment running = record { running = running; asm = three_held; now = now }

abbrev moments : List Moment
moments = moment true ∷ moment true ∷ moment false ∷ []

caller_turns_once_example :
    (frs : List Frame) × (caller_turns mjpeg (some vga) 2 no_frame moments ≡ some frs)
    × (map called_with frs ≡ without_repeats 2 (map (held_frame mjpeg) (before_stop moments)))
caller_turns_once_example =
    caller_turns_once 4 mjpeg vga 2 no_frame moments
      (three_held-IsValid, (three_held-IsValid, (three_held-IsValid, tt))) (omega arith)

-- The user is called once.
called_once :
    without_repeats 2 (map (held_frame mjpeg) (before_stop moments))
    ≡ (3, 1 ∷ 2 ∷ 3 ∷ 0xff ∷ 0xd9 ∷ []) ∷ []
unfolding without_repeats before_stop byte_at
called_once = refl

-- A stream that holds its first frame in the working buffer.
abbrev first_held : Assembly
first_held = record three_held { seq = 0; got_bytes = 4 }

first_frame_missed_example :
    (get_frame mjpeg
        (some vga)
        now
        true
        false
        (record { last_polled_seq = 0; frame = no_frame })
        (swap_buffers first_held)
        (negsuc 0)
        (woken first_held)
      ≡ some (pos 0, none, record { last_polled_seq = 0; frame = no_frame }))
    × (caller_turn mjpeg (some vga) now true 0 no_frame (swap_buffers first_held) ≡ some waits)
first_frame_missed_example =
    first_frame_missed mjpeg (some vga) now (record { last_polled_seq = 0; frame = no_frame })
      no_frame first_held (woken first_held) refl
