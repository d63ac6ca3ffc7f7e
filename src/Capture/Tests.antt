-- ===== src/Capture/Tests.antt =====
-- A camera that runs in idle mode with one event on its way, and frames of one grey pixel.
use tcluvc.Prelude.{
  ℕ, ◌≡◌, refl, ◌+◌, true, false, Option, none, [], ◌∷◌, ◌++◌, length, Run, done, fault, stuck,
  arith,
}
use tcluvc.Prelude.Int.{ℤ, pos, negsuc}
use tcluvc.StreamCtrl.Formats.{FrameFormat, uyvy, gray8}
use tcluvc.Delivery.Populate.{Frame}
use tcluvc.Avi.Channels.{Channel}
use tcluvc.Avi.{stop}
use tcluvc.Avi.Fresh.{no_writer, no_time}
use tcluvc.Capture.Events.{Wake, queue_event, set_update_mode, take_event, ready}
use tcluvc.Capture.Events.Laws.{live, IsCounted}
use tcluvc.Capture.{
  camera, Capture, hold, take_frame, frame_callback, call_back, frame_ready, frame_ready0,
  start_capture,
}
use tcluvc.Capture.Steps.{here, framed, begins, runs, Reaches-IsCounted}
use tcluvc.Capture.Silence.{mode_switch_silences}
use tcluvc.Capture.Faults.{camera_frame_freed, formats_skipped}

abbrev sink : Channel
sink = record {
  State = ℕ;
  write_raw = λ n bs. (pos (length bs), n + length bs);
  seek = λ n p. (p, n);
  tell = λ n. (pos n, n);
}

abbrev no_jpeg : Frame → Option Frame
no_jpeg f = none

abbrev no_decoder : Frame → Frame → Run (ℤ × Frame)
no_decoder f g = done (negsuc 0, g)

abbrev grey : Frame
grey = record {
  memory = 7 ∷ [];
  data_bytes = 1;
  width = 1;
  height = 1;
  frame_format = gray8;
  step = 1;
  sequence = 1;
  tv_sec = 0;
  tv_usec = 0;
  library_owns_data = true;
}

abbrev with_wake : Wake → Capture sink.State
with_wake w = record {
  wake = w;
  conv = true;
  greyshift = pos 0;
  held = none;
  received = 0;
  dropped = 0;
  recorder = record {
    rstate = stop;
    ruser = false;
    rchan = none;
    boundary = [];
    rrate = no_time;
    rtv = no_time;
    ltv = no_time;
    avi = no_writer;
  };
  copies = 0;
  freed = [];
}

abbrev announced : Wake
announced = record {
  running = true;
  thread = true;
  events = true ∷ [];
  numev = pos 1;
  idle = true;
  idle_call = false;
}

abbrev quiet : Wake
quiet = record announced { events = []; numev = pos 0 }

abbrev off : Wake
off = record quiet { running = false; thread = false }

abbrev capture_of : Capture sink.State → Run (Capture sink.State) → Capture sink.State
capture_of c (done x) = x
capture_of c fault = c
capture_of c stuck = c

abbrev after_frame : Capture sink.State → Capture sink.State
after_frame c = capture_of c (frame_callback sink no_jpeg no_decoder no_time c grey)

first_grey :
    frame_callback sink no_jpeg no_decoder no_time (with_wake quiet) grey
    ≡ done (after_frame (with_wake quiet))
unfolding frame_callback take_frame hold queue_event
first_grey = refl

second_grey :
    frame_callback sink no_jpeg no_decoder no_time (after_frame (with_wake quiet)) grey
    ≡ done (after_frame (after_frame (with_wake quiet)))
unfolding frame_callback take_frame hold queue_event
second_grey = refl

camera_frame_freed_example :
    (after_frame (after_frame (with_wake quiet))).freed
    ≡ (after_frame (with_wake quiet)).freed ++ (camera ∷ [])
camera_frame_freed_example =
    camera_frame_freed sink no_jpeg no_decoder (with_wake quiet) (after_frame (with_wake quiet))
      (after_frame (after_frame (with_wake quiet))) no_time no_time grey grey refl refl refl refl
      first_grey second_grey

quiet-IsCounted : IsCounted quiet
unfolding live
quiet-IsCounted = record {
  one_thread = refl;
  counted = λ h. refl;
  at_most_one = omega arith;
  none_stopped = λ h. refl;
  idle_only = λ h. refl;
}

Reaches-IsCounted_example : IsCounted (after_frame (with_wake quiet)).wake
Reaches-IsCounted_example =
    Reaches-IsCounted sink no_jpeg no_decoder (with_wake quiet) (after_frame (with_wake quiet))
      quiet-IsCounted (runs begins (framed no_time grey here first_grey))

abbrev switched : Capture sink.State
switched = capture_of (with_wake quiet) (
    frame_ready0 sink no_jpeg no_decoder no_time (with_wake (set_update_mode announced false)) true)

taken :
    frame_ready0 sink no_jpeg no_decoder no_time (with_wake (set_update_mode announced false)) true
    ≡ done switched
unfolding frame_ready0 take_event frame_ready call_back set_update_mode ready
taken = refl

grey_comes :
    frame_callback sink no_jpeg no_decoder no_time switched grey ≡ done (after_frame switched)
unfolding frame_callback take_frame hold queue_event frame_ready0 take_event frame_ready call_back
    set_update_mode ready
grey_comes = refl

mode_switch_silences_example :
    ((after_frame switched).wake.thread ≡ true)
    × (live (after_frame switched).wake.events ≡ 0)
    × ((after_frame switched).wake.idle_call ≡ false)
unfolding live
mode_switch_silences_example =
    mode_switch_silences sink no_jpeg no_decoder (with_wake announced) switched
      (after_frame switched) [] no_time refl refl refl refl taken
      (framed no_time grey here grey_comes)

-- A camera with UYVY alone.
abbrev uyvy_only : FrameFormat → ℤ
uyvy_only uyvy = pos 0
uyvy_only _ = negsuc 50

formats_skipped_example :
    start_capture sink no_jpeg no_decoder no_time (with_wake off) false uyvy_only (pos 0)
    ≡ (false, with_wake off)
formats_skipped_example =
    formats_skipped sink no_jpeg no_decoder no_time (with_wake off) uyvy_only (pos 0) 50 50 50 refl
      refl refl refl
