-- ===== src/Capture.antt =====
-- Capturing in the Tcl extension (tcluvc.c): `FrameCallback`, which runs in a thread of libuvc,
-- `FrameReady0` and `FrameReady` in the interpreter's, `StartCapture` and `StopCapture`. Each is one
-- step; a frame that comes in while `FrameReady` writes another one to a recording is left out.
-- Memory can be had; the decoding of MJPEG, by libjpeg, is an argument, and so is what the Tcl
-- callback returns.
pub mod Events
pub mod Laws
pub mod Steps
pub mod Silence
pub mod Faults
mod Tests
use tcluvc.Prelude.{
  ℕ, ◌+◌, ◌*◌, ◌/◌, Bool, true, false, not, ◌&&◌, ◌||◌, Option, none, some, List, [], ◌∷◌, ◌++◌,
  replicate, if◌then◌else◌, Run, done, after,
}
use tcluvc.Prelude.Int.{ℤ, pos, negsuc}
use tcluvc.Usb
use tcluvc.Usb.{is_zero}
use tcluvc.StreamCtrl.Formats.{FrameFormat, any, mjpeg, yuyv, uyvy, gray16, gray8, rgb}
use tcluvc.Delivery.Populate.{Frame}
use tcluvc.Convert.Frames.{gray16to8, any2rgb}
use tcluvc.Avi.Channels.{Channel}
use tcluvc.Avi.Clock.{Timeval}
use tcluvc.Avi.{RecState, recpri, recording, pausepri, pause}
use tcluvc.Avi.Write.{Recorder, write_frame}
use tcluvc.Capture.Events.{Wake, queue_event, take_event, ready, stop_events, start_events}

-- Whose memory a frame is: libuvc's own `strmh->frame`, or a copy, by the number of its allocation.
pub data Owner : Type 0 where
  camera : Owner
  copy : ℕ → Owner

pub record Held : Type 0 where
  pub frame : Frame
  pub owner : Owner

-- The fields of TUVC for capturing, with the frames that uvc_free_frame was given.
pub record Capture (S : Type 0) : Type 0 where
  pub wake : Wake
  pub conv : Bool
  pub greyshift : ℤ
  pub held : Option Held
  pub received : ℕ
  pub dropped : ℕ
  pub recorder : Recorder S
  pub copies : ℕ
  pub freed : List Owner

-- `uvc_allocate_frame`, where memory can be had.
unfoldable pub allocate_frame : ℕ → Frame
allocate_frame size = record {
  memory = replicate size 0;
  data_bytes = size;
  width = 0;
  height = 0;
  frame_format = any;
  step = 0;
  sequence = 0;
  tv_sec = 0;
  tv_usec = 0;
  library_owns_data = true;
}

abbrev pub shown_as_is : FrameFormat → Bool
shown_as_is gray8 = true
shown_as_is rgb = true
shown_as_is _ = false

abbrev pub owner_list : Option Held → List Owner
owner_list none = []
owner_list (some h) = h.owner ∷ []

abbrev pub is_some : Option Held → Bool
is_some none = false
is_some (some h) = true

abbrev pub paused : RecState → RecState
paused recpri = pausepri
paused recording = pause
paused s = s

abbrev pub resumed : RecState → RecState
resumed pausepri = recpri
resumed pause = recording
resumed s = s

abbrev pub is_recpri : RecState → Bool
is_recpri recpri = true
is_recpri _ = false

abbrev pub is_recording : RecState → Bool
is_recording recording = true
is_recording _ = false

abbrev pub is_paused : RecState → Bool
is_paused pausepri = true
is_paused pause = true
is_paused _ = false

-- A round that fails moves on by two entries of the table.
unfoldable pub try_formats :
    (FrameFormat → ℤ)
    → Bool
    → List (FrameFormat × Bool)
    → ℤ × Option FrameFormat
    → ℤ × Option FrameFormat
try_formats find iscomp [] last = last
try_formats find iscomp ((fmt, comp) ∷ []) last =
    if not iscomp && comp
    then last
    else if is_zero (find fmt)
    then (find fmt, some fmt)
    else (find fmt, none)
try_formats find iscomp ((fmt, comp) ∷ (next ∷ rest)) last =
    let one_on = try_formats find iscomp (next ∷ rest) last in
    let two_on = try_formats find iscomp rest (find fmt, none) in
    if not iscomp && comp
    then one_on
    else if is_zero (find fmt)
    then (find fmt, some fmt)
    else two_on

abbrev pub capture_formats : List (FrameFormat × Bool)
capture_formats =
    (mjpeg, true)
    ∷ (yuyv, false)
    ∷ (uyvy, false)
    ∷ (gray16, false)
    ∷ (gray8, false)
    ∷ (rgb, false)
    ∷ []

-- A negative result is an error.
abbrev pub is_error : ℤ → Bool
is_error (pos n) = false
is_error (negsuc n) = true

module _ (chan : Channel) (to_jpeg : Frame → Option Frame)
    (mjpeg2rgb : Frame → Frame → Run (ℤ × Frame)) where
  open chan use {State}

  -- The copy that `conv` asks for; `none` where the conversion fails.
  unfoldable pub early_copy : ℤ → Frame → Run (Option Frame)
  unfolding allocate_frame gray16to8 any2rgb
  early_copy shift frame =
      after
        (elim frame.frame_format as (λ _. Run (ℤ × Frame)) [
          | gray16 ↦ gray16to8 frame (allocate_frame (frame.data_bytes / 2)) shift
          | mjpeg ↦ mjpeg2rgb frame (allocate_frame frame.data_bytes)
          | _ ↦ any2rgb frame (allocate_frame frame.data_bytes)
        ])
        (λ (ret, f). done (if is_zero ret then some f else none))

  -- The frame becomes the one that is held; the one that was held is freed.
  unfoldable pub hold : Capture State → Held → Capture State
  unfolding queue_event
  hold c new = record c {
    wake = queue_event c.wake;
    held = some new;
    received = c.received + 1;
    dropped = if is_some c.held then c.dropped + 1 else c.dropped;
    freed = c.freed ++ owner_list c.held;
  }

  -- A copy that fails is freed, and the frame with it is not held.
  unfoldable pub hold_copy : Capture State → Option Frame → Capture State
  unfolding hold
  hold_copy c none = record c { copies = c.copies + 1; freed = c.freed ++ (copy c.copies ∷ []) }
  hold_copy c (some f) =
      hold (record c { copies = c.copies + 1 }) (record { frame = f; owner = copy c.copies })

  unfoldable pub take_frame : Capture State → Frame → Run (Capture State)
  unfolding early_copy hold hold_copy
  take_frame c frame =
      if c.conv && not (shown_as_is frame.frame_format)
      then after (early_copy c.greyshift frame) (λ copied. done (hold_copy c copied))
      else done (hold c (record { frame = frame; owner = camera }))

  unfoldable pub frame_callback : Timeval → Capture State → Frame → Run (Capture State)
  unfolding take_frame write_frame
  frame_callback clock c frame =
      if not c.wake.thread
      then done c
      else if is_recpri c.recorder.rstate
      then after (write_frame chan to_jpeg true clock c.recorder frame)
          (λ (ret, r). take_frame (record c { recorder = r }) frame)
      else take_frame c frame

  unfoldable pub stop_capture : Capture State → Capture State
  unfolding stop_events
  stop_capture c =
      let r = record c.recorder { rstate = paused c.recorder.rstate } in
      record c { wake = stop_events c.wake; recorder = if c.wake.running then r else c.recorder }

  -- The callback is called only with a frame; if it fails, the capture is stopped.
  unfoldable pub call_back : Capture State → Bool → Capture State
  unfolding stop_capture
  call_back c ok = if not (is_some c.held) || ok then c else stop_capture c

  unfoldable pub frame_ready : Timeval → Capture State → Bool → Run (Capture State)
  unfolding ready call_back write_frame
  frame_ready clock c ok =
      let c₁ = record c { wake = ready c.wake } in
      if not c.recorder.ruser && is_recording c.recorder.rstate
      then elim c.held [
        | none ↦ done (call_back c₁ ok)
        | some h ↦
            after (write_frame chan to_jpeg true clock c.recorder h.frame)
              (λ (ret, r). done (call_back (record c₁ { recorder = r }) ok))
      ]
      else done (call_back c₁ ok)

  -- `FrameReady0` on the first event of the queue.
  unfoldable pub frame_ready0 : Timeval → Capture State → Bool → Run (Capture State)
  unfolding take_event frame_ready
  frame_ready0 clock c ok = elim c.wake.events [
    | [] ↦ done c
    | live ∷ rest ↦
        let (now, w) = take_event c.wake live rest in
        let next = frame_ready clock (record c { wake = w }) ok in
        if now then next else done (record c { wake = w })
  ]

  -- The result of the Tcl command with what `uvc_get_stream_ctrl_format_size` answers for each
  -- format, and `uvc_start_streaming`.
  unfoldable pub start_capture :
      Timeval → Capture State → Bool → (FrameFormat → ℤ) → ℤ → Bool × Capture State
  unfolding try_formats start_events
  start_capture clock c iscomp find start =
      let (ret, found) = try_formats find iscomp capture_formats (Usb.Error.invalid_mode, none) in
      let begun = record c {
        wake = start_events c.wake (not (is_error start));
        received = 0;
        dropped = 0;
      } in
      let r = record c.recorder { rstate = resumed c.recorder.rstate; rtv = clock; ltv = clock } in
      if c.wake.running
      then (true, c)
      else if is_error ret
      then (false, c)
      else if is_error start
      then (false, begun)
      else (true, (if is_paused c.recorder.rstate then record begun { recorder = r } else begun))
