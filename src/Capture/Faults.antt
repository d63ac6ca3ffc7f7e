-- ===== src/Capture/Faults.antt =====
-- What `FrameCallback` does to the frame that libuvc owns, and what `StartCapture` does not try
-- (tcluvc.c).
use tcluvc.Prelude.{
  ℕ, ◌≡◌, sym, ap, ◌∙◌, Bool, true, false, not, ◌&&◌, Option, none, [], ◌∷◌, ◌++◌, Run, done, arith,
  if◌then◌else◌,
}
use tcluvc.Prelude.Int.{ℤ, negsuc}
use tcluvc.Usb
use tcluvc.StreamCtrl.Formats.{FrameFormat, yuyv, gray16, rgb}
use tcluvc.Delivery.Populate.{Frame}
use tcluvc.Avi.Channels.{Channel}
use tcluvc.Avi.Clock.{Timeval}
use tcluvc.Capture.Events.{Wake, queue_event}
use tcluvc.Capture.{
  camera, Held, Capture, is_recpri, is_error, shown_as_is, try_formats, capture_formats, hold,
  owner_list, take_frame, frame_callback, start_capture,
}

queue_event-thread : (w : Wake) → (queue_event w).thread ≡ w.thread
unfolding queue_event
queue_event-thread w = ground arith

pick_else : {A : Type 0} (b : Bool) (x y : A) → b ≡ false → (if b then x else y) ≡ y
pick_else b x y e = rw e

pick_then : {A : Type 0} (b : Bool) (x y : A) → b ≡ true → (if b then x else y) ≡ x
pick_then b x y e = rw e

same_done : {A : Type 0} (a b : A) → ◌≡◌ {A = Run A} (done a) (done b) → a ≡ b
same_done a b e = ground (arith, e)

module _ (chan : Channel) (to_jpeg : Frame → Option Frame)
    (mjpeg2rgb : Frame → Frame → Run (ℤ × Frame)) where
  abbrev by_camera : Frame → Held
  by_camera f = record { frame = f; owner = camera }

  -- A frame that is not converted is held as it is.
  held_as_is :
      (clock : Timeval) (c : Capture chan.State) (f : Frame)
      → c.wake.thread ≡ true
      → is_recpri c.recorder.rstate ≡ false
      → (c.conv && not (shown_as_is f.frame_format)) ≡ false
      → frame_callback chan to_jpeg mjpeg2rgb clock c f
        ≡ done (hold chan to_jpeg mjpeg2rgb c (by_camera f))
  unfolding frame_callback take_frame
  held_as_is clock c f on later plain =
      pick_else (not c.wake.thread) _ _ (ap not on)
      ∙ pick_else (is_recpri c.recorder.rstate) _ _ later
      ∙ pick_else (c.conv && not (shown_as_is f.frame_format)) _ _ plain

-- Two frames that need no conversion, or come while it is off, outside a recording that takes frames
-- first: with the second one the extension gives libuvc's own frame, which the stream still uses, to
-- uvc_free_frame.
pub camera_frame_freed :
    (chan : Channel) (to_jpeg : Frame → Option Frame) (mjpeg2rgb : Frame → Frame → Run (ℤ × Frame))
    (c x y : Capture chan.State) (clock clock' : Timeval) (f g : Frame)
    → c.wake.thread ≡ true
    → is_recpri c.recorder.rstate ≡ false
    → (c.conv && not (shown_as_is f.frame_format)) ≡ false
    → (c.conv && not (shown_as_is g.frame_format)) ≡ false
    → frame_callback chan to_jpeg mjpeg2rgb clock c f ≡ done x
    → frame_callback chan to_jpeg mjpeg2rgb clock' x g ≡ done y
    → y.freed ≡ x.freed ++ (camera ∷ [])
unfolding hold
camera_frame_freed chan to_jpeg mjpeg2rgb c x y clock clock' f g on later plain plain' e e' =
    let ex : hold chan to_jpeg mjpeg2rgb c (by_camera chan to_jpeg mjpeg2rgb f) ≡ x =
      same_done _ x (sym (held_as_is chan to_jpeg mjpeg2rgb clock c f on later plain) ∙ e) in
    let on' : x.wake.thread ≡ true =
      ap (λ z. z.wake.thread) (sym ex) ∙ queue_event-thread c.wake ∙ on in
    let later' : is_recpri x.recorder.rstate ≡ false =
      ap (λ z. is_recpri z.recorder.rstate) (sym ex) ∙ later in
    let plain'' : (x.conv && not (shown_as_is g.frame_format)) ≡ false =
      ap (λ z. z.conv && not (shown_as_is g.frame_format)) (sym ex) ∙ plain' in
    let ey : hold chan to_jpeg mjpeg2rgb x (by_camera chan to_jpeg mjpeg2rgb g) ≡ y =
      same_done _ y (sym (held_as_is chan to_jpeg mjpeg2rgb clock' x g on' later' plain'') ∙ e') in
    ap (λ z. z.freed) (sym ey) ∙ ap (λ z. x.freed ++ owner_list z.held) (sym ex)

-- A capture of uncompressed formats fails on a camera that offers neither YUYV nor GRAY16 nor RGB,
-- whatever it answers for UYVY and GRAY8, which are in the table too.
pub formats_skipped :
    (chan : Channel) (to_jpeg : Frame → Option Frame) (mjpeg2rgb : Frame → Frame → Run (ℤ × Frame))
    (clock : Timeval) (c : Capture chan.State) (find : FrameFormat → ℤ) (ret : ℤ) (a b d : ℕ)
    → c.wake.running ≡ false
    → find yuyv ≡ negsuc a
    → find gray16 ≡ negsuc b
    → find rgb ≡ negsuc d
    → start_capture chan to_jpeg mjpeg2rgb clock c false find ret ≡ (false, c)
unfolding start_capture try_formats
formats_skipped chan to_jpeg mjpeg2rgb clock c find ret a b d stopped no_yuyv no_gray16 no_rgb =
    pick_else c.wake.running _ _ stopped
    ∙ pick_then (is_error (try_formats find false capture_formats (Usb.Error.invalid_mode, none)).0)
        _ _ (rw (no_yuyv, no_gray16, no_rgb))
