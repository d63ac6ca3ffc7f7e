-- ===== src/Capture/Steps.antt =====
-- Any sequence of the steps of a capture (tcluvc.c), and what wakes the interpreter up.
use mathlib.Core.Path.{subst}
use tcluvc.Prelude.{
  ◌≡◌, refl, sym, Bool, true, false, not, Option, none, List, Run, done, arith, if◌then◌else◌,
}
use tcluvc.Prelude.Int.{ℤ}
use tcluvc.Usb
use tcluvc.StreamCtrl.Formats.{FrameFormat}
use tcluvc.Delivery.Populate.{Frame}
use tcluvc.Avi.Channels.{Channel}
use tcluvc.Avi.Clock.{Timeval}
use tcluvc.Capture.Events.{Wake, take_event, ready, start_events, set_update_mode}
use tcluvc.Capture.Events.Laws.{
  live, IsCounted, queue_event-IsCounted, take_event-IsCounted, stop_events-IsCounted,
  start_events-IsCounted, set_update_mode-IsCounted, idle_ready, idle_ready-IsCounted,
}
use tcluvc.Capture.{
  Capture, is_error, is_paused, resumed, try_formats, capture_formats, frame_callback, stop_capture,
  frame_ready, frame_ready0, start_capture,
}
use tcluvc.Capture.Laws.{frame_callback-Gives, frame_ready-Gives, frame_ready0-Gives}

pub ready_now :
    (w : Wake) (e : Bool) (es : List Bool)
    → (take_event w e es).0 ≡ true
    → ready (take_event w e es).1 ≡ (take_event w e es).1
unfolding take_event ready
ready_now w true es h = ground (arith, h)
ready_now w false es h = absurd (ground (arith, h))

module _ (chan : Channel) (to_jpeg : Frame → Option Frame)
    (mjpeg2rgb : Frame → Frame → Run (ℤ × Frame)) where
  -- Frames, events and idle calls, in any order, with any result of the Tcl callback.
  pub data Runs (c : Capture chan.State) : Capture chan.State → Type 0 where
    here : Runs c c
    framed :
        {x y : Capture chan.State} (clock : Timeval) (frame : Frame)
        → Runs c x
        → frame_callback chan to_jpeg mjpeg2rgb clock x frame ≡ done y
        → Runs c y
    dispatched :
        {x y : Capture chan.State} (clock : Timeval) (ok : Bool)
        → Runs c x
        → frame_ready0 chan to_jpeg mjpeg2rgb clock x ok ≡ done y
        → Runs c y
    idled :
        {x y : Capture chan.State} (clock : Timeval) (ok : Bool)
        → Runs c x
        → x.wake.idle_call ≡ true
        → frame_ready chan to_jpeg mjpeg2rgb clock
            (record x { wake = record x.wake { idle_call = false } })
            ok
          ≡ done y
        → Runs c y

  -- Those, and starts, stops, and changes of the update mode while no event is on its way.
  pub data Reaches (c : Capture chan.State) : Capture chan.State → Type 0 where
    begins : Reaches c c
    runs : {x y : Capture chan.State} → Reaches c x → Runs x y → Reaches c y
    starts :
        {x : Capture chan.State} (clock : Timeval) (iscomp : Bool) (find : FrameFormat → ℤ)
        (ret : ℤ)
        → Reaches c x
        → Reaches c (start_capture chan to_jpeg mjpeg2rgb clock x iscomp find ret).1
    stops :
        {x : Capture chan.State} → Reaches c x → Reaches c (stop_capture chan to_jpeg mjpeg2rgb x)
    switches :
        {x : Capture chan.State} (flag : Bool)
        → Reaches c x
        → live x.wake.events ≡ 0
        → Reaches c (record x { wake = set_update_mode x.wake flag })

  Runs-IsCounted : (c x : Capture chan.State) → IsCounted c.wake → Runs c x → IsCounted x.wake
  unfolding idle_ready
  Runs-IsCounted c x k here = k
  Runs-IsCounted c y k (framed {x = x} clock frame r e) =
      let ih = Runs-IsCounted c x k r in
      frame_callback-Gives chan to_jpeg mjpeg2rgb IsCounted clock x frame
        (ih, queue_event-IsCounted x.wake ih) y e
  Runs-IsCounted c y k (dispatched {x = x} clock ok r e) =
      let ih = Runs-IsCounted c x k r in
      frame_ready0-Gives chan to_jpeg mjpeg2rgb IsCounted clock x ok (λ _. ih)
        (λ b es q.
          let next : IsCounted (take_event x.wake b es).1 = take_event-IsCounted x.wake b es q ih in
          (
            next,
            λ now.
                let again : IsCounted (ready (take_event x.wake b es).1) =
                  subst IsCounted (sym (ready_now x.wake b es now)) next in
                (again, λ _. stop_events-IsCounted (ready (take_event x.wake b es).1) again),
          ))
        y e
  Runs-IsCounted c y k (idled {x = x} clock ok r due e) =
      let ih = Runs-IsCounted c x k r in
      let next = idle_ready-IsCounted x.wake ih due in
      frame_ready-Gives chan to_jpeg mjpeg2rgb IsCounted clock
        (record x { wake = record x.wake { idle_call = false } }) ok next
        (λ _. stop_events-IsCounted (idle_ready x.wake) next) y e

  start_capture-IsCounted :
      (c : Capture chan.State) (clock : Timeval) (iscomp : Bool) (find : FrameFormat → ℤ) (ret : ℤ)
      → IsCounted c.wake
      → IsCounted (start_capture chan to_jpeg mjpeg2rgb clock c iscomp find ret).1.wake
  unfolding start_capture
  start_capture-IsCounted c clock iscomp find ret k =
      chosen c.wake.running
        (is_error (try_formats find iscomp capture_formats (Usb.Error.invalid_mode, none)).0)
        (is_error ret) (is_paused c.recorder.rstate) c begun
        (record begun {
          recorder = record c.recorder {
            rstate = resumed c.recorder.rstate;
            rtv = clock;
            ltv = clock;
          };
        })
        k next
    where
      begun : Capture chan.State
      begun = record c {
        wake = start_events c.wake (not (is_error ret));
        received = 0;
        dropped = 0;
      }

      next : c.wake.running ≡ false → IsCounted (start_events c.wake (not (is_error ret)))
      next stopped = start_events-IsCounted c.wake (not (is_error ret)) k stopped

      chosen :
          (a b d e : Bool) (x y z : Capture chan.State)
          → IsCounted x.wake
          → (a ≡ false → IsCounted y.wake)
          → IsCounted
              (if◌then◌else◌ {A = Bool × Capture chan.State} a
                (true, x)
                (if b
                  then (false, x)
                  else if d
                  then (false, y)
                  else (true, (if e then record z { wake = y.wake } else y)))).1.wake
      chosen true b d e x y z p q = p
      chosen false true d e x y z p q = p
      chosen false false true e x y z p q = q refl
      chosen false false false true x y z p q = q refl
      chosen false false false false x y z p q = q refl

  -- Whatever frames, events, idle calls, starts and stops come, and if the update mode changes only
  -- while no event is on its way: while the device runs, `numev` counts the events and the idle call
  -- on their way, there is at most one of both, and none when nothing runs, if it was so before.
  pub Reaches-IsCounted :
      (c x : Capture chan.State) → IsCounted c.wake → Reaches c x → IsCounted x.wake
  unfolding stop_capture
  Reaches-IsCounted c x k begins = k
  Reaches-IsCounted c y k (runs {x = x} r s) = Runs-IsCounted x y (Reaches-IsCounted c x k r) s
  Reaches-IsCounted c y k (starts {x = x} clock iscomp find ret r) =
      start_capture-IsCounted x clock iscomp find ret (Reaches-IsCounted c x k r)
  Reaches-IsCounted c y k (stops {x = x} r) =
      stop_events-IsCounted x.wake (Reaches-IsCounted c x k r)
  Reaches-IsCounted c y k (switches {x = x} flag r e) =
      set_update_mode-IsCounted x.wake flag (Reaches-IsCounted c x k r) e
