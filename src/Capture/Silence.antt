-- ===== src/Capture/Silence.antt =====
-- A change of the update mode after which no frame wakes the interpreter up (tcluvc.c).
use mathlib.Core.Path.{subst}
use tcluvc.Prelude.{
  ℕ, ◌≡◌, ◌≢◌, refl, sym, ap, ◌∙◌, Bool, true, false, Option, List, ◌∷◌, Run, done, arith,
}
use tcluvc.Prelude.Int.{ℤ, negsuc}
use tcluvc.Delivery.Populate.{Frame}
use tcluvc.Avi.Channels.{Channel}
use tcluvc.Avi.Clock.{Timeval}
use tcluvc.Capture.Events.{Wake, queue_event, take_event, ready, stop_events, set_update_mode}
use tcluvc.Capture.Events.Laws.{live}
use tcluvc.Capture.{Capture, frame_ready0}
use tcluvc.Capture.Laws.{frame_callback-Gives, frame_ready0-Gives}
use tcluvc.Capture.Steps.{Runs, here, framed, dispatched, idled, ready_now}

module _ (chan : Channel) (to_jpeg : Frame → Option Frame)
    (mjpeg2rgb : Frame → Frame → Run (ℤ × Frame)) where
  -- The device runs, but nothing is on its way to the interpreter, and no frame will queue an event.
  pub record IsSilent (w : Wake) : Type 0 where
    pub runs_on : w.thread ≡ true
    pub negative : (n : ℕ) × (w.numev ≡ negsuc n)
    pub no_event : live w.events ≡ 0
    pub no_call : w.idle_call ≡ false
    pub no_idle : w.idle ≡ false

  queue_event-IsSilent : (w : Wake) → IsSilent w → IsSilent (queue_event w)
  unfolding queue_event
  queue_event-IsSilent w s = subst IsSilent (sym unchanged) s
    where
      unchanged : queue_event w ≡ w
      unchanged = ground (arith, s.negative.1)

  take_event-IsSilent :
      (w : Wake) (e : Bool) (es : List Bool)
      → w.events ≡ e ∷ es
      → IsSilent w
      → IsSilent (take_event w e es).1 × ((take_event w e es).0 ≡ false)
  unfolding take_event live
  take_event-IsSilent w true es q s = absurd (ground (arith, ap live q, s.no_event))
  take_event-IsSilent w false es q s = (
    record {
      runs_on = s.runs_on;
      negative = s.negative;
      no_event = ap live (sym q) ∙ s.no_event;
      no_call = s.no_call;
      no_idle = s.no_idle;
    },
    refl,
  )

  Runs-IsSilent :
      (c x : Capture chan.State)
      → IsSilent c.wake
      → Runs chan to_jpeg mjpeg2rgb c x
      → IsSilent x.wake
  Runs-IsSilent c x s here = s
  Runs-IsSilent c y s (framed {x = x} clock frame r e) =
      let ih = Runs-IsSilent c x s r in
      frame_callback-Gives chan to_jpeg mjpeg2rgb IsSilent clock x frame
        (ih, queue_event-IsSilent x.wake ih) y e
  Runs-IsSilent c y s (dispatched {x = x} clock ok r e) =
      let ih = Runs-IsSilent c x s r in
      frame_ready0-Gives chan to_jpeg mjpeg2rgb IsSilent clock x ok (λ _. ih)
        (λ b es q.
          let next = take_event-IsSilent x.wake b es q ih in
          (next.0, λ now. absurd (false_now (sym next.1 ∙ now))))
        y e
    where
      false_now : false ≢ true
      false_now e = ground (arith, e)
  Runs-IsSilent c y s (idled {x = x} clock ok r due e) =
      absurd (true_now (sym due ∙ (Runs-IsSilent c x s r).no_call))
    where
      true_now : true ≢ false
      true_now e = ground (arith, e)

  -- The event that was queued in idle mode is taken after the mode has changed.
  switched :
      (w : Wake) (es : List Bool)
      → w.thread ≡ true
      → w.idle ≡ true
      → live es ≡ 0
      → IsSilent (ready (take_event (set_update_mode w false) true es).1)
  unfolding take_event set_update_mode ready
  switched w es on idle none_left = record {
    runs_on = ground (arith, on, idle, none_left);
    negative = (0, ground (arith, on, idle, none_left));
    no_event = ground (arith, on, idle, none_left);
    no_call = ground (arith, on, idle, none_left);
    no_idle = ground (arith, on, idle, none_left);
  }

  set_update_mode-events : (w : Wake) (flag : Bool) → (set_update_mode w flag).events ≡ w.events
  unfolding set_update_mode
  set_update_mode-events w flag = ground arith

  taken_now :
      (w : Wake) (es : List Bool)
      → w.thread ≡ true
      → w.idle ≡ true
      → (take_event (set_update_mode w false) true es).0 ≡ true
  unfolding take_event set_update_mode
  taken_now w es on idle = ground (arith, on, idle)

  silent_next :
      (w : Wake) (es : List Bool)
      → w.thread ≡ true
      → w.idle ≡ true
      → w.events ≡ true ∷ es
      → live es ≡ 0
      → (b : Bool) (rest : List Bool) → (set_update_mode w false).events ≡ b ∷ rest
      → IsSilent (take_event (set_update_mode w false) b rest).1
        × ((take_event (set_update_mode w false) b rest).0 ≡ true
            → IsSilent (ready (take_event (set_update_mode w false) b rest).1)
              × (true ≡ false
                  → IsSilent (stop_events (ready (take_event (set_update_mode w false) b rest).1))))
  unfolding live
  silent_next w es on idle queue none_left false rest m =
      absurd (ground (arith, set_update_mode-events w false, queue, m))
  silent_next w es on idle queue none_left true rest m =
      let other : live rest ≡ 0 =
        ground (arith, ap live (sym m ∙ set_update_mode-events w false ∙ queue), none_left) in
      let next = switched w rest on idle other in
      (
        subst IsSilent (ready_now (set_update_mode w false) true rest (taken_now w rest on idle))
            next,
        λ _. (next, λ bad. absurd (ground (arith, bad))),
      )

  silenced :
      (c x : Capture chan.State) (es : List Bool) (clock : Timeval)
      → c.wake.thread ≡ true
      → c.wake.idle ≡ true
      → c.wake.events ≡ true ∷ es
      → live es ≡ 0
      → frame_ready0 chan to_jpeg mjpeg2rgb clock
          (record c { wake = set_update_mode c.wake false })
          true
        ≡ done x
      → IsSilent x.wake
  silenced c x es clock on idle queue none_left e =
      frame_ready0-Gives chan to_jpeg mjpeg2rgb IsSilent clock
        (record c { wake = set_update_mode c.wake false }) true
        (λ n. absurd (ground (arith, set_update_mode-events c.wake false, queue, n)))
        (silent_next c.wake es on idle queue none_left) x e

-- A change out of idle mode while one event is on its way: once that event has been taken, with a Tcl
-- callback that succeeds, the device runs on, and whatever frames and events come after, no event
-- and no idle call is on its way to the interpreter, so that its callback is not called again.
pub mode_switch_silences :
    (chan : Channel) (to_jpeg : Frame → Option Frame) (mjpeg2rgb : Frame → Frame → Run (ℤ × Frame))
    (c x y : Capture chan.State) (es : List Bool) (clock : Timeval)
    → c.wake.thread ≡ true
    → c.wake.idle ≡ true
    → c.wake.events ≡ true ∷ es
    → live es ≡ 0
    → frame_ready0 chan to_jpeg mjpeg2rgb clock
        (record c { wake = set_update_mode c.wake false })
        true
      ≡ done x
    → Runs chan to_jpeg mjpeg2rgb x y
    → (y.wake.thread ≡ true) × (live y.wake.events ≡ 0) × (y.wake.idle_call ≡ false)
mode_switch_silences chan to_jpeg mjpeg2rgb c x y es clock on idle queue none_left e runs_on =
    let s =
      Runs-IsSilent chan to_jpeg mjpeg2rgb x y
        (silenced chan to_jpeg mjpeg2rgb c x es clock on idle queue none_left e) runs_on in
    (s.runs_on, s.no_event, s.no_call)
