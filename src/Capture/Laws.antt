-- ===== src/Capture/Laws.antt =====
-- The events of a capture over any sequence of its steps (tcluvc.c).
use tcluvc.Prelude.{
  ◌≡◌, refl, Bool, true, false, not, ◌&&◌, ◌||◌, Option, none, some, List, [], ◌∷◌, Run, done,
  after, Gives, Gives-done, Gives-after, if◌then◌else◌,
}
use tcluvc.Prelude.Int.{ℤ}
use tcluvc.Delivery.Populate.{Frame}
use tcluvc.Avi.Channels.{Channel}
use tcluvc.Avi.Clock.{Timeval}
use tcluvc.Avi.Write.{write_frame}
use tcluvc.Capture.Events.{Wake, queue_event, take_event, ready, stop_events}
use tcluvc.Capture.{
  Held, Capture, is_some, is_recpri, is_recording, shown_as_is, early_copy, hold, hold_copy,
  take_frame, frame_callback, stop_capture, call_back, frame_ready, frame_ready0,
}

Gives-if :
    {A : Type 0} (P : A → Type 0) (b : Bool) (r s : Run A)
    → Gives P r
    → Gives P s
    → Gives P (if b then r else s)
Gives-if P true r s p q = p
Gives-if P false r s p q = q

module _ (chan : Channel) (to_jpeg : Frame → Option Frame)
    (mjpeg2rgb : Frame → Frame → Run (ℤ × Frame)) where
  abbrev State : Type 0
  State = Capture chan.State

  -- What a step makes of the events, if it queues one for a frame at most.
  abbrev pub Queues : (Wake → Type 0) → Wake → Type 0
  Queues P w = P w × P (queue_event w)

  copied_held :
      (P : Wake → Type 0) (c : State)
      → P c.wake
      → P (queue_event c.wake)
      → (o : Option Frame)
      → Gives (λ (y : State). P y.wake) (done (hold_copy chan to_jpeg mjpeg2rgb c o))
  unfolding hold_copy hold
  copied_held P c same queued none = Gives-done (λ (y : State). P y.wake) _ same
  copied_held P c same queued (some f) = Gives-done (λ (y : State). P y.wake) _ queued

  pub take_frame-Gives :
      (P : Wake → Type 0) (c : State) (frame : Frame)
      → Queues P c.wake
      → Gives (λ (y : State). P y.wake) (take_frame chan to_jpeg mjpeg2rgb c frame)
  unfolding take_frame hold
  take_frame-Gives P c frame (same, queued) =
      Gives-if (λ (y : State). P y.wake) (c.conv && not (shown_as_is frame.frame_format)) _ _
        (Gives-after (λ (y : State). P y.wake) (early_copy chan to_jpeg mjpeg2rgb c.greyshift frame)
          _ (copied_held P c same queued))
        (Gives-done (λ (y : State). P y.wake) _ queued)

  pub frame_callback-Gives :
      (P : Wake → Type 0) (clock : Timeval) (c : State) (frame : Frame)
      → Queues P c.wake
      → Gives (λ (y : State). P y.wake) (frame_callback chan to_jpeg mjpeg2rgb clock c frame)
  unfolding frame_callback
  frame_callback-Gives P clock c frame q =
      Gives-if (λ (y : State). P y.wake) (not c.wake.thread) _ _
        (Gives-done (λ (y : State). P y.wake) c q.0)
        (Gives-if (λ (y : State). P y.wake) (is_recpri c.recorder.rstate) _ _
          (Gives-after (λ (y : State). P y.wake)
            (write_frame chan to_jpeg true clock c.recorder frame) _
            (λ w. take_frame-Gives P (record c { recorder = w.1 }) frame q))
          (take_frame-Gives P c frame q))

  called :
      (P : Wake → Type 0) (x : State) (ok : Bool)
      → P x.wake
      → (ok ≡ false → P (stop_events x.wake))
      → P (call_back chan to_jpeg mjpeg2rgb x ok).wake
  unfolding call_back stop_capture
  called P x ok p stopped = one_of (not (is_some x.held)) ok x _ p stopped
    where
      one_of :
          (b ok : Bool) (y z : State)
          → P y.wake
          → (ok ≡ false → P z.wake)
          → P (if b || ok then y else z).wake
      one_of true ok y z p q = p
      one_of false true y z p q = p
      one_of false false y z p q = q refl

  pub frame_ready-Gives :
      (P : Wake → Type 0) (clock : Timeval) (c : State) (ok : Bool)
      → P (ready c.wake)
      → (ok ≡ false → P (stop_events (ready c.wake)))
      → Gives (λ (y : State). P y.wake) (frame_ready chan to_jpeg mjpeg2rgb clock c ok)
  unfolding frame_ready
  frame_ready-Gives P clock c ok p stopped =
      Gives-if (λ (y : State). P y.wake) (not c.recorder.ruser && is_recording c.recorder.rstate) _
        _ (with_held c.held) (Gives-done (λ (y : State). P y.wake) _ (called P c₁ ok p stopped))
    where
      c₁ : State
      c₁ = record c { wake = ready c.wake }

      with_held :
          (o : Option Held)
          → Gives
              (λ (y : State). P y.wake)
              (elim o as (λ _. Run State) [
                | none ↦ done (call_back chan to_jpeg mjpeg2rgb c₁ ok)
                | some h ↦
                    after (write_frame chan to_jpeg true clock c.recorder h.frame) (λ (ret, r).
                      done (call_back chan to_jpeg mjpeg2rgb (record c₁ { recorder = r }) ok))
              ])
      with_held none = Gives-done (λ (y : State). P y.wake) _ (called P c₁ ok p stopped)
      with_held (some h) =
          Gives-after (λ (y : State). P y.wake)
            (write_frame chan to_jpeg true clock c.recorder h.frame) _
            (λ w.
              Gives-done (λ (y : State). P y.wake) _
                (called P (record c₁ { recorder = w.1 }) ok p stopped))

  -- An event of the queue: `P` of the queue without it, and of what `FrameReady` makes of that.
  pub frame_ready0-Gives :
      (P : Wake → Type 0) (clock : Timeval) (c : State) (ok : Bool)
      → (c.wake.events ≡ [] → P c.wake)
      → ((e : Bool) (es : List Bool)
          → c.wake.events ≡ e ∷ es
          → P (take_event c.wake e es).1
            × ((take_event c.wake e es).0 ≡ true
                → P (ready (take_event c.wake e es).1)
                  × (ok ≡ false → P (stop_events (ready (take_event c.wake e es).1)))))
      → Gives (λ (y : State). P y.wake) (frame_ready0 chan to_jpeg mjpeg2rgb clock c ok)
  unfolding frame_ready0
  frame_ready0-Gives P clock c ok same taken = on_queue c.wake.events same taken
    where
      on_event :
          (e : Bool) (es : List Bool)
          → P (take_event c.wake e es).1
            × ((take_event c.wake e es).0 ≡ true
                → P (ready (take_event c.wake e es).1)
                  × (ok ≡ false → P (stop_events (ready (take_event c.wake e es).1))))
          → (now : Bool) → (take_event c.wake e es).0 ≡ now
          → Gives
              (λ (y : State). P y.wake)
              (if now
                then frame_ready chan to_jpeg mjpeg2rgb clock
                    (record c { wake = (take_event c.wake e es).1 })
                    ok
                else done (record c { wake = (take_event c.wake e es).1 }))
      on_event e es h true n =
          frame_ready-Gives P clock (record c { wake = (take_event c.wake e es).1 }) ok (h.1 n).0
            (h.1 n).1
      on_event e es h false n = Gives-done (λ (y : State). P y.wake) _ h.0

      on_queue :
          (q : List Bool)
          → (q ≡ [] → P c.wake)
          → ((e : Bool) (es : List Bool)
              → q ≡ e ∷ es
              → P (take_event c.wake e es).1
                × ((take_event c.wake e es).0 ≡ true
                    → P (ready (take_event c.wake e es).1)
                      × (ok ≡ false → P (stop_events (ready (take_event c.wake e es).1)))))
          → Gives
              (λ (y : State). P y.wake)
              (elim q as (λ _. Run State) [
                | [] ↦ done c
                | e ∷ es ↦
                    if (take_event c.wake e es).0
                    then frame_ready chan to_jpeg mjpeg2rgb clock
                        (record c { wake = (take_event c.wake e es).1 })
                        ok
                    else done (record c { wake = (take_event c.wake e es).1 })
              ])
      on_queue [] none_left h = Gives-done (λ (y : State). P y.wake) c (none_left refl)
      on_queue (e ∷ es) none_left h = on_event e es (h e es refl) (take_event c.wake e es).0 refl
