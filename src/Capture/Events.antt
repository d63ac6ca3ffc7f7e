-- ===== src/Capture/Events.antt =====
-- How the thread of libuvc wakes the interpreter for a frame (tcluvc.c): the events that
-- `FrameCallback` queues and `FrameReady0` takes, their count `numev`, and the idle call of
-- `FrameReady`. A queued event is `true` as long as it refers to the device.
pub mod Laws
use tcluvc.Prelude.{
  ℕ, ◌+◌, ◌-◌, Bool, true, false, not, ◌&&◌, List, [], ◌∷◌, ◌++◌, ◌==◌, if◌then◌else◌,
}
use tcluvc.Prelude.Int.{ℤ, pos, negsuc}
use tcluvc.Usb.{is_zero}

pub record Wake : Type 0 where
  pub running : Bool
  pub thread : Bool
  pub events : List Bool
  pub numev : ℤ
  pub idle : Bool
  pub idle_call : Bool

abbrev pub up : ℤ → ℤ
up (pos n) = pos (n + 1)
up (negsuc n) = if n == 0 then pos 0 else negsuc (n - 1)

abbrev pub down : ℤ → ℤ
down (pos n) = if n == 0 then negsuc 0 else pos (n - 1)
down (negsuc n) = negsuc (n + 1)

-- The end of `FrameCallback`.
unfoldable pub queue_event : Wake → Wake
queue_event w =
    if w.thread && is_zero w.numev
    then record w { events = w.events ++ (true ∷ []); numev = up w.numev }
    else w

-- `FrameReady0` on an event of the queue; whether `FrameReady` runs at once.
unfoldable pub take_event : Wake → Bool → List Bool → Bool × Wake
take_event w live rest =
    let left = record w { events = rest } in
    if live
    then (if w.thread
        then (if w.idle
            then (false, record left { idle_call = true })
            else (true, record left { numev = down w.numev }))
        else (false, record left { numev = pos 0 }))
    else (false, left)

-- The beginning of `FrameReady`.
unfoldable pub ready : Wake → Wake
ready w = if w.idle then record w { numev = pos 0 } else w

abbrev pub invalidated : List Bool → List Bool
invalidated [] = []
invalidated (e ∷ es) = false ∷ invalidated es

-- `StopCapture`.
unfoldable pub stop_events : Wake → Wake
stop_events w =
    let w' =
      if w.running then record w { running = false; thread = false; idle_call = false } else w in
    record w' { events = invalidated w'.events }

-- `StartCapture`, once a format is found; `started` says whether streaming has started.
unfoldable pub start_events : Wake → Bool → Wake
start_events w started = record w { running = started; thread = started; numev = pos 0 }

-- `uvc configure ... update-mode` in `SetControls`.
unfoldable pub set_update_mode : Wake → Bool → Wake
set_update_mode w flag =
    if (if flag then w.idle else not w.idle)
    then w
    else record w { idle_call = false; numev = pos 0; idle = flag }
