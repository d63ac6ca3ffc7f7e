-- ===== src/Capture/Events/Laws.antt =====
-- What keeps the interpreter woken, and what does not.
use tcluvc.Prelude.{ℕ, suc, ◌≡◌, refl, ap, ◌+◌, ◌≤◌, Bool, true, false, List, [], ◌∷◌, ◌++◌, arith}
use tcluvc.Prelude.Int.{pos}
use tcluvc.Capture.Events.{
  Wake, queue_event, take_event, ready, stop_events, start_events, set_update_mode, invalidated,
}

unfoldable pub live : List Bool → ℕ
live [] = 0
live (true ∷ es) = suc (live es)
live (false ∷ es) = live es

abbrev pub one_if : Bool → ℕ
one_if true = 1
one_if false = 0

-- `numev` counts the events and the idle call on their way, at most one; there is none when
-- nothing runs, and an idle call only in idle mode.
pub record IsCounted (w : Wake) : Type 0 where
  pub one_thread : w.running ≡ w.thread
  pub counted : w.thread ≡ true → w.numev ≡ pos (live w.events + one_if w.idle_call)
  pub at_most_one : live w.events + one_if w.idle_call ≤ 1
  pub none_stopped : w.thread ≡ false → live w.events + one_if w.idle_call ≡ 0
  pub idle_only : w.idle ≡ false → w.idle_call ≡ false

live-append : (es : List Bool) → live (es ++ (true ∷ [])) ≡ live es + 1
unfolding live
live-append [] = omega arith
live-append (true ∷ es) = omega (arith, live-append es)
live-append (false ∷ es) = live-append es

live-invalidated : (es : List Bool) → live (invalidated es) ≡ 0
unfolding live
live-invalidated [] = refl
live-invalidated (e ∷ es) = live-invalidated es

pub queue_event-IsCounted : (w : Wake) → IsCounted w → IsCounted (queue_event w)
unfolding queue_event
queue_event-IsCounted w h = ground (
  arith,
  h.one_thread,
  h.counted,
  h.at_most_one,
  h.none_stopped,
  h.idle_only,
  live-append w.events,
)

pub take_event-IsCounted :
    (w : Wake) (e : Bool) (es : List Bool)
    → w.events ≡ e ∷ es
    → IsCounted w
    → IsCounted (take_event w e es).1
unfolding take_event live
take_event-IsCounted w true es h c =
    ground (arith, ap live h, c.one_thread, c.counted, c.at_most_one, c.none_stopped, c.idle_only)
take_event-IsCounted w false es h c =
    ground (arith, ap live h, c.one_thread, c.counted, c.at_most_one, c.none_stopped, c.idle_only)

pub stop_events-IsCounted : (w : Wake) → IsCounted w → IsCounted (stop_events w)
unfolding stop_events
stop_events-IsCounted w h = ground (
  arith,
  h.one_thread,
  h.counted,
  h.at_most_one,
  h.none_stopped,
  h.idle_only,
  live-invalidated w.events,
)

pub start_events-IsCounted :
    (w : Wake) (started : Bool)
    → IsCounted w
    → w.running ≡ false
    → IsCounted (start_events w started)
unfolding start_events
start_events-IsCounted w started c stopped =
    ground (arith, stopped, c.one_thread, c.none_stopped, c.idle_only)

pub set_update_mode-IsCounted :
    (w : Wake) (flag : Bool) → IsCounted w → live w.events ≡ 0 → IsCounted (set_update_mode w flag)
unfolding set_update_mode
set_update_mode-IsCounted w flag c none_left =
    ground (arith, none_left, c.one_thread, c.counted, c.at_most_one, c.none_stopped, c.idle_only)

-- The idle call of `FrameReady` that is due.
unfoldable pub idle_ready : Wake → Wake
unfolding ready
idle_ready w = ready (record w { idle_call = false })

pub idle_ready-IsCounted : (w : Wake) → IsCounted w → w.idle_call ≡ true → IsCounted (idle_ready w)
unfolding idle_ready ready
idle_ready-IsCounted w c due =
    ground (arith, due, c.one_thread, c.counted, c.at_most_one, c.none_stopped, c.idle_only)

-- A frame that comes while the device runs leaves exactly one event or idle call on its way.
pub queue_event-announces :
    (w : Wake)
    → IsCounted w
    → w.thread ≡ true
    → live (queue_event w).events + one_if (queue_event w).idle_call ≡ 1
unfolding queue_event
queue_event-announces w c runs =
    ground (arith, runs, c.counted, c.at_most_one, live-append w.events)
