-- ===== src/Stream/Drain.antt =====
-- Whether the wait of `uvc_stream_stop` ends: it does once every transfer in flight has called
-- back, and it cannot where the first submission of a start failed.
use tcluvc.Prelude.{
  ℕ, ◌≡◌, refl, ◌∙◌, ap, sym, Bool, true, false, ◌||◌, ◌&&◌, Option, none, some, ltb, Bool-cases,
  ◌>>=◌, List, [], ◌∷◌, ◌==◌, if◌then◌else◌, arith, Option-cases, inl, inr,
}
use mathlib.Core.Bool.{false≢true}
use tcluvc.Prelude.Int.{ℤ}
use tcluvc.Stream.Callback.{Slot, Stream, Transfer, release_transfer, stream_callback}
use tcluvc.Stream.Stop.{is_success, submit_slot, submit_all, stop_cancel, is_live, is_settled}
use tcluvc.Stream.Lifecycle.{
  World, NoneFails, calls_back, begins_stop, cancels, Reach, here, next, IsDistinct, live,
  live-mark_deleted, stop_cancel_same, slots-stop_begin, mark_deleted-IsDistinct,
}

-- The loop of the wait, with the callbacks that still come: the thread tests the slots when it is
-- awake; else it sleeps in `pthread_cond_timedwait`, and only a callback that broadcasts wakes it.
-- Without a result the callbacks are over and it sleeps on until its time is over.
unfoldable pub stop_wait : (ℕ → ℤ) → Bool → Stream → List Transfer → Option Stream
stop_wait answer awake s [] = if awake && is_settled s.slots then some s else none
stop_wait answer awake s (t ∷ ts) =
    let later = stream_callback s t (answer t.id) >>= λ r.
    stop_wait answer (ltb s.asm.broadcasts r.0.asm.broadcasts) r.0 ts in
    if awake && is_settled s.slots then some s else later

unfoldable pub has_id : List Transfer → ℕ → Bool
has_id [] u = false
has_id (t ∷ ts) u = u == t.id || has_id ts u

-- Once the stream no longer runs, no transfer goes back to libusb, whatever its status.
stopped_releases :
    (s : Stream) (t : Transfer) (r : ℤ)
    → s.running ≡ false
    → stream_callback s t r ≡ some (release_transfer s t.id)
unfolding stream_callback release_transfer
stopped_releases s t r off = ground arith

live_of_slot :
    (s : Slot) (ss : List Slot) (t : ℕ)
    → s.transfer ≡ some t
    → live (s ∷ ss) t ≡ false
    → is_live s ≡ false
unfolding live
live_of_slot s ss t e h = ground arith

settled_of_live : (ss : List Slot) → ((t : ℕ) → live ss t ≡ false) → is_settled ss ≡ true
unfolding is_settled live
settled_of_live [] h = refl
settled_of_live (s ∷ ss) h = elim (Option-cases s.transfer) [
  | inl null ↦ ground (arith, null, settled_of_live ss λ t. ground (arith, h t))
  | inr (u, e) ↦ ground (arith, e, h u, settled_of_live ss λ t. ground (arith, h t))
]

release-off : (s : Stream) (t : ℕ) → s.running ≡ false → (release_transfer s t).0.running ≡ false
unfolding release_transfer
release-off s t off = off

release-IsDistinct :
    (s : Stream) (t : ℕ) → IsDistinct s.slots → IsDistinct (release_transfer s t).0.slots
unfolding release_transfer
release-IsDistinct s t d = mark_deleted-IsDistinct s.slots t d

live-release :
    (s : Stream) (t u : ℕ)
    → IsDistinct s.slots
    → live (release_transfer s t).0.slots u ≡ (if u == t then false else live s.slots u)
unfolding release_transfer
live-release s t u d = live-mark_deleted s.slots t u d

release-broadcasts :
    (s : Stream) (t : ℕ) → ltb s.asm.broadcasts (release_transfer s t).0.asm.broadcasts ≡ true
unfolding release_transfer
release-broadcasts s t = ground arith

-- Once `uvc_stream_stop` has cleared `running`, if the slots hold different transfers and every
-- transfer in a slot that is not marked still calls back, in any order and with any status: the
-- thread that waits leaves its loop by the test of the slots, all of them settled, before its time
-- is over, for every callback that settles a slot wakes it.
pub stop_wait_ends :
    (answer : ℕ → ℤ) (ts : List Transfer) (s : Stream)
    → s.running ≡ false
    → IsDistinct s.slots
    → ((u : ℕ) → live s.slots u ≡ true → has_id ts u ≡ true)
    → (s' : Stream) × (stop_wait answer true s ts ≡ some s') × (is_settled s'.slots ≡ true)
unfolding stop_wait has_id
stop_wait_ends answer [] s off d all =
    let done : is_settled s.slots ≡ true = settled_of_live s.slots λ u. ground (arith, all u) in
    (s, rw done refl, done)
stop_wait_ends answer (t ∷ ts) s off d all = elim (Bool-cases (is_settled s.slots)) [
  | inl done ↦ (s, rw done refl, done)
  | inr more ↦
      let (s', e, done) =
        stop_wait_ends answer ts (release_transfer s t.id).0 (release-off s t.id off)
          (release-IsDistinct s t.id d) (λ u h. ground (arith, live-release s t.id u d, all u)) in
      (s', rw (more, stopped_releases s t (answer t.id) off, release-broadcasts s t.id) e, done)
]

not_settled : (s : Slot) (ss : List Slot) → is_live s ≡ true → is_settled (s ∷ ss) ≡ false
unfolding is_settled
not_settled s ss h = ground arith

-- With nothing in flight the slots never change.
idle_slots :
    {w v : World}
    → ((t : ℕ) → w.in_flight t ≡ false)
    → (r : Reach w v) → NoneFails r
    → (v.stream.slots ≡ w.stream.slots) × ((t : ℕ) → v.in_flight t ≡ false)
unfolding stop_cancel
idle_slots idle here none_fails = (refl, idle)
idle_slots idle (next r (calls_back t submitted flying e)) none_fails =
    absurd (false≢true (sym ((idle_slots idle r none_fails).1 t.id) ∙ flying))
idle_slots idle (next {v = v} r begins_stop) none_fails =
    let (e, f) = idle_slots idle r none_fails in (slots-stop_begin v.stream ∙ e, f)
idle_slots idle (next {v = v} r (cancels answer)) (none_fails, h) =
    let (e, f) = idle_slots idle r none_fails in (stop_cancel_same answer v.stream.slots h ∙ e, f)

-- If the first submission of a start fails, `submit_all` reports the failure and leaves the slots
-- live with nothing in flight: no interleaving in which libusb answers the cancels with success or
-- LIBUSB_ERROR_NOT_FOUND settles them, so that the stop that follows in `uvc_start_streaming`
-- waits until its time is over.
pub failed_start_never_settles :
    (submit : ℕ → ℤ) (s : Slot) (ss : List Slot) {w v : World}
    → is_live s ≡ true
    → is_success (submit_slot submit s) ≡ false
    → w.stream.slots ≡ (submit_all submit (s ∷ ss)).1
    → ((t : ℕ) → w.in_flight t ≡ false)
    → (r : Reach w v) → NoneFails r
    → ((submit_all submit (s ∷ ss)).0 ≡ submit_slot submit s) × (is_settled v.stream.slots ≡ false)
unfolding submit_all
failed_start_never_settles submit s ss {w} {v} l fails e idle r none_fails = (
  ground arith,
  ap is_settled ((idle_slots idle r none_fails).0 ∙ e ∙ ground (arith, fails)) ∙ not_settled s ss l,
)
