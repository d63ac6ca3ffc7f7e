-- ===== src/Stream/Started.antt =====
-- The transfers of a stream from the submissions of `uvc_stream_start` to the end of the wait of
-- `uvc_stream_stop` (libuvc/src/stream.c): which of them libusb holds, and which are freed.
use mathlib.Core.Path.{subst}
use mathlib.Core.List.{Mem, mem-cons_self, mem-cons_of_mem}
use tcluvc.Prelude.{
  ℕ, ◌≡◌, refl, ◌∙◌, ap, sym, Bool, true, false, ◌||◌, List, [], ◌∷◌, map, ◌==◌, Bool-cases,
  Option-cases, inl, inr, if◌then◌else◌, arith,
}
use tcluvc.Prelude.Int.{ℤ}
use tcluvc.Stream.Callback.{Slot, Stream, holds}
use tcluvc.Stream.Stop.{
  is_success, submit_slot, clear_slot, submit_rest, submit_all, stop_begin, gives_up, cancel_slot,
  stop_cancel, is_settled, freed,
}
use tcluvc.Stream.Lifecycle.{
  World, InSync, Reach, here, next, begins_stop, cancels, slots-stop_begin, NoneFails, IsDistinct,
  mentions, live, Reach-InSync, is_settled-live,
}

-- The transfers that libusb accepts: those up to the first submission that fails.
unfoldable pub submitted : (ℕ → ℤ) → List Slot → ℕ → Bool
submitted submit [] t = false
submitted submit (s ∷ ss) t =
    let rest = submitted submit ss t in
    if is_success (submit_slot submit s) then holds s t || rest else false

-- The slots that a start fills are not marked.
abbrev pub AllFresh : List Slot → Type 0
AllFresh [] = Unit {0}
AllFresh (s ∷ ss) = (s.is_deleted ≡ false) × AllFresh ss

-- The stream and libusb once the loop of the submissions is over.
abbrev pub begun : (ℕ → ℤ) → Stream → World
begun submit x = record {
  stream = record x { slots = (submit_all submit x.slots).1 };
  in_flight = submitted submit x.slots;
}

live-cleared : (ss : List Slot) (t : ℕ) → live (map clear_slot ss) t ≡ false
unfolding live
live-cleared [] t = refl
live-cleared (s ∷ ss) t = live-cleared ss t

mentions-cleared : (ss : List Slot) (t : ℕ) → mentions (map clear_slot ss) t ≡ false
unfolding mentions
mentions-cleared [] t = refl
mentions-cleared (s ∷ ss) t = mentions-cleared ss t

cleared-IsDistinct : (ss : List Slot) → IsDistinct (map clear_slot ss)
cleared-IsDistinct [] = tt
cleared-IsDistinct (s ∷ ss) = ((λ t h. mentions-cleared ss t), cleared-IsDistinct ss)

mentions-submit_rest :
    (submit : ℕ → ℤ) (ss : List Slot) (t : ℕ)
    → mentions ss t ≡ false
    → mentions (submit_rest submit ss) t ≡ false
unfolding mentions submit_rest
mentions-submit_rest submit [] t h = refl
mentions-submit_rest submit (s ∷ ss) t h =
    ground (arith, h, mentions-submit_rest submit ss t, mentions-cleared ss t)

submit_rest-IsDistinct :
    (submit : ℕ → ℤ) (ss : List Slot) → IsDistinct ss → IsDistinct (submit_rest submit ss)
unfolding submit_rest
submit_rest-IsDistinct submit [] d = tt
submit_rest-IsDistinct submit (s ∷ ss) (d, ds) =
    elim (Bool-cases (is_success (submit_slot submit s))) [
      | inl ok ↦
          rw ok
            ((λ t h. mentions-submit_rest submit ss t (d t h)), submit_rest-IsDistinct submit ss ds)
      | inr fails ↦ rw fails (cleared-IsDistinct (s ∷ ss))
    ]

live-submit_rest :
    (submit : ℕ → ℤ) (ss : List Slot) (t : ℕ)
    → AllFresh ss
    → submitted submit ss t ≡ live (submit_rest submit ss) t
unfolding submitted submit_rest live
live-submit_rest submit [] t fresh = refl
live-submit_rest submit (s ∷ ss) t (f, fresh) =
    ground (arith, f, live-submit_rest submit ss t fresh, live-cleared ss t)

begun-InSync :
    (submit : ℕ → ℤ) (x : Stream) (s : Slot) (ss : List Slot)
    → x.slots ≡ s ∷ ss
    → is_success (submit_slot submit s) ≡ true
    → AllFresh x.slots
    → IsDistinct x.slots
    → InSync (begun submit x)
begun-InSync submit x s ss e ok fresh d = record {
  distinct = rw slots (submit_rest-IsDistinct submit x.slots d);
  tracked = λ t. live-submit_rest submit x.slots t fresh ∙ ap (λ l. live l t) (sym slots);
}
  where
    slots : (submit_all submit x.slots).1 ≡ submit_rest submit x.slots
    slots = rw e (unfold submit_all submit_rest in ground (arith, ok))

-- A stream whose slots hold different transfers, none marked as deleted, of which libusb accepts the
-- first: after the submissions and any interleaving of callbacks, the beginning of a stop and its cancels, a
-- transfer is in flight exactly if it stands in a slot that is not marked as deleted, if no cancel
-- failed otherwise than by LIBUSB_ERROR_NOT_FOUND.
pub start_keeps_sync :
    {v : World} (submit : ℕ → ℤ) (x : Stream) (s : Slot) (ss : List Slot)
    → x.slots ≡ s ∷ ss
    → is_success (submit_slot submit s) ≡ true
    → AllFresh x.slots
    → IsDistinct x.slots
    → (r : Reach (begun submit x) v) → NoneFails r
    → InSync v
start_keeps_sync submit x s ss e ok fresh d r none_fails =
    Reach-InSync (begun-InSync submit x s ss e ok fresh d) r none_fails

-- From the same start and in the same interleavings: once every slot is settled, which ends the
-- wait of `uvc_stream_stop`, no transfer is in flight, so none of those that it frees.
pub settled_frees_safely :
    {v : World} (submit : ℕ → ℤ) (x : Stream) (s : Slot) (ss : List Slot) (t : ℕ)
    → x.slots ≡ s ∷ ss
    → is_success (submit_slot submit s) ≡ true
    → AllFresh x.slots
    → IsDistinct x.slots
    → (r : Reach (begun submit x) v) → NoneFails r
    → is_settled v.stream.slots ≡ true
    → v.in_flight t ≡ false
settled_frees_safely {v = v} submit x s ss t e ok fresh d r none_fails done =
    (start_keeps_sync submit x s ss e ok fresh d r none_fails).tracked t
    ∙ is_settled-live v.stream.slots t done

all_given_up :
    (answer : ℕ → ℤ) (ss : List Slot)
    → ((t : ℕ) → gives_up (answer t) ≡ true)
    → is_settled (map (cancel_slot answer) ss) ≡ true
unfolding is_settled cancel_slot
all_given_up answer [] h = refl
all_given_up answer (s ∷ ss) h = elim (Option-cases s.transfer) [
  | inl null ↦ ground (arith, null, all_given_up answer ss h)
  | inr (t, e) ↦ ground (arith, e, h t, all_given_up answer ss h)
]

-- A cancel moves no transfer.
freed-cancelled : (answer : ℕ → ℤ) (ss : List Slot) → freed (map (cancel_slot answer) ss) ≡ freed ss
unfolding freed cancel_slot
freed-cancelled answer [] = refl
freed-cancelled answer (s ∷ ss) = elim (Option-cases s.transfer) [
  | inl null ↦ ground (arith, null, freed-cancelled answer ss)
  | inr (t, e) ↦ ground (arith, e, freed-cancelled answer ss)
]

live-freed : (ss : List Slot) (t : ℕ) → live ss t ≡ true → Mem t (freed ss)
unfolding live freed
live-freed [] t h = absurd (ground (arith, h))
live-freed (s ∷ ss) t h = elim (Option-cases s.transfer) [
  | inl null ↦ rw null (live-freed ss t (ground (arith, h, null)))
  | inr (u, e) ↦ rw e (elim (Bool-cases (u == t)) [
    | inl same ↦ subst (λ n. Mem t (n ∷ freed ss)) (ground (arith, same)) mem-cons_self
    | inr other ↦ mem-cons_of_mem u (live-freed ss t (ground (arith, h, e, other)))
  ])
]

-- If `libusb_cancel_transfer` fails otherwise than by LIBUSB_ERROR_NOT_FOUND for all transfers, a
-- stop of a running stream that begins while a transfer is in flight may find every slot settled at
-- once, and frees the transfer that libusb still holds.
pub failed_cancel_frees_held :
    {w : World} (answer : ℕ → ℤ) (t : ℕ)
    → InSync w
    → w.stream.running ≡ true
    → w.in_flight t ≡ true
    → ((u : ℕ) → gives_up (answer u) ≡ true)
    → (v : World) × Reach w v
      × (v.stream.running ≡ false)
      × (is_settled v.stream.slots ≡ true)
      × Mem t (freed v.stream.slots)
      × (v.in_flight t ≡ true)
unfolding stop_cancel
failed_cancel_frees_held {w} answer t y runs flying h = (
  _,
  next (next here begins_stop) (cancels answer),
  stopped,
  all_given_up answer (stop_begin w.stream).1.slots h,
  subst (Mem t)
      (sym (
        freed-cancelled answer (stop_begin w.stream).1.slots
        ∙ ap freed (slots-stop_begin w.stream)))
      (live-freed w.stream.slots t (sym (y.tracked t) ∙ flying)),
  flying,
)
  where
    stopped : (stop_begin w.stream).1.running ≡ false
    stopped = unfold stop_begin in ground (arith, runs)
