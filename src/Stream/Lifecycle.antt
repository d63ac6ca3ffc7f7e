-- ===== src/Stream/Lifecycle.antt =====
-- Every transfer is in flight exactly while its slot is live, so that `uvc_stream_stop` frees no
-- transfer that libusb still holds. libusb's side is the set of the transfers in flight: a
-- submitted transfer is, until its callback runs, and again if the callback resubmits it.
use tcluvc.Prelude.{
  ℕ, ◌≡◌, refl, ◌∙◌, ap, sym, Bool, true, false, not, ◌&&◌, ◌||◌, some, List, [], ◌∷◌, map, ◌==◌,
  ap₂, Bool-cases, Option-cases, inl, inr, if◌then◌else◌, arith,
}
use tcluvc.Prelude.Int.{ℤ, pos, negsuc}
use tcluvc.Stream.Callback.{
  Slot, Stream, Transfer, Fate, offered, withheld, holds, mark_deleted, release_transfer, resubmit,
  stream_callback,
}
use tcluvc.Stream.Stop.{stop_begin, gives_up, cancel_slot, stop_cancel, is_settled}

-- Some slot holds the transfer; some live slot does.
unfoldable pub mentions : List Slot → ℕ → Bool
mentions [] t = false
mentions (s ∷ ss) t = holds s t || mentions ss t

unfoldable pub live : List Slot → ℕ → Bool
live [] t = false
live (s ∷ ss) t = (holds s t && not s.is_deleted) || live ss t

-- No transfer stands in two slots.
abbrev pub IsDistinct : List Slot → Type 0
IsDistinct [] = Unit {0}
IsDistinct (s ∷ ss) = ((t : ℕ) → holds s t ≡ true → mentions ss t ≡ false) × IsDistinct ss

live_of_mentions : (ss : List Slot) (t : ℕ) → mentions ss t ≡ false → live ss t ≡ false
unfolding mentions live
live_of_mentions [] t h = refl
live_of_mentions (s ∷ ss) t h = ground (arith, live_of_mentions ss t)

mentions-mark_deleted : (ss : List Slot) (t u : ℕ) → mentions (mark_deleted ss t) u ≡ mentions ss u
unfolding mentions mark_deleted
mentions-mark_deleted [] t u = refl
mentions-mark_deleted (s ∷ ss) t u = ground (arith, mentions-mark_deleted ss t u)

pub mark_deleted-IsDistinct :
    (ss : List Slot) (t : ℕ) → IsDistinct ss → IsDistinct (mark_deleted ss t)
unfolding mark_deleted
mark_deleted-IsDistinct [] t d = tt
mark_deleted-IsDistinct (s ∷ ss) t (d, ds) = elim (Bool-cases (holds s t)) [
  | inl hit ↦ rw hit (d, ds)
  | inr miss ↦
      rw miss ((λ u h. mentions-mark_deleted ss t u ∙ d u h), mark_deleted-IsDistinct ss t ds)
]

pub live-mark_deleted :
    (ss : List Slot) (t u : ℕ)
    → IsDistinct ss
    → live (mark_deleted ss t) u ≡ (if u == t then false else live ss u)
unfolding live mark_deleted
live-mark_deleted [] t u d = ground arith
live-mark_deleted (s ∷ ss) t u (d, ds) =
    ground (arith, live-mark_deleted ss t u ds, d t, live_of_mentions ss t)

pub record World : Type 0 where
  pub stream : Stream
  pub in_flight : ℕ → Bool

-- libusb has the transfer after a submission that it accepts, and if it is busy with it already;
-- that is LIBUSB_ERROR_BUSY, -6.
abbrev pub accepts : ℤ → Bool
accepts (pos n) = true
accepts (negsuc n) = n == 5

abbrev pub keeps : Fate → Bool
keeps (offered r) = accepts r
keeps withheld = false

abbrev pub after : Fate → ℕ → (ℕ → Bool) → ℕ → Bool
after f t m u = if keeps f then m u else if u == t then false else m u

abbrev pub slots_after : Fate → ℕ → List Slot → List Slot
slots_after f t ss = if keeps f then ss else mark_deleted ss t

-- A stream under way: libusb calls back for a transfer in flight, and the program begins to stop
-- or cancels, with an answer of libusb for every transfer.
pub data Step (w : World) : World → Type 0 where
  calls_back :
      (t : Transfer) (submitted : ℤ) {s : Stream} {f : Fate}
      → w.in_flight t.id ≡ true
      → stream_callback w.stream t submitted ≡ some (s, f)
      → Step w (record { stream = s; in_flight = after f t.id w.in_flight })
  begins_stop : Step w (record { stream = (stop_begin w.stream).1; in_flight = w.in_flight })
  cancels :
      (answer : ℕ → ℤ)
      → Step w (record { stream = stop_cancel answer w.stream; in_flight = w.in_flight })

pub data Reach (w : World) : World → Type 0 where
  here : Reach w w
  next : {v u : World} → Reach w v → Step v u → Reach w u

-- Every cancel is answered by success or LIBUSB_ERROR_NOT_FOUND; `uvc_stream_stop` takes any other
-- answer for the end of the transfer.
abbrev pub NoneFails : {w v : World} → Reach w v → Type 0
NoneFails here = Unit {0}
NoneFails (next r (cancels answer)) = NoneFails r × ((t : ℕ) → gives_up (answer t) ≡ false)
NoneFails (next r (calls_back t submitted flying e)) = NoneFails r
NoneFails (next r begins_stop) = NoneFails r

pub record InSync (w : World) : Type 0 where
  pub distinct : IsDistinct w.stream.slots
  pub tracked : (t : ℕ) → w.in_flight t ≡ live w.stream.slots t

stream_callback-slots :
    (s : Stream) (t : Transfer) (submitted : ℤ) {s' : Stream} {f : Fate}
    → stream_callback s t submitted ≡ some (s', f)
    → s'.slots ≡ slots_after f t.id s.slots
unfolding stream_callback release_transfer resubmit
stream_callback-slots s t submitted e = ground arith

cancel_slot_same :
    (answer : ℕ → ℤ) (s : Slot) → ((t : ℕ) → gives_up (answer t) ≡ false) → cancel_slot answer s ≡ s
unfolding cancel_slot
cancel_slot_same answer s h = elim (Option-cases s.transfer) [
  | inl null ↦ ground (arith, null)
  | inr (t, e) ↦ ground (arith, e, h t)
]

pub stop_cancel_same :
    (answer : ℕ → ℤ) (ss : List Slot)
    → ((t : ℕ) → gives_up (answer t) ≡ false)
    → map (cancel_slot answer) ss ≡ ss
stop_cancel_same answer [] h = refl
stop_cancel_same answer (s ∷ ss) h =
    ap₂ ◌∷◌ (cancel_slot_same answer s h) (stop_cancel_same answer ss h)

mark-InSync :
    (w : World) (s : Stream) (t : ℕ)
    → InSync w
    → s.slots ≡ mark_deleted w.stream.slots t
    → InSync (record { stream = s; in_flight = λ u. if u == t then false else w.in_flight u })
mark-InSync w s t y e = record {
  distinct = rw e (mark_deleted-IsDistinct w.stream.slots t y.distinct);
  tracked = λ u.
      ap (λ b. if u == t then false else b) (y.tracked u)
      ∙ sym (live-mark_deleted w.stream.slots t u y.distinct)
      ∙ ap (λ ss. live ss u) (sym e);
}

keep-InSync :
    (w : World) (s : Stream)
    → InSync w
    → s.slots ≡ w.stream.slots
    → InSync (record { stream = s; in_flight = w.in_flight })
keep-InSync w s y e = record {
  distinct = rw e y.distinct;
  tracked = λ u. y.tracked u ∙ ap (λ ss. live ss u) (sym e);
}

callback-InSync :
    (w : World) (s : Stream) (t : ℕ) (kept : Bool)
    → InSync w
    → s.slots ≡ (if kept then w.stream.slots else mark_deleted w.stream.slots t)
    → InSync (record {
      stream = s;
      in_flight = λ u. if kept then w.in_flight u else if u == t then false else w.in_flight u;
    })
callback-InSync w s t true y e = keep-InSync w s y e
callback-InSync w s t false y e = mark-InSync w s t y e

pub slots-stop_begin : (s : Stream) → (stop_begin s).1.slots ≡ s.slots
unfolding stop_begin
slots-stop_begin s = ground arith

pub Reach-InSync : {w v : World} → InSync w → (r : Reach w v) → NoneFails r → InSync v
unfolding stop_cancel
Reach-InSync y here none_fails = y
Reach-InSync y (next {v = w} r (calls_back t submitted {s} {f} flying e)) none_fails =
    callback-InSync w s t.id (keeps f) (Reach-InSync y r none_fails)
      (stream_callback-slots w.stream t submitted e)
Reach-InSync y (next {v = w} r begins_stop) none_fails =
    keep-InSync w (stop_begin w.stream).1 (Reach-InSync y r none_fails) (slots-stop_begin w.stream)
Reach-InSync y (next {v = w} r (cancels answer)) (none_fails, h) =
    keep-InSync w (stop_cancel answer w.stream) (Reach-InSync y r none_fails)
      (stop_cancel_same answer w.stream.slots h)

pub is_settled-live : (ss : List Slot) (t : ℕ) → is_settled ss ≡ true → live ss t ≡ false
unfolding is_settled live
is_settled-live [] t h = refl
is_settled-live (s ∷ ss) t h = ground (arith, is_settled-live ss t)
