-- ===== src/Delivery/Turns.antt =====
-- The thread that calls the user back, `_uvc_user_caller` in libuvc/src/stream.c, over any number of
-- turns: which frames the user is called with.
use tcluvc.Prelude.{
  ℕ, ◌≡◌, refl, ap₂, Bool, Option, some, ◌>>=◌, List, [], ◌∷◌, map, ◌==◌, if◌then◌else◌, inl, inr,
  Bool-cases,
}
use tcluvc.Descriptors.{FrameDesc}
use tcluvc.StreamCtrl.Formats.{FrameFormat}
use tcluvc.Stream.Payload.{Assembly}
use tcluvc.Stream.Payload.Validity.{IsValid}
use tcluvc.Delivery.Populate.{Frame, Timespec}
use tcluvc.Delivery.Populate.Laws.{IsInside, image, held, delivered, populate_frame-delivers}
use tcluvc.Delivery.Caller.{waits, ends, delivers, caller_turn}

-- What the thread finds when it holds the mutex.
pub record Moment : Type 0 where
  pub running : Bool
  pub asm : Assembly
  pub now : Timespec

-- The thread's turns from one moment to the next, and the frames that the user is called with.
unfoldable pub caller_turns :
    FrameFormat → Option FrameDesc → ℕ → Frame → List Moment → Option (List Frame)
caller_turns format desc last_seq fr [] = some []
caller_turns format desc last_seq fr (m ∷ ms) =
    caller_turn format desc m.now m.running last_seq fr m.asm >>= λ t. elim t [
      | waits ↦ caller_turns format desc last_seq fr ms
      | ends ↦ some []
      | delivers n fr' ↦ (caller_turns format desc n fr' ms >>= λ frs. some (fr' ∷ frs))
    ]

-- The moments before the stream is stopped.
unfoldable pub before_stop : List Moment → List Moment
before_stop [] = []
before_stop (m ∷ ms) = let rest = before_stop ms in if m.running then m ∷ rest else []

-- Numbered images without those that have the number of the one before.
unfoldable pub without_repeats : ℕ → List (ℕ × List ℕ) → List (ℕ × List ℕ)
without_repeats last [] = []
without_repeats last ((n, img) ∷ xs) =
    let same = without_repeats last xs in
    let other = without_repeats n xs in if last == n then same else (n, img) ∷ other

abbrev pub held_frame : FrameFormat → Moment → ℕ × List ℕ
held_frame format m = (m.asm.hold_seq, delivered format (held m.asm))

abbrev pub called_with : Frame → ℕ × List ℕ
called_with fr = (fr.sequence, image fr)

abbrev pub AllValid : ℕ → List Moment → Type 0
AllValid cap [] = Unit {0}
AllValid cap (m ∷ ms) = IsValid cap m.asm × AllValid cap ms

-- Whatever the thread finds from turn to turn, with valid buffers and a descriptor: until the stream
-- is stopped, the user is called once with each held frame whose number is not the last one noted,
-- with its number and its image, and with nothing after the stop.
pub caller_turns_once :
    (cap : ℕ) (format : FrameFormat) (desc : FrameDesc) (last : ℕ) (fr : Frame) (ms : List Moment)
    → AllValid cap ms
    → IsInside fr
    → (frs : List Frame) × (caller_turns format (some desc) last fr ms ≡ some frs)
      × (map called_with frs ≡ without_repeats last (map (held_frame format) (before_stop ms)))
unfolding caller_turns caller_turn before_stop without_repeats
caller_turns_once cap format desc last fr [] v inside = ([], refl, refl)
caller_turns_once cap format desc last fr (m ∷ ms) (v, vs) inside = elim (Bool-cases m.running) [
  | inr stopped ↦ ([], rw stopped refl, rw stopped refl)
  | inl runs ↦ elim (Bool-cases (last == m.asm.hold_seq)) [
    | inl old ↦
        let (frs, e, same) = caller_turns_once cap format desc last fr ms vs inside in
        (frs, rw (runs, old) e, rw (runs, old) same)
    | inr new ↦
        let (fr', got, inside', img, _, _, number) =
          populate_frame-delivers fr format desc m.now v inside in
        let (frs, e, same) = caller_turns_once cap format desc m.asm.hold_seq fr' ms vs inside' in
        (
          fr' ∷ frs,
          rw (runs, new, got, e) refl,
          rw (runs, new) (ap₂ ◌∷◌ (ap₂ (λ (n : ℕ) (i : List ℕ). (n, i)) number img) same),
        )
  ]
]
