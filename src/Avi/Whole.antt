-- ===== src/Avi/Whole.antt =====
-- A recording from its start to its end (tcluvc.c): `StartRecording`, calls of `WriteFrame`, and
-- `FinishRecording`, on a file.
use tcluvc.Prelude.{
  ℕ, ◌≡◌, ◌≢◌, sym, inl, inr, Bool, true, false, Option, none, some, List, [], length, take, leb,
  ◌==◌, if◌then◌else◌, Run, done, fault, arith, Bool-cases, Option-cases, Run-cases,
}
use tcluvc.Prelude.Int.{ℤ, pos, negsuc}
use tcluvc.Delivery.Populate.{Frame}
use tcluvc.Avi.Channels.{Channel}
use tcluvc.Avi.Clock.{Timeval, difference, is_after}
use tcluvc.Avi.{Writer, Output, is_failed}
use tcluvc.Avi.Write.{
  Recorder, avi_payload, write_avi_frame, write_due, state_now, write_timed, timed,
}
use tcluvc.Avi.Frames.{IsRecording}

pub same_code :
    {A : Type 0} (m n : ℤ) (a b : A) → ◌≡◌ {A = Run (ℤ × A)} (done (m, a)) (done (n, b)) → m ≡ n
same_code m n a b e = ground (arith, e)

pub same_value :
    {A : Type 0} (m n : ℤ) (a b : A) → ◌≡◌ {A = Run (ℤ × A)} (done (m, a)) (done (n, b)) → a ≡ b
same_value m n a b e = ground (arith, e)

at_some :
    {S Y : Type 0} (o : Option S) (s : S) (n : Y) (k : S → Y) (y : Y)
    → o ≡ some s
    → elim o as (λ _. Y) [ none ↦ n | some x ↦ k x ] ≡ y
    → k s ≡ y
at_some o s n k y has e = rw has at e

pub code_of_skip : (b : Bool) → (if b then negsuc 0 else pos 0) ≢ pos 1
code_of_skip true e = ground (arith, e)
code_of_skip false e = ground (arith, e)

module _ (chan : Channel) (to_jpeg : Frame → Option Frame) where
  abbrev pub output_of : Recorder chan.State → chan.State → Output chan.State
  output_of r s = record { out = s; rstate = r.rstate; avi = r.avi }

  pub due_written :
      (r r' : Recorder chan.State) (s : chan.State) (diff : Timeval) (frame : Frame)
      → r.boundary ≡ []
      → write_due chan to_jpeg true r s diff frame ≡ done (pos 1, r')
      → (f : Frame) × (size : ℕ) × (t : Output chan.State) × (avi_payload chan to_jpeg r.avi frame
          ≡ some (f, size))
        × (write_avi_frame chan to_jpeg true (output_of r s) diff f size ≡ done t)
        × (r' ≡ record r { rchan = some t.out; rstate = t.rstate; avi = t.avi })
  unfolding write_due
  due_written r r' s diff frame avi e = elim (Option-cases (avi_payload chan to_jpeg r.avi frame)) [
    | inl bad ↦ absurd (ground (arith, e, avi, bad))
    | inr ((f, size), p) ↦
        elim (Run-cases (write_avi_frame chan to_jpeg true (output_of r s) diff f size)) [
          | inl (t, w) ↦ (f, size, t, p, w, ground (arith, e, avi, p, w))
          | inr (inl w) ↦ absurd (ground (arith, e, avi, p, w))
          | inr (inr w) ↦ absurd (ground (arith, e, avi, p, w))
        ]
  ]

  pub due_not_skipped :
      (r r' : Recorder chan.State) (s : chan.State) (diff : Timeval) (frame : Frame)
      → r.boundary ≡ []
      → write_due chan to_jpeg true r s diff frame ≡ done (pos 0, r')
      → ⊥
  unfolding write_due
  due_not_skipped r r' s diff frame avi e =
      elim (Option-cases (avi_payload chan to_jpeg r.avi frame)) [
        | inl bad ↦ ground (arith, e, avi, bad)
        | inr ((f, size), p) ↦
            elim (Run-cases (write_avi_frame chan to_jpeg true (output_of r s) diff f size)) [
              | inl (t, w) ↦ ground (arith, e, avi, p, w)
              | inr (inl w) ↦ ground (arith, e, avi, p, w)
              | inr (inr w) ↦ ground (arith, e, avi, p, w)
            ]
      ]

  -- A call that is not skipped, and reports success or a skip, comes to the writing.
  pub frame_due :
      (r r' : Recorder chan.State) (s : chan.State) (now : Timeval) (frame : Frame) (ret : ℤ)
      → r.rchan ≡ some s
      → ret ≢ negsuc 0
      → is_after (difference r.rtv now) ≡ false
      → frame.data_bytes == 0 ≡ false
      → write_timed chan to_jpeg true now r frame ≡ done (ret, r')
      → write_due chan to_jpeg true (timed chan to_jpeg r now) s (difference now r.ltv) frame
        ≡ done (ret, r')
  unfolding write_timed
  frame_due r r' s now frame ret has ok a c e =
      elim (Bool-cases (is_failed (state_now chan to_jpeg r))) [
        | inl d ↦ absurd (ok (sym (same_code (negsuc 0) ret _ r' (rw (write_timed, a, c, d) at e))))
        | inr d ↦ at_some r.rchan s _ _ _ has (rw (write_timed, a, c, d) at e)
      ]

  -- The bytes of the chunk that a frame becomes.
  unfoldable pub payload_of : Writer → Frame → List ℕ
  payload_of a frame = elim (avi_payload chan to_jpeg a frame) [
    | none ↦ []
    | some (f, size) ↦ take size f.memory
  ]

  pub written_inside :
      (t t' : Output chan.State) (diff : Timeval) (f : Frame) (size : ℕ)
      → write_avi_frame chan to_jpeg true t diff f size ≡ done t'
      → leb size (length f.memory) ≡ true
  unfolding write_avi_frame
  written_inside t t' diff f size e = elim (Bool-cases (leb size (length f.memory))) [
    | inl inside ↦ inside
    | inr outside ↦ absurd (no_fault t' (rw (write_avi_frame, outside) at e))
  ]
    where
      no_fault : (t' : Output chan.State) → ◌≡◌ {A = Run (Output chan.State)} fault (done t') → ⊥
      no_fault t' e = ground (arith, e)

  -- An AVI file is being written.
  pub record Recorded (contents : chan.State → List ℕ) (position : chan.State → ℕ) (header : List ℕ)
      (ps : List (List ℕ)) (r : Recorder chan.State) : Type 0 where
    pub out : chan.State
    pub channel : r.rchan ≡ some out
    pub is_avi : r.boundary ≡ []
    pub so_far : IsRecording contents position header ps (output_of r out)
