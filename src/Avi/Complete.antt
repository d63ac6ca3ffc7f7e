-- ===== src/Avi/Complete.antt =====
-- The file that a recording of one segment leaves (tcluvc.c), whatever frames were skipped.
use mathlib.Core.Path.{subst}
use tcluvc.Prelude.{
  ℕ, ◌≡◌, ◌≢◌, refl, sym, ap, ◌∙◌, inl, inr, ◌≤◌, true, false, Option, none, some, List, [], ◌∷◌,
  ◌++◌, length, take, length-take, leb, ◌==◌, Run, done, arith, Bool-cases,
}
use tcluvc.Prelude.Int.{pos, negsuc}
use tcluvc.Delivery.Populate.{Frame}
use tcluvc.Avi.Channels.{Channel}
use tcluvc.Avi.Clock.{Timeval, difference, is_after}
use tcluvc.Avi.{RecState, failed, is_failed}
use tcluvc.Avi.Write.{Recorder, write_avi_frame, write_due, write_timed, timed, write_frame}
use tcluvc.Avi.File.{IsFile}
use tcluvc.Avi.Recording.{body}
use tcluvc.Avi.Frames.{IsRecording, frame_recorded}
use tcluvc.Avi.Whole.{
  Recorded, payload_of, output_of, due_written, due_not_skipped, frame_due, written_inside,
  same_code, same_value, code_of_skip,
}

same_done : {A : Type 0} (a b : A) → ◌≡◌ {A = Run A} (done a) (done b) → a ≡ b
same_done a b e = ground (arith, e)

module _ (chan : Channel) (contents : chan.State → List ℕ) (position : chan.State → ℕ)
    (file : IsFile chan contents position) (to_jpeg : Frame → Option Frame) where
  -- The calls of `write_frame` that report 1 have written a chunk, those that report 0 none.
  pub data Calls (r : Recorder chan.State) : List (List ℕ) → Recorder chan.State → Type 0 where
    none_yet : Calls r [] r
    wrote :
        {ps : List (List ℕ)} {x y : Recorder chan.State} (clock : Timeval) (frame : Frame)
        → Calls r ps x
        → write_frame chan to_jpeg true clock x frame ≡ done (pos 1, y)
        → Calls r (ps ++ (payload_of chan to_jpeg x.avi frame ∷ [])) y
    skipped :
        {ps : List (List ℕ)} {x y : Recorder chan.State} (clock : Timeval) (frame : Frame)
        → Calls r ps x
        → write_frame chan to_jpeg true clock x frame ≡ done (pos 0, y)
        → Calls r ps y

  -- The recorder that a written chunk leaves.
  due_kept :
      (header : List ℕ) (ps : List (List ℕ)) (x y : Recorder chan.State) (s : chan.State)
      (diff : Timeval) (frame : Frame)
      → x.boundary ≡ []
      → IsRecording contents position header ps (output_of chan to_jpeg x s)
      → length (body (ps ++ (payload_of chan to_jpeg x.avi frame ∷ []))) ≤ 0x7F000000
      → write_due chan to_jpeg true x s diff frame ≡ done (pos 1, y)
      → Recorded chan to_jpeg contents position header
          (ps ++ (payload_of chan to_jpeg x.avi frame ∷ []))
          y
  unfolding payload_of
  due_kept header ps x y s diff frame avi so_far small e =
      let (f, size, t, p, w, last) = due_written chan to_jpeg x y s diff frame avi e in
      let q : List ℕ = take size f.memory in
      let is_payload : payload_of chan to_jpeg x.avi frame ≡ q = rw (payload_of, p) in
      let inside = written_inside chan to_jpeg (output_of chan to_jpeg x s) t diff f size w in
      let long : size ≡ length q = ground (arith, inside, length-take size f.memory) in
      let (t', w', rec) =
        frame_recorded chan contents position file to_jpeg header ps (output_of chan to_jpeg x s)
          diff f q so_far (ap (λ n. take n f.memory) (sym long))
          (subst (λ n. leb n (length f.memory) ≡ true) long inside)
          (subst (λ z. length (body (ps ++ (z ∷ []))) ≤ 0x7F000000) is_payload small) in
      let same : t' ≡ t = same_done t' t (
        sym w'
        ∙ subst
            (λ n. write_avi_frame chan to_jpeg true (output_of chan to_jpeg x s) diff f n ≡ done t)
            long w) in
      subst
        (Recorded chan to_jpeg contents position header
          (ps ++ (payload_of chan to_jpeg x.avi frame ∷ [])))
        (sym last)
        (record {
          out = t.out;
          channel = refl;
          is_avi = avi;
          so_far =
              subst (λ z. IsRecording contents position header (ps ++ (z ∷ [])) t) (sym is_payload)
                (subst (IsRecording contents position header (ps ++ (q ∷ []))) same rec);
        })

  -- The time and the recording state of an open channel do not matter to what is recorded.
  timed_kept :
      (header : List ℕ) (ps : List (List ℕ)) (x : Recorder chan.State) (now : Timeval)
      → (r : Recorded chan to_jpeg contents position header ps x)
      → IsRecording contents position header ps
          (output_of chan to_jpeg (timed chan to_jpeg x now) r.out)
  unfolding timed
  timed_kept header ps x now r = record {
    at_end = r.so_far.at_end;
    works = open_state x.rstate r.so_far.works x.rchan r.out r.channel;
    writer = r.so_far.writer;
  }
    where
      open_state :
          (b : RecState)
          → is_failed b ≡ false
          → (o : Option chan.State) (s : chan.State) → o ≡ some s
          → is_failed (elim o as (λ _. RecState) [ none ↦ failed | some z ↦ b ]) ≡ false
      open_state b works o s has = rw has works

  pub wrote_kept :
      (header : List ℕ) (ps : List (List ℕ)) (x y : Recorder chan.State) (now : Timeval)
      (frame : Frame)
      → Recorded chan to_jpeg contents position header ps x
      → length (body (ps ++ (payload_of chan to_jpeg x.avi frame ∷ []))) ≤ 0x7F000000
      → write_timed chan to_jpeg true now x frame ≡ done (pos 1, y)
      → Recorded chan to_jpeg contents position header
          (ps ++ (payload_of chan to_jpeg x.avi frame ∷ []))
          y
  unfolding write_timed timed
  wrote_kept header ps x y now frame r small e =
      elim (Bool-cases (is_after (difference x.rtv now))) [
        | inl a ↦ absurd (code_of_skip _ (same_code _ (pos 1) _ y (rw (write_timed, a) at e)))
        | inr a ↦ elim (Bool-cases (frame.data_bytes == 0)) [
          | inl c ↦
              absurd (zero_is_not_one (same_code (pos 0) (pos 1) _ y (rw (write_timed, a, c) at e)))
          | inr c ↦
              due_kept header ps (timed chan to_jpeg x now) y r.out (difference now x.ltv) frame
                r.is_avi (timed_kept header ps x now r) small
                (frame_due chan to_jpeg x y r.out now frame (pos 1) r.channel one_is_fine a c e)
        ]
      ]
    where
      zero_is_not_one : pos 0 ≢ pos 1
      zero_is_not_one e = ground (arith, e)

      one_is_fine : pos 1 ≢ negsuc 0
      one_is_fine e = ground (arith, e)

  pub skip_kept :
      (header : List ℕ) (ps : List (List ℕ)) (x y : Recorder chan.State) (now : Timeval)
      (frame : Frame)
      → Recorded chan to_jpeg contents position header ps x
      → write_timed chan to_jpeg true now x frame ≡ done (pos 0, y)
      → Recorded chan to_jpeg contents position header ps y
  unfolding write_timed timed
  skip_kept header ps x y now frame r e = elim (Bool-cases (is_after (difference x.rtv now))) [
    | inl a ↦
        subst (Recorded chan to_jpeg contents position header ps)
          (same_value _ (pos 0) _ y (rw (write_timed, a) at e))
          (record {
            out = r.out;
            channel = r.channel;
            is_avi = r.is_avi;
            so_far = record {
              at_end = r.so_far.at_end;
              works = (timed_kept header ps x now r).works;
              writer = r.so_far.writer;
            };
          })
    | inr a ↦ elim (Bool-cases (frame.data_bytes == 0)) [
      | inl c ↦
          subst (Recorded chan to_jpeg contents position header ps)
            (same_value (pos 0) (pos 0) _ y (rw (write_timed, a, c) at e))
            (record {
              out = r.out;
              channel = r.channel;
              is_avi = r.is_avi;
              so_far = timed_kept header ps x now r;
            })
      | inr c ↦ absurd (
          due_not_skipped chan to_jpeg (timed chan to_jpeg x now) y r.out (difference now x.ltv)
            frame r.is_avi
            (frame_due chan to_jpeg x y r.out now frame (pos 0) r.channel zero_is_fine a c e))
    ]
  ]
    where
      zero_is_fine : pos 0 ≢ negsuc 0
      zero_is_fine e = ground (arith, e)
