-- ===== src/Avi/Frames.antt =====
-- Frames that `WriteFrame` of tcluvc.c adds to the first segment of an AVI file.
use mathlib.Core.Path.{subst}
use tcluvc.Prelude.{
  ℕ, ◌≡◌, sym, ap, ◌∙◌, inl, inr, ◌+◌, ◌-◌, ◌≤◌, true, false, Option, List, [], ◌∷◌, ◌++◌, length,
  take, replicate, append_assoc, append-nil, ltb, leb, ◌==◌, done, arith, Bool-cases,
  length-replicate,
}
use tcluvc.Delivery.Populate.{Frame}
use tcluvc.Avi.Channels.{Channel}
use tcluvc.Avi.Headers.{chunk_hdr, frame_id, put32le}
use tcluvc.Avi.Clock.{Timeval}
use tcluvc.Avi.{is_failed, Output, Writer}
use tcluvc.Avi.Write.{aligned, average_rate, write_chunk, after_chunk, write_avi_frame}
use tcluvc.Avi.File.{IsFile, AtEnd, write_end}
use tcluvc.Avi.Recording.{
  chunk, body, HasWritten, next_writer, counted_frame, body_longer, body-append,
}

-- The file holds a header and the chunks so far, and the writer agrees with it.
pub record IsRecording {S : Type 0} (contents : S → List ℕ) (position : S → ℕ) (header : List ℕ)
    (ps : List (List ℕ)) (t : Output S) : Type 0 where
  pub at_end : AtEnd contents position t.out (header ++ body ps)
  pub works : is_failed t.rstate ≡ false
  pub writer : HasWritten ps t.avi

rated :
    (ps : List (List ℕ)) (a : Writer) (diff : Timeval)
    → HasWritten ps a
    → HasWritten ps (average_rate a diff)
unfolding average_rate
rated ps a diff h = record {
  total = h.total;
  segment = h.segment;
  frames = h.frames;
  indexed = h.indexed;
  counted = h.counted;
  room = h.room;
  next_offset = h.next_offset;
  from_start = h.from_start;
  header_size = h.header_size;
  kind_size = h.kind_size;
  handler_size = h.handler_size;
  compr_size = h.compr_size;
}

module _ (chan : Channel) (contents : chan.State → List ℕ) (position : chan.State → ℕ)
    (file : IsFile chan contents position) (to_jpeg : Frame → Option Frame) where
  regroup : (xs a b c : List ℕ) → (((xs ++ a) ++ b) ++ c) ≡ xs ++ ((a ++ b) ++ c)
  regroup xs a b c = simp append_assoc

  chunk_written :
      (s : chan.State) (xs p : List ℕ)
      → AtEnd contents position s xs
      → (s' : chan.State) × (write_chunk chan to_jpeg s p (length p) (aligned (length p))
          ≡ (true, true, s'))
        × AtEnd contents position s' (xs ++ chunk p)
  unfolding write_chunk chunk chunk_hdr put32le
  chunk_written s xs p e =
      let head : List ℕ = chunk_hdr frame_id (aligned (length p)) in
      let fill : List ℕ = replicate (aligned (length p) - length p) 0 in
      let (w₁, e₁) = write_end chan contents position file s xs head e in
      let s₁ : chan.State = (chan.write_raw s head).1 in
      let (w₂, e₂) = write_end chan contents position file s₁ (xs ++ head) p e₁ in
      let s₂ : chan.State = (chan.write_raw s₁ p).1 in
      let (w₃, e₃) = write_end chan contents position file s₂ ((xs ++ head) ++ p) fill e₂ in
      elim (Bool-cases (ltb (length p) (aligned (length p)))) [
        | inl t ↦ (
          (chan.write_raw s₂ fill).1,
          ground (arith, w₁, w₂, w₃, t, length-replicate {A = ℕ} (aligned (length p) - length p) 0),
          subst (AtEnd contents position (chan.write_raw s₂ fill).1) (regroup xs head p fill) e₃,
        )
        | inr t ↦ (
          s₂,
          ground (arith, w₁, w₂, t),
          subst (AtEnd contents position s₂)
              (append_assoc xs head p
                ∙ ap (λ z. xs ++ z)
                    (sym (append-nil (head ++ p))
                      ∙ ap (λ n. (head ++ p) ++ replicate n 0) (none_left t)))
              e₂,
        )
      ]
    where
      none_left : ltb (length p) (aligned (length p)) ≡ false → 0 ≡ aligned (length p) - length p
      none_left t = ground (arith, t)

  -- One more frame of an AVI file: the channel gets its chunk, and the writer its entry.
  pub frame_recorded :
      (header : List ℕ) (ps : List (List ℕ)) (t : Output chan.State) (diff : Timeval)
      (frame : Frame) (p : List ℕ)
      → IsRecording contents position header ps t
      → take (length p) frame.memory ≡ p
      → leb (length p) (length frame.memory) ≡ true
      → length (body (ps ++ (p ∷ []))) ≤ 0x7F000000
      → (t' : Output chan.State) × (write_avi_frame chan to_jpeg true t diff frame (length p)
          ≡ done t')
        × IsRecording contents position header (ps ++ (p ∷ [])) t'
  unfolding write_avi_frame after_chunk average_rate
  frame_recorded header ps t diff frame p r same fits small =
      let (s', e, end) = chunk_written t.out (header ++ body ps) p r.at_end in
      let next : HasWritten (ps ++ (p ∷ [])) (next_writer t.avi (aligned (length p))) =
        counted_frame ps p t.avi r.writer in
      let inside : ltb 0x7F000000 (t.avi.segsize + (aligned (length p) + 8)) ≡ false =
        ground (arith, small, r.writer.segment, body_longer ps p) in
      let first : (t.avi.totsize + (aligned (length p) + 8)
            == t.avi.segsize + (aligned (length p) + 8))
          ≡ true =
        ground (arith, r.writer.segment, r.writer.total) in
      (
        record {
          out = s';
          rstate = t.rstate;
          avi = average_rate (next_writer t.avi (aligned (length p))) diff;
        },
        rw (write_avi_frame, same, e, after_chunk, inside, first, fits),
        record {
          at_end =
              subst (AtEnd contents position s')
                (append_assoc header (body ps) (chunk p)
                  ∙ ap (λ z. header ++ z) (sym (body-append ps p)))
                end;
          works = r.works;
          writer = rated (ps ++ (p ∷ [])) (next_writer t.avi (aligned (length p))) diff next;
        },
      )
