-- ===== src/Avi/Started.antt =====
-- What `StartRecording` of tcluvc.c, the calls of `WriteFrame` and `FinishRecording` each leave.
use mathlib.Core.Path.{subst}
use tcluvc.Prelude.{
  ℕ, ◌≡◌, sym, ap, ◌∙◌, inl, inr, ◌≤◌, ◌<◌, Bool, true, false, ◌||◌, Option, none, some, List, [],
  ◌++◌, length, length-append, ◌==◌, if◌then◌else◌, arith, Option-cases,
}
use tcluvc.Prelude.Int.{pos}
use tcluvc.Delivery.Populate.{Frame}
use tcluvc.Avi.Channels.{Channel}
use tcluvc.Avi.Headers.{AviIdx}
use tcluvc.Avi.Clock.{Timeval}
use tcluvc.Avi.{
  Writer, Output, recpri, recording, pausepri, pause, is_failed, write_avi_header,
  close_avi_segment,
}
use tcluvc.Avi.Write.{Recorder, time_of, write_frame}
use tcluvc.Avi.Fresh.{CameraFormat, no_writer, period_of}
use tcluvc.Avi.Session.{Wish, begin_avi, finish_recording, start_recording}
use tcluvc.Avi.File.{IsFile, AtEnd}
use tcluvc.Avi.Recording.{body, chunk, body-append, index_from, length-index_from, HasWritten}
use tcluvc.Avi.Sizes.{headers, IsSized}
use tcluvc.Avi.Whole.{Recorded, payload_of, output_of}
use tcluvc.Avi.Complete.{Calls, none_yet, wrote, skipped, wrote_kept, skip_kept}
use tcluvc.Avi.Begin.{begun}

at_none :
    {S Y : Type 0} (o : Option S) (n : Y) (k : S → Y)
    → o ≡ none
    → elim o as (λ _. Y) [ none ↦ n | some x ↦ k x ] ≡ n
at_none o n k has = rw has

at_one :
    {S Y : Type 0} (o : Option S) (s : S) (n : Y) (k : S → Y)
    → o ≡ some s
    → elim o as (λ _. Y) [ none ↦ n | some x ↦ k x ] ≡ k s
at_one o s n k has = rw has

first_of_if : {A B : Type 0} (b : Bool) (u v : A × B) → b ≡ true → (if b then u else v).0 ≡ u.0
first_of_if b u v e = rw e

starts_well :
    (user running conv : Bool)
    → is_failed (
        if user
        then (if running then recording else pause)
        else if running
        then (if conv then recpri else recording)
        else (if conv then pausepri else pause))
      ≡ false
starts_well user running conv = ground arith

-- A writer that has counted a frame has an index.
pub has_index :
    (ps : List (List ℕ)) (a : Writer)
    → HasWritten ps a
    → 0 < length ps
    → (es : List AviIdx) × (a.idx ≡ some es)
has_index ps a h some_frame = elim (Option-cases a.idx) [
  | inr found ↦ found
  | inl missing ↦ absurd (
      let empty : [] ≡ index_from 4 ps = (let i = h.indexed in rw missing at i) in
      omega (arith, ap length empty, length-index_from ps 4, some_frame))
]

module _ (chan : Channel) (contents : chan.State → List ℕ) (position : chan.State → ℕ)
    (file : IsFile chan contents position) (to_jpeg : Frame → Option Frame) where
  pub calls_kept :
      (header : List ℕ) (r x : Recorder chan.State) (ps : List (List ℕ))
      → Recorded chan to_jpeg contents position header [] r
      → Calls chan contents position file to_jpeg r ps x
      → length (body ps) ≤ 0x7F000000
      → Recorded chan to_jpeg contents position header ps x
  unfolding write_frame
  calls_kept header r x ps start none_yet small = start
  calls_kept header r y ps start (skipped {ps = qs} {x = x} clock frame c e) small =
      skip_kept chan contents position file to_jpeg header ps x y (time_of chan to_jpeg clock frame)
        frame (calls_kept header r x ps start c small) e
  calls_kept header r y ps start (wrote {ps = qs} {x = x} clock frame c e) small =
      wrote_kept chan contents position file to_jpeg header qs x y
        (time_of chan to_jpeg clock frame) frame
        (calls_kept header r x qs start c (
          omega (
            arith,
            small,
            ap length (body-append qs (payload_of chan to_jpeg x.avi frame)),
            length-append (body qs) (chunk (payload_of chan to_jpeg x.avi frame)),
          )))
        small e

  pub started :
      (s : chan.State) (r : Recorder chan.State) (format : CameraFormat) (wish : Wish)
      (clock : Timeval) (running conv : Bool) (fps : ℕ)
      → AtEnd contents position s []
      → length format.fourcc ≡ 4
      → wish.boundary ≡ []
      → r.rchan ≡ none
      → r.avi ≡ no_writer
      → (old : Writer) × IsSized old.avi_hdrv
        × Recorded chan to_jpeg contents position
            (headers old)
            []
            (start_recording chan r format wish s (pos 0) clock running conv fps)
  unfolding start_recording finish_recording body
  started s r format wish clock running conv fps empty four avi closed fresh =
      let period : Timeval = period_of wish.period fps in
      let jpeg : Bool = wish.mjpeg || wish.user in
      let left : (finish_recording chan r).1.avi ≡ no_writer =
        ap (λ (z : Option chan.State × Recorder chan.State). z.1.avi) (at_none r.rchan _ _ closed)
        ∙ fresh in
      let t : Output chan.State =
        begin_avi chan s (finish_recording chan r).1.avi format jpeg period (pos 0) in
      let (end, counts) =
        subst
          (λ a.
            AtEnd contents position (begin_avi chan s a format jpeg period (pos 0)).out
              (headers (begin_avi chan s a format jpeg period (pos 0)).avi ++ [])
            × HasWritten [] (begin_avi chan s a format jpeg period (pos 0)).avi)
          (sym left) (begun chan contents position file s format jpeg period empty four) in
      let is_avi : length wish.boundary == 0 ≡ true = ap (λ b. length b == 0) avi in
      (
        t.avi,
        record {
          kind_size = counts.kind_size;
          handler_size = counts.handler_size;
          compr_size = counts.compr_size;
        },
        record {
          out = t.out;
          channel = ap (λ b. some (if b then t.out else s)) is_avi;
          is_avi = avi;
          so_far = record {
            at_end = end;
            works = starts_well wish.user running conv;
            writer =
                subst
                  (λ (b : Bool).
                    HasWritten [] (if b then t.avi else (finish_recording chan r).1.avi))
                  (sym is_avi) counts;
          };
        },
      )

  pub finished :
      (header : List ℕ) (ps : List (List ℕ)) (x : Recorder chan.State)
      → (rec : Recorded chan to_jpeg contents position header ps x)
      → (finish_recording chan x).0
        ≡ some
            (write_avi_header chan
              (close_avi_segment chan (output_of chan to_jpeg x rec.out) true)
              true).out
  unfolding finish_recording
  finished header ps x rec =
      ap (λ (z : Option chan.State × Recorder chan.State). z.0)
        (at_one x.rchan rec.out _ _ rec.channel)
      ∙ first_of_if (length x.boundary == 0) _ _ (ap (λ b. length b == 0) rec.is_avi)
