-- ===== src/Avi/Begin.antt =====
-- The start of an AVI file by `StartRecording` of tcluvc.c, on an empty file.
use mathlib.Core.Path.{subst}
use tcluvc.Prelude.{
  ℕ, ◌≡◌, refl, sym, ◌∙◌, inl, inr, Bool, ◌||◌, none, List, [], ◌++◌, length, Bool-cases,
  append-nil,
}
use tcluvc.Prelude.Int.{ℤ, pos, ◌+ℤ◌}
use tcluvc.Avi.Channels.{Channel}
use tcluvc.Avi.Headers.{unsigned, avi_hdr_bytes, avi_hdrv_bytes, avi_hdro_bytes, avi_data_bytes}
use tcluvc.Avi.Clock.{Timeval, micros}
use tcluvc.Avi.{Writer, Output, stop, update_headers}
use tcluvc.Avi.Fresh.{CameraFormat, no_writer, fresh_headers}
use tcluvc.Avi.Session.{begin_avi}
use tcluvc.Avi.File.{IsFile, AtEnd, write_end}
use tcluvc.Avi.Recording.{body, index_from, HasWritten}
use tcluvc.Avi.Rewrite.{header_update, headers_rewritten}
use tcluvc.Avi.Finish.{update_headers-IsSized, start_update, behind}
use tcluvc.Avi.Sizes.{headers, IsSized, length-avi_hdr, length-avi_hdrv, length-avi_hdro}

fresh_headers-IsSized :
    (format : CameraFormat) (jpeg : Bool) (us : ℕ)
    → length format.fourcc ≡ 4
    → IsSized (fresh_headers no_writer format jpeg us).avi_hdrv
unfolding fresh_headers
fresh_headers-IsSized format jpeg us four = elim (Bool-cases (format.iscomp || jpeg)) [
  | inl c ↦ rw c (record { kind_size = refl; handler_size = refl; compr_size = refl })
  | inr c ↦ rw c (record { kind_size = refl; handler_size = four; compr_size = four })
]

abbrev pub restarted : Writer → Writer
restarted a = record a { curr_idx = 0; num_idx = 0; idx_off = 4; idx = none }

nothing_written :
    (a : Writer) (flags : ℕ)
    → a.totsize ≡ 0
    → a.segsize ≡ 0
    → a.nframes ≡ 0
    → a.pos0 ≡ pos 0
    → a.hdrsize ≡ pos 228
    → IsSized a.avi_hdrv
    → HasWritten [] (restarted (update_headers a flags 0))
unfolding update_headers body index_from
nothing_written a flags tot seg fr start size sized = record {
  total = tot;
  segment = seg;
  frames = fr;
  indexed = refl;
  counted = refl;
  room = refl;
  next_offset = refl;
  from_start = start;
  header_size = size;
  kind_size = sized.kind_size;
  handler_size = sized.handler_size;
  compr_size = sized.compr_size;
}

module _ (chan : Channel) (contents : chan.State → List ℕ) (position : chan.State → ℕ)
    (file : IsFile chan contents position) where
  pub begun :
      (s : chan.State) (format : CameraFormat) (jpeg : Bool) (period : Timeval)
      → AtEnd contents position s []
      → length format.fourcc ≡ 4
      → AtEnd contents position
          (begin_avi chan s no_writer format jpeg period (pos 0)).out
          (headers (begin_avi chan s no_writer format jpeg period (pos 0)).avi ++ [])
        × HasWritten [] (begin_avi chan s no_writer format jpeg period (pos 0)).avi
  unfolding begin_avi headers fresh_headers update_headers ◌+ℤ◌
  begun s format jpeg period e four =
      let a : Writer = fresh_headers no_writer format jpeg (unsigned (micros period)) in
      let sized = fresh_headers-IsSized format jpeg (unsigned (micros period)) four in
      let h₁ : List ℕ = avi_hdr_bytes a.avi_hdr in
      let h₂ : List ℕ = avi_hdrv_bytes a.avi_hdrv in
      let h₃ : List ℕ = avi_hdro_bytes a.avi_hdro in
      let h₄ : List ℕ = avi_data_bytes 0 in
      let (w₁, e₁) = write_end chan contents position file s [] h₁ e in
      let s₁ : chan.State = (chan.write_raw s h₁).1 in
      let (w₂, e₂) = write_end chan contents position file s₁ ([] ++ h₁) h₂ e₁ in
      let s₂ : chan.State = (chan.write_raw s₁ h₂).1 in
      let (w₃, e₃) = write_end chan contents position file s₂ (([] ++ h₁) ++ h₂) h₃ e₂ in
      let s₃ : chan.State = (chan.write_raw s₂ h₃).1 in
      let (_, e₄) = write_end chan contents position file s₃ ((([] ++ h₁) ++ h₂) ++ h₃) h₄ e₃ in
      let size : ℤ =
        (chan.write_raw s h₁).0 +ℤ (chan.write_raw s₁ h₂).0 +ℤ (chan.write_raw s₂ h₃).0 in
      let full : size ≡ pos 228 = rw (
        w₁,
        w₂,
        w₃,
        length-avi_hdr a.avi_hdr,
        length-avi_hdrv a.avi_hdrv sized,
        length-avi_hdro a.avi_hdro,
      ) in
      let b : Writer = record a { pos0 = pos 0; hdrsize = size; segsize0 = 4 } in
      let t : Output chan.State = record {
        out = (chan.write_raw s₃ h₄).1;
        rstate = stop;
        avi = b;
      } in
      let (s', w, end) =
        headers_rewritten chan contents position file (record t { avi = update_headers b 0 0 }) a []
          (subst (AtEnd contents position t.out)
            (behind h₁ h₂ h₃ h₄ ∙ sym (append-nil (h₁ ++ (h₂ ++ (h₃ ++ h₄))))) e₄)
          sized (update_headers-IsSized b 0 0 sized) (start_update b 0 0) in
      subst
        (λ z.
          AtEnd contents position z.out (headers (restarted z.avi) ++ [])
          × HasWritten [] (restarted z.avi))
        (sym (header_update chan contents position file t ∙ w))
        (end, nothing_written b 0 refl refl refl refl full sized)
