-- ===== src/Avi/Rewrite.antt =====
-- `WriteAVIHeader` of tcluvc.c writes the headers over the old ones and leaves the rest of the file.
use tcluvc.Prelude.{
  ℕ, ◌≡◌, refl, sym, ◌∙◌, false, List, [], ◌++◌, length, length-append, append_assoc, arith,
}
use tcluvc.Prelude.Int.{pos}
use tcluvc.Avi.Channels.{Channel}
use tcluvc.Avi.Headers.{avi_hdr_bytes, avi_hdrv_bytes, avi_hdro_bytes, avi_data_bytes}
use tcluvc.Avi.{Writer, Output, update_headers, rewrite_headers, write_avi_header}
use tcluvc.Avi.File.{IsFile, AtEnd, AtMiddle, write_middle, tell_end, seek_start, seek_end}
use tcluvc.Avi.Sizes.{
  headers, IsSized, length-avi_hdr, length-avi_hdrv, length-avi_hdro, length-avi_data,
  length-headers,
}

regroup :
    (a b c d rest : List ℕ)
    → ((((([] ++ a) ++ b) ++ c) ++ d) ++ rest) ≡ (a ++ (b ++ (c ++ d))) ++ rest
regroup a b c d rest = simp append_assoc

split : (a b c d rest : List ℕ) → (a ++ (b ++ (c ++ d))) ++ rest ≡ a ++ (b ++ (c ++ (d ++ rest)))
split a b c d rest = simp append_assoc

module _ (chan : Channel) (contents : chan.State → List ℕ) (position : chan.State → ℕ)
    (file : IsFile chan contents position) where
  -- The new headers take the place of the old ones, and the position is at the end again.
  pub headers_rewritten :
      (t : Output chan.State) (old : Writer) (rest : List ℕ)
      → AtEnd contents position t.out (headers old ++ rest)
      → IsSized old.avi_hdrv
      → IsSized t.avi.avi_hdrv
      → t.avi.pos0 ≡ pos 0
      → (s : chan.State) × (rewrite_headers chan t ≡ record t { out = s })
        × AtEnd contents position s (headers t.avi ++ rest)
  unfolding rewrite_headers headers
  headers_rewritten t old rest e sized sized' start =
      let a = t.avi in
      let h₁ : List ℕ = avi_hdr_bytes a.avi_hdr in
      let h₂ : List ℕ = avi_hdrv_bytes a.avi_hdrv in
      let h₃ : List ℕ = avi_hdro_bytes a.avi_hdro in
      let h₄ : List ℕ = avi_data_bytes a.avi_data in
      let o₁ : List ℕ = avi_hdr_bytes old.avi_hdr in
      let o₂ : List ℕ = avi_hdrv_bytes old.avi_hdrv in
      let o₃ : List ℕ = avi_hdro_bytes old.avi_hdro in
      let o₄ : List ℕ = avi_data_bytes old.avi_data in
      let (here, told) = tell_end chan contents position file t.out (headers old ++ rest) e in
      let s₀ : chan.State = (chan.tell t.out).1 in
      let s₁ : chan.State = (chan.seek s₀ (pos 0)).1 in
      let s₂ : chan.State = (chan.write_raw s₁ h₁).1 in
      let s₃ : chan.State = (chan.write_raw s₂ h₂).1 in
      let s₄ : chan.State = (chan.write_raw s₃ h₃).1 in
      let s₅ : chan.State = (chan.write_raw s₄ h₄).1 in
      let m₁ : AtMiddle contents position s₁ [] (o₁ ++ (o₂ ++ (o₃ ++ (o₄ ++ rest)))) =
        seek_start chan contents position file s₀ _ (told.holds ∙ split o₁ o₂ o₃ o₄ rest) in
      let m₂ =
        write_middle chan contents position file s₁ [] o₁ _ h₁
          (length-avi_hdr old.avi_hdr ∙ sym (length-avi_hdr a.avi_hdr)) m₁ in
      let m₃ =
        write_middle chan contents position file s₂ _ o₂ _ h₂
          (length-avi_hdrv old.avi_hdrv sized ∙ sym (length-avi_hdrv a.avi_hdrv sized')) m₂ in
      let m₄ =
        write_middle chan contents position file s₃ _ o₃ _ h₃
          (length-avi_hdro old.avi_hdro ∙ sym (length-avi_hdro a.avi_hdro)) m₃ in
      let m₅ =
        write_middle chan contents position file s₄ _ o₄ rest h₄
          (length-avi_data old.avi_data ∙ sym (length-avi_data a.avi_data)) m₄ in
      let whole : contents s₅ ≡ headers a ++ rest = m₅.holds ∙ regroup h₁ h₂ h₃ h₄ rest in
      let same : length (headers old ++ rest) ≡ length (headers a ++ rest) = omega (
        arith,
        length-append (headers old) rest,
        length-append (headers a) rest,
        length-headers old sized,
        length-headers a sized',
      ) in
      let (back, end) = seek_end chan contents position file s₅ (headers a ++ rest) whole in
      ((chan.seek s₅ (pos (length (headers a ++ rest)))).1, rw (here, same, start, back), end)

  pub header_update :
      (t : Output chan.State)
      → write_avi_header chan t false
        ≡ rewrite_headers chan (record t { avi = update_headers t.avi 0 0 })
  unfolding write_avi_header
  header_update t = refl
