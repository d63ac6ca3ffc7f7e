-- ===== src/Avi/Sizes.antt =====
-- The headers of an AVI file as they are laid out, and how long they are.
use tcluvc.Prelude.{ℕ, ◌≡◌, refl, ap, ◌∙◌, ◌+◌, List, [], ◌∷◌, ◌++◌, length, length-append, arith}
use tcluvc.Avi.Headers.{
  AviHdr, AviHdrVideo, AviHdrOdml, put16le, put32le, dwords, avih_bytes, strh_bytes, strf_bytes,
  chunk_hdr, strf_id, avi_hdr_bytes, avi_hdrv_bytes, avi_hdro_bytes, avi_data_bytes,
}
use tcluvc.Avi.{Writer}

unfoldable pub headers : Writer → List ℕ
headers a =
    avi_hdr_bytes a.avi_hdr
    ++ (avi_hdrv_bytes a.avi_hdrv ++ (avi_hdro_bytes a.avi_hdro ++ avi_data_bytes a.avi_data))

-- The identifiers of the video header have four characters each.
pub record IsSized (v : AviHdrVideo) : Type 0 where
  pub kind_size : length v.strh.kind ≡ 4
  pub handler_size : length v.strh.handler ≡ 4
  pub compr_size : length v.strf.compr ≡ 4

pub length-avi_hdr : (h : AviHdr) → length (avi_hdr_bytes h) ≡ 88
unfolding avi_hdr_bytes chunk_hdr avih_bytes dwords put32le
length-avi_hdr h = refl

strh_size_lem : (v : AviHdrVideo) → IsSized v → length (strh_bytes v.strh) ≡ 48
unfolding strh_bytes dwords put32le
strh_size_lem v s =
    let tail : List ℕ = dwords (
      v.strh.flags ∷ v.strh.priority ∷ v.strh.res0 ∷ v.strh.scale ∷ v.strh.rate ∷ v.strh.start
      ∷ v.strh.length ∷ v.strh.bufsize ∷ v.strh.quality ∷ v.strh.samplesize ∷ []) in
    length-append v.strh.kind (v.strh.handler ++ tail)
    ∙ ap (λ n. length v.strh.kind + n) (length-append v.strh.handler tail)
    ∙ rw (s.kind_size, s.handler_size)

strf_size_lem : (v : AviHdrVideo) → IsSized v → length (strf_bytes v.strf) ≡ 40
unfolding strf_bytes dwords put32le put16le
strf_size_lem v s =
    let tail : List ℕ = dwords (
      v.strf.image_size ∷ v.strf.xpels_meter ∷ v.strf.ypels_meter ∷ v.strf.num_colors
      ∷ v.strf.imp_colors ∷ []) in
    let twenty : length tail ≡ 20 = refl in
    omega (arith, length-append v.strf.compr tail, s.compr_size, twenty)

pub length-avi_hdrv : (v : AviHdrVideo) → IsSized v → length (avi_hdrv_bytes v) ≡ 116
unfolding avi_hdrv_bytes chunk_hdr put32le
length-avi_hdrv v s = omega (
  arith,
  length-append (strh_bytes v.strh) (chunk_hdr strf_id v.strf_size ++ strf_bytes v.strf),
  strh_size_lem v s,
  strf_size_lem v s,
)

pub length-avi_hdro : (h : AviHdrOdml) → length (avi_hdro_bytes h) ≡ 24
unfolding avi_hdro_bytes chunk_hdr put32le
length-avi_hdro h = refl

pub length-avi_data : (n : ℕ) → length (avi_data_bytes n) ≡ 12
unfolding avi_data_bytes chunk_hdr put32le
length-avi_data n = refl

pub length-headers : (a : Writer) → IsSized a.avi_hdrv → length (headers a) ≡ 240
unfolding headers
length-headers a s = omega (
  arith,
  length-append (avi_hdr_bytes a.avi_hdr)
      (avi_hdrv_bytes a.avi_hdrv ++ (avi_hdro_bytes a.avi_hdro ++ avi_data_bytes a.avi_data)),
  length-append (avi_hdrv_bytes a.avi_hdrv)
      (avi_hdro_bytes a.avi_hdro ++ avi_data_bytes a.avi_data),
  length-append (avi_hdro_bytes a.avi_hdro) (avi_data_bytes a.avi_data),
  length-avi_hdr a.avi_hdr,
  length-avi_hdrv a.avi_hdrv s,
  length-avi_hdro a.avi_hdro,
  length-avi_data a.avi_data,
)
