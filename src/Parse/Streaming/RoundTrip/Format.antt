-- ===== src/Parse/Streaming/RoundTrip/Format.antt =====
-- A format block is read back as the format, without frames, behind the others.
use tcluvc.Prelude.{
  ℕ, ◌+◌, ◌≡◌, refl, ◌∙◌, ap, List, [], ◌++◌, length, take, arith, append-nil, append_assoc,
  length-append, take-append, done, after,
}
use tcluvc.Prelude.Int.{pos}
use tcluvc.Bytes.{byte_at}
use tcluvc.Descriptors.{FormatDesc, StreamingInterface}
use tcluvc.Parse.Streaming.{
  add_format, parse_vs_format_uncompressed, parse_vs_format_mjpeg, parse_vs_frame_format,
  parse_block, parse_vs,
}
use tcluvc.Parse.Streaming.Encode.{
  Payload, uncompressed, mjpeg, frame_based, IsFormat, encode_format, format_tail, format_size,
}
use tcluvc.Parse.Streaming.RoundTrip.Words.{byte_at-append}

-- The GUID and the bytes behind it.
take_guid : (guid ys : List ℕ) → length guid ≡ 16 → take 16 (guid ++ ys) ≡ guid
take_guid guid ys e =
    ap (λ n. take n (guid ++ ys)) {x = 16} {y = length guid + 0} (omega arith)
    ∙ take-append guid ys 0
    ∙ append-nil guid

module _ (s : StreamingInterface) (g : FormatDesc) (rest : List ℕ) where
  uncompressed_format :
      IsFormat uncompressed g
      → parse_vs_format_uncompressed s (encode_format uncompressed g ++ rest)
        ≡ done (add_format s (record g { frame_descs = [] }))
  unfolding parse_vs_format_uncompressed byte_at
  uncompressed_format h =
      let (size, a, b) = h.payload in
      let tail = format_tail uncompressed g ++ rest in
      rw (append_assoc g.guid (format_tail uncompressed g) rest) (
        ground (
          arith,
          h.subtype,
          size,
          a,
          b,
          take_guid g.guid tail size,
          length-append g.guid tail,
          byte_at-append g.guid tail 16 0 (omega arith),
          byte_at-append g.guid tail 17 1 (omega arith),
          byte_at-append g.guid tail 18 2 (omega arith),
          byte_at-append g.guid tail 19 3 (omega arith),
          byte_at-append g.guid tail 20 4 (omega arith),
          byte_at-append g.guid tail 21 5 (omega arith),
        ))

  mjpeg_format :
      (flags : ℕ)
      → IsFormat (mjpeg flags) g
      → parse_vs_format_mjpeg s (encode_format (mjpeg flags) g ++ rest)
        ≡ done (add_format s (record g { frame_descs = [] }))
  unfolding parse_vs_format_mjpeg byte_at
  mjpeg_format flags h = let (guid, a, b, c) = h.payload in ground (arith, h.subtype, guid, a, b, c)

  frame_based_format :
      IsFormat frame_based g
      → parse_vs_frame_format s (encode_format frame_based g ++ rest)
        ≡ done (add_format s (record g { frame_descs = [] }))
  unfolding parse_vs_frame_format byte_at
  frame_based_format h =
      let tail = format_tail frame_based g ++ rest in
      let size : length g.guid ≡ 16 = h.payload in
      rw (append_assoc g.guid (format_tail frame_based g) rest) (
        ground (
          arith,
          h.subtype,
          size,
          take_guid g.guid tail size,
          length-append g.guid tail,
          byte_at-append g.guid tail 16 0 (omega arith),
          byte_at-append g.guid tail 17 1 (omega arith),
          byte_at-append g.guid tail 18 2 (omega arith),
          byte_at-append g.guid tail 19 3 (omega arith),
          byte_at-append g.guid tail 20 4 (omega arith),
          byte_at-append g.guid tail 21 5 (omega arith),
          byte_at-append g.guid tail 22 6 (omega arith),
        ))

-- A format's block is parsed to the format without its frames.
pub parse_vs-encode_format :
    (k : Payload) (s : StreamingInterface) (g : FormatDesc) (rest : List ℕ)
    → IsFormat k g
    → parse_vs s (encode_format k g ++ rest)
      ≡ done (pos 0, add_format s (record g { frame_descs = [] }))
unfolding parse_vs parse_block byte_at
parse_vs-encode_format uncompressed s g rest h =
    ap (λ r. after r (λ s'. done (pos 0, s'))) (uncompressed_format s g rest h)
parse_vs-encode_format (mjpeg flags) s g rest h =
    ap (λ r. after r (λ s'. done (pos 0, s'))) (mjpeg_format s g rest flags h)
parse_vs-encode_format frame_based s g rest h =
    ap (λ r. after r (λ s'. done (pos 0, s'))) (frame_based_format s g rest h)

pub length-encode_format :
    (k : Payload) (g : FormatDesc) → IsFormat k g → length (encode_format k g) ≡ format_size k
length-encode_format uncompressed g h =
    let (size, _, _) = h.payload in
    omega (arith, size, length-append g.guid (format_tail uncompressed g))
length-encode_format (mjpeg flags) g h = refl
length-encode_format frame_based g h =
    omega (arith, h.payload, length-append g.guid (format_tail frame_based g))
