-- ===== src/Convert/Frames/Any.antt =====
-- The colour conversions of any frame, `any2rgb` and `any2bgr`, in either order of the source.
use tcluvc.Prelude.{ℕ, ◌*◌, ◌/◌, ◌%◌, ◌^◌, ◌≤◌, ◌<◌, ◌≡◌, ◌≢◌, refl, ◌∙◌, ap₂, List, ◌++◌, length}
use tcluvc.Prelude.Int.{pos}
use tcluvc.StreamCtrl.Formats
use tcluvc.StreamCtrl.Formats.{FrameFormat}
use tcluvc.Delivery.Populate.{Frame}
use tcluvc.Bytes.{byte_at}
use tcluvc.Convert.Colour.{rgb_of, bgr_of, rgb-rgb_of, bgr-bgr_of}
use tcluvc.Convert.Pixels.{yuyv2rgb_2, yuyv2bgr_2, uyvy2rgb_2, uyvy2bgr_2}
use tcluvc.Prelude.{done, fault}
use tcluvc.Convert.Frames.{
  colour_kernel, convert, yuyv2rgb, yuyv2bgr, uyvy2rgb, uyvy2bgr, any2rgb, any2bgr,
}
use tcluvc.Convert.Frames.Sizes.{IsReady, IsConverted}
use tcluvc.Convert.Frames.Exact.{
  Order, luminance_first, chroma_first, pair_of, pixels, paint, format_of, colour-IsConverted,
  colour_leftover,
}

two_rgb : Order → List ℕ → List ℕ
two_rgb luminance_first = yuyv2rgb_2
two_rgb chroma_first = uyvy2rgb_2

two_rgb-paint : (o : Order) (p : List ℕ) → two_rgb o p ≡ paint rgb_of (pair_of o p)
unfolding two_rgb yuyv2rgb_2 uyvy2rgb_2 paint
two_rgb-paint luminance_first p =
    ap₂ ◌++◌ (rgb-rgb_of (byte_at p 0) (byte_at p 1) (byte_at p 3))
      (rgb-rgb_of (byte_at p 2) (byte_at p 1) (byte_at p 3))
two_rgb-paint chroma_first p =
    ap₂ ◌++◌ (rgb-rgb_of (byte_at p 1) (byte_at p 0) (byte_at p 2))
      (rgb-rgb_of (byte_at p 3) (byte_at p 0) (byte_at p 2))

any2rgb-convert :
    (o : Order) (src out : Frame)
    → src.frame_format ≡ format_of o
    → any2rgb src out ≡ convert (colour_kernel (two_rgb o)) (format_of o) Formats.rgb 3 src out
unfolding any2rgb yuyv2rgb uyvy2rgb two_rgb
any2rgb-convert luminance_first src out format = rw format refl
any2rgb-convert chroma_first src out format = rw format refl

-- A source in one of the two formats, of a multiple of eight pixels all of which it holds, and less
-- than 2 ^ 32 bytes of RGB: with a frame ready to be written, the conversion succeeds, and the
-- frame written has the size and the sequence number of the source, the format RGB, three bytes for
-- every pixel, and in them, one pixel after the other, the red, the green and the blue that BT.601
-- gives its luminance and colour differences, rounded down.
pub any2rgb-IsConverted :
    (o : Order) (src out : Frame)
    → src.frame_format ≡ format_of o
    → src.width * src.height % 8 ≡ 0
    → src.width * src.height * 2 ≤ src.data_bytes
    → src.data_bytes ≤ length src.memory
    → src.width * src.height * 3 < 2 ^ 32
    → IsReady (src.width * src.height * 3) out
    → (out' : Frame) × (any2rgb src out ≡ done (pos 0, out'))
      × IsConverted src Formats.rgb
          (src.width * 3 % 2 ^ 32)
          (src.width * src.height * 3)
          (paint rgb_of (pixels o (src.width * src.height / 2) src.memory))
          out'
any2rgb-IsConverted o src out format even full inside small ready =
    let (out', ran, made) =
      colour-IsConverted rgb_of o (two_rgb o) (two_rgb-paint o) Formats.rgb src out (λ y u v. refl)
        format even full inside small ready in
    (out', any2rgb-convert o src out format ∙ ran, made)

-- A source in one of the two formats that holds all its pixels, whose number is not a multiple of
-- eight, with less than 2 ^ 32 bytes of RGB: into a frame that has just the room for them, the
-- conversion accesses a byte outside its buffers.
pub any2rgb_leftover :
    (o : Order) (src out : Frame)
    → src.frame_format ≡ format_of o
    → src.width * src.height % 8 ≢ 0
    → src.width * src.height * 2 ≤ src.data_bytes
    → src.width * src.height * 3 < 2 ^ 32
    → length out.memory ≡ src.width * src.height * 3
    → out.data_bytes ≡ src.width * src.height * 3
    → any2rgb src out ≡ fault
any2rgb_leftover o src out format odd full small size bytes =
    any2rgb-convert o src out format
    ∙ colour_leftover rgb_of o (two_rgb o) (two_rgb-paint o) Formats.rgb src out (λ y u v. refl)
        format odd full small size bytes

two_bgr : Order → List ℕ → List ℕ
two_bgr luminance_first = yuyv2bgr_2
two_bgr chroma_first = uyvy2bgr_2

two_bgr-paint : (o : Order) (p : List ℕ) → two_bgr o p ≡ paint bgr_of (pair_of o p)
unfolding two_bgr yuyv2bgr_2 uyvy2bgr_2 paint
two_bgr-paint luminance_first p =
    ap₂ ◌++◌ (bgr-bgr_of (byte_at p 0) (byte_at p 1) (byte_at p 3))
      (bgr-bgr_of (byte_at p 2) (byte_at p 1) (byte_at p 3))
two_bgr-paint chroma_first p =
    ap₂ ◌++◌ (bgr-bgr_of (byte_at p 1) (byte_at p 0) (byte_at p 2))
      (bgr-bgr_of (byte_at p 3) (byte_at p 0) (byte_at p 2))

any2bgr-convert :
    (o : Order) (src out : Frame)
    → src.frame_format ≡ format_of o
    → any2bgr src out ≡ convert (colour_kernel (two_bgr o)) (format_of o) Formats.bgr 3 src out
unfolding any2bgr yuyv2bgr uyvy2bgr two_bgr
any2bgr-convert luminance_first src out format = rw format refl
any2bgr-convert chroma_first src out format = rw format refl

-- A source in one of the two formats, of a multiple of eight pixels all of which it holds, and less
-- than 2 ^ 32 bytes of BGR: with a frame ready to be written, the conversion succeeds, and the
-- frame written has the size and the sequence number of the source, the format BGR, three bytes for
-- every pixel, and in them, one pixel after the other, the blue, the green and the red that BT.601
-- gives its luminance and colour differences, rounded down.
pub any2bgr-IsConverted :
    (o : Order) (src out : Frame)
    → src.frame_format ≡ format_of o
    → src.width * src.height % 8 ≡ 0
    → src.width * src.height * 2 ≤ src.data_bytes
    → src.data_bytes ≤ length src.memory
    → src.width * src.height * 3 < 2 ^ 32
    → IsReady (src.width * src.height * 3) out
    → (out' : Frame) × (any2bgr src out ≡ done (pos 0, out'))
      × IsConverted src Formats.bgr
          (src.width * 3 % 2 ^ 32)
          (src.width * src.height * 3)
          (paint bgr_of (pixels o (src.width * src.height / 2) src.memory))
          out'
any2bgr-IsConverted o src out format even full inside small ready =
    let (out', ran, made) =
      colour-IsConverted bgr_of o (two_bgr o) (two_bgr-paint o) Formats.bgr src out (λ y u v. refl)
        format even full inside small ready in
    (out', any2bgr-convert o src out format ∙ ran, made)
