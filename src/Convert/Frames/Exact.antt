-- ===== src/Convert/Frames/Exact.antt =====
-- The image that the colour conversions write: the pixels of the source one after the other.
use tcluvc.Prelude.{
  ℕ, zero, suc, ◌+◌, ◌*◌, ◌/◌, ◌%◌, ◌^◌, ◌≤◌, ◌<◌, ◌≡◌, ◌≢◌, refl, ◌∙◌, ap, sym, List, [], ◌∷◌,
  ◌++◌, length, drop, arith, append_assoc, append-nil, drop-drop, ap₂, length-append,
}
use tcluvc.Prelude.Int.{pos}
use tcluvc.Bytes.{byte_at}
use tcluvc.StreamCtrl.Formats.{FrameFormat}
use tcluvc.StreamCtrl.Formats
use tcluvc.Delivery.Populate.{Frame}
use tcluvc.Convert.Pixels.{four, eight}
use tcluvc.Prelude.{done, fault}
use tcluvc.Convert.Loop.Laws.{IsKernel, rounds}
use tcluvc.Convert.Frames.{colour_kernel, convert}
use tcluvc.Convert.Frames.Sizes.{IsReady, IsConverted, convert-rounds, convert-leftover}

-- A pixel of the source: its luminance and the two colour differences that a pair shares.
pub record Pixel : Type 0 where
  pub y : ℕ
  pub u : ℕ
  pub v : ℕ

-- The order of the bytes Y, U, Y, V of a pair, or U, Y, V, Y.
pub data Order : Type 0 where
  luminance_first chroma_first : Order

abbrev pub pair_of : Order → List ℕ → List Pixel
pair_of luminance_first p =
    record { y = byte_at p 0; u = byte_at p 1; v = byte_at p 3 }
    ∷ record { y = byte_at p 2; u = byte_at p 1; v = byte_at p 3 }
    ∷ []
pair_of chroma_first p =
    record { y = byte_at p 1; u = byte_at p 0; v = byte_at p 2 }
    ∷ record { y = byte_at p 3; u = byte_at p 0; v = byte_at p 2 }
    ∷ []

-- The pixels of so many pairs.
unfoldable pub pixels : Order → ℕ → List ℕ → List Pixel
pixels o zero p = []
pixels o (suc n) p = pair_of o p ++ pixels o n (drop 4 p)

unfoldable pub paint : (ℕ → ℕ → ℕ → List ℕ) → List Pixel → List ℕ
paint f [] = []
paint f (c ∷ cs) = f c.y c.u c.v ++ paint f cs

abbrev pub format_of : Order → FrameFormat
format_of luminance_first = Formats.yuyv
format_of chroma_first = Formats.uyvy

paint-append :
    (f : ℕ → ℕ → ℕ → List ℕ) (cs ds : List Pixel) → paint f (cs ++ ds) ≡ paint f cs ++ paint f ds
unfolding paint
paint-append f [] ds = refl
paint-append f (c ∷ cs) ds =
    ap (◌++◌ (f c.y c.u c.v)) (paint-append f cs ds)
    ∙ sym (append_assoc (f c.y c.u c.v) (paint f cs) (paint f ds))

length-paint :
    (f : ℕ → ℕ → ℕ → List ℕ)
    → ((y u v : ℕ) → length (f y u v) ≡ 3)
    → (cs : List Pixel) → length (paint f cs) ≡ length cs * 3
unfolding paint
length-paint f three [] = omega arith
length-paint f three (c ∷ cs) =
    omega (
      arith,
      length-append (f c.y c.u c.v) (paint f cs),
      three c.y c.u c.v,
      length-paint f three cs,
    )

length-pixels : (o : Order) (n : ℕ) (p : List ℕ) → length (pixels o n p) ≡ n * 2
unfolding pixels
length-pixels o zero p = omega arith
length-pixels luminance_first (suc n) p = omega (arith, length-pixels luminance_first n (drop 4 p))
length-pixels chroma_first (suc n) p = omega (arith, length-pixels chroma_first n (drop 4 p))

-- The pixels of some pairs and of some more behind them.
pixels-drop :
    (o : Order) (m n : ℕ) (p : List ℕ)
    → pixels o (m + n) p ≡ pixels o m p ++ pixels o n (drop (4 * m) p)
unfolding pixels
pixels-drop o zero n p = ap (λ k. pixels o k p) (omega arith)
pixels-drop o (suc m) n p =
    ap (λ k. pixels o k p) next
    ∙ ap (◌++◌ (pair_of o p)) (pixels-drop o m n (drop 4 p))
    ∙ sym
        (append_assoc (pair_of o p) (pixels o m (drop 4 p)) (pixels o n (drop (4 * m) (drop 4 p))))
    ∙ ap (λ q. (pair_of o p ++ pixels o m (drop 4 p)) ++ pixels o n q)
        (drop-drop 4 (4 * m) p ∙ ap (λ k. drop k p) shift)
  where
    next : suc m + n ≡ suc (m + n)
    next = omega arith

    shift : 4 + 4 * m ≡ 4 * suc m
    shift = omega arith

module _ (f : ℕ → ℕ → ℕ → List ℕ) (o : Order) (two : List ℕ → List ℕ)
    (two-paint : (p : List ℕ) → two p ≡ paint f (pair_of o p)) where
  four-paint : (p : List ℕ) → four two p ≡ paint f (pixels o 2 p)
  unfolding four pixels
  four-paint p =
      ap₂ ◌++◌ (two-paint p) (two-paint (drop 4 p))
      ∙ sym (paint-append f (pair_of o p) (pair_of o (drop 4 p)))
      ∙ ap (λ cs. paint f (pair_of o p ++ cs)) (sym (append-nil (pair_of o (drop 4 p))))

  -- The bytes of eight pixels.
  eight-paint : (p : List ℕ) → eight two p ≡ paint f (pixels o 4 p)
  unfolding eight
  eight-paint p =
      ap₂ ◌++◌ (four-paint p) (four-paint (drop 8 p))
      ∙ sym (paint-append f (pixels o 2 p) (pixels o 2 (drop 8 p)))
      ∙ ap (paint f) (sym (pixels-drop o 2 2 p))

  rounds-paint :
      (n : ℕ) (p : List ℕ) → rounds (colour_kernel two) n p ≡ paint f (pixels o (n * 4) p)
  unfolding rounds paint pixels
  rounds-paint zero p = ap (λ m. paint f (pixels o m p)) {x = 0} {y = 0 * 4} (omega arith)
  rounds-paint (suc n) p =
      ap₂ ◌++◌ (eight-paint p) (rounds-paint n (drop 16 p))
      ∙ sym (paint-append f (pixels o 4 p) (pixels o (n * 4) (drop 16 p)))
      ∙ ap (paint f) (sym (pixels-drop o 4 (n * 4) p))
      ∙ ap (λ m. paint f (pixels o m p)) (omega arith)

  -- The loop of a colour conversion moves by eight pixels and writes them.
  colour_kernel-IsKernel : ((y u v : ℕ) → length (f y u v) ≡ 3) → IsKernel (colour_kernel two)
  colour_kernel-IsKernel three = record {
    reads_on = omega arith;
    progress = omega arith;
    size = λ p.
        ap length (eight-paint p)
        ∙ length-paint f three (pixels o 4 p)
        ∙ (ap (λ m. m * 3) (length-pixels o 4 p))
        ∙ omega arith;
  }

  -- A conversion over this loop, of whole rounds of pixels, writes all of them.
  pub colour-IsConverted :
      (to : FrameFormat) (src out : Frame)
      → ((y u v : ℕ) → length (f y u v) ≡ 3)
      → src.frame_format ≡ format_of o
      → src.width * src.height % 8 ≡ 0
      → src.width * src.height * 2 ≤ src.data_bytes
      → src.data_bytes ≤ length src.memory
      → src.width * src.height * 3 < 2 ^ 32
      → IsReady (src.width * src.height * 3) out
      → (out' : Frame) × (convert (colour_kernel two) (format_of o) to 3 src out
          ≡ done (pos 0, out'))
        × IsConverted src to
            (src.width * 3 % 2 ^ 32)
            (src.width * src.height * 3)
            (paint f (pixels o (src.width * src.height / 2) src.memory))
            out'
  colour-IsConverted to src out three format even full inside small ready =
      let (out', ran, made) =
        convert-rounds (colour_kernel two) (format_of o) to 3 (src.width * src.height / 8) src out
          (colour_kernel-IsKernel three) format full inside (omega arith) (omega arith) small
          ready in
      (
        out',
        ran,
        record {
          width = made.width;
          height = made.height;
          format = made.format;
          step = made.step;
          sequence = made.sequence;
          data_bytes = made.data_bytes;
          image =
              made.image
              ∙ rounds-paint (src.width * src.height / 8) src.memory
              ∙ ap (λ m. paint f (pixels o m src.memory)) (omega arith);
        },
      )

  -- The same of pixels left over.
  pub colour_leftover :
      (to : FrameFormat) (src out : Frame)
      → ((y u v : ℕ) → length (f y u v) ≡ 3)
      → src.frame_format ≡ format_of o
      → src.width * src.height % 8 ≢ 0
      → src.width * src.height * 2 ≤ src.data_bytes
      → src.width * src.height * 3 < 2 ^ 32
      → length out.memory ≡ src.width * src.height * 3
      → out.data_bytes ≡ src.width * src.height * 3
      → convert (colour_kernel two) (format_of o) to 3 src out ≡ fault
  colour_leftover to src out three format odd full small size bytes =
      convert-leftover (colour_kernel two) (format_of o) to 3 (src.width * src.height / 8)
        (src.width * src.height % 8 * 3) src out (colour_kernel-IsKernel three) format full
        (omega arith) (omega arith) (omega arith) small size bytes
