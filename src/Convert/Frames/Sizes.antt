-- ===== src/Convert/Frames/Sizes.antt =====
-- When `uvc_ensure_frame_size` succeeds, and what a conversion does with room for whole rounds.
use tcluvc.Prelude.{
  ℕ, ◌+◌, ◌*◌, ◌%◌, ◌^◌, ◌≤◌, ◌<◌, ◌≡◌, ◌⊎◌, refl, ◌∙◌, ap, sym, true, false, List, [], ◌∷◌, ◌++◌,
  length, take, replicate, ltb, ◌==◌, arith, length-append, length-take, length-replicate,
}
use tcluvc.Prelude.Int.{pos}
use tcluvc.StreamCtrl.Formats.{FrameFormat}
use tcluvc.Delivery.Populate.{Frame}
use tcluvc.Prelude.{done, fault}
use tcluvc.Convert.Loop.{Kernel, run_loop}
use tcluvc.Convert.Loop.Laws.{IsKernel, rounds, le_mul, run_loop-rounds, run_loop-leftover}
use tcluvc.Convert.Frames.{
  number, is_null, realloc, ensure_frame_size, describe, with_memory, convert,
}

-- A frame to write `need` bytes to: one of the library, which may grow, or one of the user with
-- just that size.
pub record IsReady (need : ℕ) (out : Frame) : Type 0 where
  pub owner : (out.library_owns_data ≡ true) ⊎ (out.data_bytes ≡ need)
  pub inside : out.data_bytes ≤ length out.memory
  pub some_bytes : 0 < need

is_null-length : (xs : List ℕ) → 0 < length xs → is_null xs ≡ false
is_null-length [] h = absurd (omega arith)
is_null-length (x ∷ xs) h = refl

length-realloc : (memory : List ℕ) (size : ℕ) → length (realloc memory size) ≡ size
unfolding realloc
length-realloc memory size = omega (
  arith,
  length-take size (memory ++ replicate size 0),
  length-append memory (replicate {A = ℕ} size 0),
  length-replicate {A = ℕ} size 0,
)

pub ensure_frame_size-IsReady :
    (out : Frame) (need : ℕ)
    → IsReady need out
    → ((ensure_frame_size out need).0 ≡ pos 0)
      × ((ensure_frame_size out need).1.data_bytes ≡ need)
      × (need ≤ length (ensure_frame_size out need).1.memory)
unfolding ensure_frame_size
ensure_frame_size-IsReady out need ready = ground (
  arith,
  length-realloc out.memory need,
  is_null-length (realloc out.memory need),
  is_null-length out.memory,
)

ensure_frame_size_same :
    (out : Frame) (need : ℕ)
    → out.data_bytes ≡ need
    → 0 < length out.memory
    → ensure_frame_size out need ≡ (pos 0, out)
unfolding ensure_frame_size
ensure_frame_size_same out need e some_left = ground (arith, is_null-length out.memory some_left)

-- A conversion of a source that holds all its pixels is its loop.
convert-loop :
    (k : Kernel) (from to : FrameFormat) (pixel_bytes need : ℕ) (src out out₁ : Frame)
    → src.frame_format ≡ from
    → src.width * src.height * 2 ≤ src.data_bytes
    → src.width * src.height * pixel_bytes ≡ need
    → need < 2 ^ 32
    → ensure_frame_size out need ≡ (pos 0, out₁)
    → convert k from to pixel_bytes src out
      ≡ with_memory
          (describe src out₁ to (src.width * pixel_bytes % 2 ^ 32))
          (run_loop k out₁.data_bytes src.memory 0 out₁.data_bytes out₁.memory)
unfolding convert
convert-loop k from to pixel_bytes need src out out₁ format full size small fits =
    rw (same, holds, wraps, fits) refl
  where
    same : (number src.frame_format == number from) ≡ true
    same = rw format (ground arith)

    holds : ltb src.data_bytes (src.width * src.height * 2 % 2 ^ 32) ≡ false
    holds = ground arith

    wraps : src.width * src.height * pixel_bytes % 2 ^ 32 ≡ need
    wraps = omega arith

-- What a conversion leaves of the frame written.
pub record IsConverted (src : Frame) (to : FrameFormat) (line size : ℕ) (img : List ℕ) (out : Frame)
    : Type 0 where
  pub width : out.width ≡ src.width
  pub height : out.height ≡ src.height
  pub format : out.frame_format ≡ to
  pub step : out.step ≡ line
  pub sequence : out.sequence ≡ src.sequence
  pub data_bytes : out.data_bytes ≡ size
  pub image : take size out.memory ≡ img

-- With a source of the right format that holds all its pixels, and room for whole rounds, a
-- conversion ends and has written the rounds.
pub convert-rounds :
    (k : Kernel) (from to : FrameFormat) (pixel_bytes n : ℕ) (src out : Frame)
    → IsKernel k
    → src.frame_format ≡ from
    → src.width * src.height * 2 ≤ src.data_bytes
    → src.data_bytes ≤ length src.memory
    → src.width * src.height * pixel_bytes ≡ n * k.writes
    → n * k.advance ≤ src.width * src.height * 2
    → src.width * src.height * pixel_bytes < 2 ^ 32
    → IsReady (src.width * src.height * pixel_bytes) out
    → (out' : Frame) × (convert k from to pixel_bytes src out ≡ done (pos 0, out'))
      × IsConverted src to
          (src.width * pixel_bytes % 2 ^ 32)
          (src.width * src.height * pixel_bytes)
          (rounds k n src.memory)
          out'
unfolding convert
convert-rounds k from to pixel_bytes n src out ok format full inside whole room small ready =
    let (zero_ret, size, there) = ensure_frame_size-IsReady out need ready in
    let (mem, ran, _, begins) =
      run_loop-rounds k n need src.memory 0 need out₁.memory ok (omega (arith, whole)) (omega arith)
        there (omega (arith, enough)) in
    let ran' : run_loop k out₁.data_bytes src.memory 0 out₁.data_bytes out₁.memory ≡ done mem =
      ap (λ m. run_loop k m src.memory 0 m out₁.memory) size ∙ ran in
    (
      record (describe src out₁ to (src.width * pixel_bytes % 2 ^ 32)) { memory = mem },
      convert-loop k from to pixel_bytes need src out out₁ format full refl small
            (ap (λ r. (r, out₁)) zero_ret)
          ∙ ap (with_memory (describe src out₁ to (src.width * pixel_bytes % 2 ^ 32))) ran',
      record {
        width = refl;
        height = refl;
        format = refl;
        step = refl;
        sequence = refl;
        data_bytes = size;
        image = begins;
      },
    )
  where
    need : ℕ
    need = src.width * src.height * pixel_bytes

    out₁ : Frame
    out₁ = (ensure_frame_size out need).1

    enough : n ≤ n * k.writes
    enough = le_mul n k.writes ok.progress

-- With pixels left over behind whole rounds, and a destination that has room for the pixels and no
-- more, a conversion leaves its buffers.
pub convert-leftover :
    (k : Kernel) (from to : FrameFormat) (pixel_bytes q r : ℕ) (src out : Frame)
    → IsKernel k
    → src.frame_format ≡ from
    → src.width * src.height * 2 ≤ src.data_bytes
    → src.width * src.height * pixel_bytes ≡ q * k.writes + r
    → 0 < r
    → r < k.writes
    → src.width * src.height * pixel_bytes < 2 ^ 32
    → length out.memory ≡ src.width * src.height * pixel_bytes
    → out.data_bytes ≡ src.width * src.height * pixel_bytes
    → convert k from to pixel_bytes src out ≡ fault
unfolding convert ensure_frame_size
convert-leftover k from to pixel_bytes q r src out ok format full whole some_left few small size
      bytes =
    convert-loop k from to pixel_bytes (src.width * src.height * pixel_bytes) src out out format
      full refl small (ensure_frame_size_same out _ bytes (omega arith))
    ∙ ap (with_memory (describe src out to (src.width * pixel_bytes % 2 ^ 32))) (
        run_loop-leftover k q r out.data_bytes src.memory 0 out.data_bytes out.memory ok
          (omega arith) some_left few (size ∙ sym bytes)
          (omega (arith, le_mul q k.writes ok.progress)))
