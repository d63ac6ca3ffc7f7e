-- ===== src/Convert/Tests.antt =====
-- Small frames converted: two rows of four pixels, and one row of two.
use tcluvc.Prelude.{ℕ, ◌*◌, ◌/◌, ◌%◌, ◌^◌, ◌≡◌, refl, inl, true, List, [], ◌∷◌, replicate, arith}
use tcluvc.Prelude.Int.{pos, ◌+ℤ◌, ◌*ℤ◌, shr_ℤ}
use tcluvc.Bytes.{byte_at}
use tcluvc.StreamCtrl.Formats
use tcluvc.StreamCtrl.Formats.{FrameFormat}
use tcluvc.Delivery.Populate.{Frame}
use tcluvc.Convert.Pixels
use tcluvc.Convert.Colour.{rgb_of, bgr_of}
use tcluvc.Convert.Pixels.{sat}
use tcluvc.Prelude.{done, fault}
use tcluvc.Convert.Frames.{any2rgb, any2bgr}
use tcluvc.Convert.Frames.Sizes.{IsReady, IsConverted}
use tcluvc.Convert.Frames.Exact.{luminance_first, chroma_first, pixels, paint}
use tcluvc.Convert.Frames.Any.{any2rgb-IsConverted, any2bgr-IsConverted, any2rgb_leftover}

abbrev frame_of : FrameFormat → ℕ → ℕ → List ℕ → ℕ → Frame
frame_of format width height memory bytes = record {
  memory = memory;
  data_bytes = bytes;
  width = width;
  height = height;
  frame_format = format;
  step = width * 2;
  sequence = 5;
  tv_sec = 7;
  tv_usec = 9;
  library_owns_data = true;
}

abbrev grey_then_red : List ℕ
grey_then_red =
    90 ∷ 128 ∷ 10 ∷ 128 ∷ 255 ∷ 128 ∷ 0 ∷ 128 ∷ 76 ∷ 85 ∷ 76 ∷ 255 ∷ 76 ∷ 85 ∷ 76 ∷ 255 ∷ []

abbrev picture : FrameFormat → Frame
picture format = frame_of format 4 2 grey_then_red 16

abbrev no_picture : Frame
no_picture = frame_of Formats.any 0 0 [] 0

abbrev two_pixels : Frame
two_pixels = frame_of Formats.yuyv 2 1 (90 ∷ 128 ∷ 10 ∷ 128 ∷ []) 4

abbrev room_for_two : Frame
room_for_two = frame_of Formats.any 0 0 (replicate 6 0) 6

room-IsReady : IsReady 24 no_picture
room-IsReady = record { owner = inl refl; inside = omega arith; some_bytes = omega arith }

any2rgb-IsConverted_example :
    (out' : Frame) × (any2rgb (picture Formats.yuyv) no_picture ≡ done (pos 0, out'))
    × IsConverted
        (picture Formats.yuyv)
        Formats.rgb
        (4 * 3 % 2 ^ 32)
        (4 * 2 * 3)
        (paint rgb_of (pixels luminance_first (4 * 2 / 2) grey_then_red))
        out'
any2rgb-IsConverted_example =
    any2rgb-IsConverted luminance_first (picture Formats.yuyv) no_picture refl (omega arith)
      (omega arith) (omega arith) (omega arith) room-IsReady

any2bgr-IsConverted_example :
    (out' : Frame) × (any2bgr (picture Formats.uyvy) no_picture ≡ done (pos 0, out'))
    × IsConverted
        (picture Formats.uyvy)
        Formats.bgr
        (4 * 3 % 2 ^ 32)
        (4 * 2 * 3)
        (paint bgr_of (pixels chroma_first (4 * 2 / 2) grey_then_red))
        out'
any2bgr-IsConverted_example =
    any2bgr-IsConverted chroma_first (picture Formats.uyvy) no_picture refl (omega arith)
      (omega arith) (omega arith) (omega arith) room-IsReady

any2rgb_leftover_example : any2rgb two_pixels room_for_two ≡ fault
any2rgb_leftover_example =
    any2rgb_leftover luminance_first two_pixels room_for_two refl (λ e. absurd (omega (arith, e)))
      (omega arith) (omega arith) refl refl

-- The pixels of a picture, grey ones and red ones.
red_pixels :
    paint Pixels.rgb (pixels luminance_first 4 grey_then_red)
    ≡ 90 ∷ 90 ∷ 90 ∷ 10 ∷ 10 ∷ 10 ∷ 255 ∷ 255 ∷ 255 ∷ 0 ∷ 0 ∷ 0 ∷ 254 ∷ 0 ∷ 0 ∷ 254 ∷ 0 ∷ 0 ∷ 254
      ∷ 0 ∷ 0 ∷ 254 ∷ 0 ∷ 0 ∷ []
unfolding paint pixels Pixels.rgb Pixels.red Pixels.green Pixels.blue sat ◌+ℤ◌ ◌*ℤ◌ shr_ℤ byte_at
red_pixels = refl
