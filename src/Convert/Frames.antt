-- ===== src/Convert/Frames.antt =====
-- The functions of libuvc/src/frame.c on frames. All conversions have one body, `convert`: they
-- differ in the formats, the bytes of a pixel and the round of their loop. `realloc` succeeds for a
-- size that is not 0, with zeros for the fresh bytes, and yields NULL for 0; NULL is the empty
-- list. A product of a width and a height is one of 32-bit words.
pub mod Sizes
pub mod Exact
pub mod Any
use tcluvc.Prelude.{
  ℕ, zero, suc, ◌+◌, ◌-◌, ◌*◌, ◌/◌, ◌%◌, ◌^◌, Bool, true, false, not, ◌||◌, List, [], ◌∷◌, ◌++◌,
  length, take, replicate, write_at, ltb, leb, ◌&&◌, ◌==◌, if◌then◌else◌,
}
use tcluvc.Prelude.Int.{ℤ, pos, negsuc}
use tcluvc.Usb
use tcluvc.Usb.{is_zero}
use tcluvc.Bytes.{byte_at, sw_to_short}
use tcluvc.StreamCtrl.Formats.{
  FrameFormat, any, uncompressed, compressed, yuyv, uyvy, rgb, bgr, mjpeg, gray8, gray16, by8, ba81,
  sgrbg8, sgbrg8, srggb8, sbggr8,
}
use tcluvc.Delivery.Populate.{Frame}
use tcluvc.Convert.Pixels.{eight, yuyv2rgb_2, yuyv2bgr_2, uyvy2rgb_2, uyvy2bgr_2}
use tcluvc.Prelude.{Run, done, fault, stuck}
use tcluvc.Convert.Loop.{Kernel, run_loop}

-- The values of `enum uvc_frame_format`.
abbrev pub number : FrameFormat → ℕ
number any = 0
number uncompressed = 1
number compressed = 2
number yuyv = 3
number uyvy = 4
number rgb = 5
number bgr = 6
number mjpeg = 7
number gray8 = 8
number gray16 = 9
number by8 = 10
number ba81 = 11
number sgrbg8 = 12
number sgbrg8 = 13
number srggb8 = 14
number sbggr8 = 15

abbrev pub is_null : List ℕ → Bool
is_null [] = true
is_null (x ∷ xs) = false

unfoldable pub realloc : List ℕ → ℕ → List ℕ
realloc memory size = take size (memory ++ replicate size 0)

unfoldable pub ensure_frame_size : Frame → ℕ → ℤ × Frame
ensure_frame_size fr need =
    if fr.library_owns_data
    then (let fr' =
          if is_null fr.memory || not (fr.data_bytes == need)
          then record fr { data_bytes = need; memory = realloc fr.memory need }
          else fr in
        ((if is_null fr'.memory then Usb.Error.no_mem else pos 0), fr'))
    else ((if is_null fr.memory || ltb fr.data_bytes need then Usb.Error.no_mem else pos 0), fr)

-- `memcpy` to a frame's memory.
unfoldable pub copy_into : List ℕ → List ℕ → ℕ → Run (List ℕ)
copy_into out src n =
    if leb n (length src) && leb n (length out) then done (write_at out 0 (take n src)) else fault

abbrev pub with_memory : Frame → Run (List ℕ) → Run (ℤ × Frame)
with_memory fr (done m) = done (pos 0, record fr { memory = m })
with_memory fr fault = fault
with_memory fr stuck = stuck

-- The fields that a conversion or a copy takes over.
abbrev pub describe : Frame → Frame → FrameFormat → ℕ → Frame
describe src out format step = record out {
  width = src.width;
  height = src.height;
  frame_format = format;
  step = step;
  sequence = src.sequence;
  tv_sec = src.tv_sec;
  tv_usec = src.tv_usec;
}

unfoldable pub duplicate_frame : Frame → Frame → Run (ℤ × Frame)
unfolding ensure_frame_size copy_into
duplicate_frame src out =
    let (ret, out₁) = ensure_frame_size out src.data_bytes in
    if not (is_zero ret)
    then done (Usb.Error.no_mem, out₁)
    else with_memory (describe src out₁ src.frame_format src.step)
        (copy_into out₁.memory src.memory src.data_bytes)

-- The fuel is the number of bytes to write, of which every round writes one at least.
unfoldable pub convert : Kernel → FrameFormat → FrameFormat → ℕ → Frame → Frame → Run (ℤ × Frame)
unfolding ensure_frame_size
convert k from to pixel_bytes src out =
    if not (number src.frame_format == number from)
    then done (Usb.Error.invalid_param, out)
    else if ltb src.data_bytes (src.width * src.height * 2 % 2 ^ 32)
    then done (Usb.Error.invalid_param, out)
    else (let (ret, out₁) = ensure_frame_size out (src.width * src.height * pixel_bytes % 2 ^ 32) in
        if not (is_zero ret)
        then done (Usb.Error.no_mem, out₁)
        else with_memory (describe src out₁ to (src.width * pixel_bytes % 2 ^ 32))
            (run_loop k out₁.data_bytes src.memory 0 out₁.data_bytes out₁.memory))

-- Eight pixels a round.
abbrev pub colour_kernel : (List ℕ → List ℕ) → Kernel
colour_kernel two = record { reads = 16; advance = 16; writes = 24; bytes = eight two }

unfoldable pub yuyv2rgb : Frame → Frame → Run (ℤ × Frame)
yuyv2rgb = convert (colour_kernel yuyv2rgb_2) yuyv rgb 3

unfoldable pub yuyv2bgr : Frame → Frame → Run (ℤ × Frame)
yuyv2bgr = convert (colour_kernel yuyv2bgr_2) yuyv bgr 3

unfoldable pub uyvy2rgb : Frame → Frame → Run (ℤ × Frame)
uyvy2rgb = convert (colour_kernel uyvy2rgb_2) uyvy rgb 3

unfoldable pub uyvy2bgr : Frame → Frame → Run (ℤ × Frame)
uyvy2bgr = convert (colour_kernel uyvy2bgr_2) uyvy bgr 3

-- IYUYV2Y and IYUYV2UV: one byte of every two.
abbrev pub y_kernel : Kernel
y_kernel = record { reads = 1; advance = 2; writes = 1; bytes = λ p. byte_at p 0 ∷ [] }

abbrev pub uv_kernel : Kernel
uv_kernel = record { reads = 2; advance = 2; writes = 1; bytes = λ p. byte_at p 1 ∷ [] }

unfoldable pub yuyv2y : Frame → Frame → Run (ℤ × Frame)
yuyv2y = convert y_kernel yuyv gray8 1

unfoldable pub yuyv2uv : Frame → Frame → Run (ℤ × Frame)
yuyv2uv = convert uv_kernel yuyv gray8 1

-- A sample is a little-endian word, shifted to the right, or to the left by a negative shift.
unfoldable pub shift_sample : ℤ → ℕ → ℕ
shift_sample (pos s) v = v / 2 ^ s % 256
shift_sample (negsuc s) v = v * 2 ^ suc s % 256

abbrev pub gray_kernel : ℤ → Kernel
gray_kernel shift = record {
  reads = 2;
  advance = 2;
  writes = 1;
  bytes = λ p. shift_sample shift (sw_to_short p 0) ∷ [];
}

unfoldable pub gray16to8 : Frame → Frame → ℤ → Run (ℤ × Frame)
gray16to8 src out shift = convert (gray_kernel shift) gray16 gray8 1 src out

unfoldable pub any2rgb : Frame → Frame → Run (ℤ × Frame)
any2rgb src out = elim src.frame_format [
  | yuyv ↦ yuyv2rgb src out
  | uyvy ↦ uyvy2rgb src out
  | rgb ↦ duplicate_frame src out
  | _ ↦ done (Usb.Error.not_supported, out)
]

unfoldable pub any2bgr : Frame → Frame → Run (ℤ × Frame)
any2bgr src out = elim src.frame_format [
  | yuyv ↦ yuyv2bgr src out
  | uyvy ↦ uyvy2bgr src out
  | bgr ↦ duplicate_frame src out
  | _ ↦ done (Usb.Error.not_supported, out)
]
