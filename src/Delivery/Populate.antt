-- ===== src/Delivery/Populate.antt =====
-- `_uvc_populate_frame` of libuvc/src/stream.c. The memory of a frame is a list of its allocated
-- length; `realloc` is taken to succeed, and zeros stand for the fresh bytes.
pub mod Laws
use tcluvc.Prelude.{
  ℕ, ◌+◌, ◌-◌, ◌*◌, ◌/◌, ◌≤◌, Bool, true, false, not, ◌&&◌, Option, none, some, ◌>>=◌, List, [],
  ◌∷◌, ◌++◌, length, take, replicate, write_at, ltb, leb, ◌==◌, if◌then◌else◌,
}
use tcluvc.Bytes.{byte_at}
use tcluvc.Descriptors.{FrameDesc}
use tcluvc.StreamCtrl.Formats.{FrameFormat, yuyv, mjpeg}
use tcluvc.Stream.Payload.{Assembly}

-- `uvc_frame_t`; the time is `capture_time`.
pub record Frame : Type 0 where
  pub memory : List ℕ
  pub data_bytes : ℕ
  pub width : ℕ
  pub height : ℕ
  pub frame_format : FrameFormat
  pub step : ℕ
  pub sequence : ℕ
  pub tv_sec : ℕ
  pub tv_usec : ℕ
  pub library_owns_data : Bool

-- `struct timespec` of CLOCK_REALTIME.
pub record Timespec : Type 0 where
  pub tv_sec : ℕ
  pub tv_nsec : ℕ

abbrev pub is_mjpeg : FrameFormat → Bool
is_mjpeg mjpeg = true
is_mjpeg _ = false

abbrev pub step_of : FrameFormat → ℕ → ℕ
step_of yuyv width = width * 2
step_of _ width = 0

abbrev pub addsize : FrameFormat → ℕ
addsize f = if is_mjpeg f then 2 else 0

-- The memory at `frame->data` grows if `data_bytes` is less than what is needed.
unfoldable pub grow : Frame → ℕ → List ℕ
grow fr size =
    if ltb fr.data_bytes size then take size (fr.memory ++ replicate size 0) else fr.memory

-- The end of an MJPEG image of `n` bytes: an EOI marker is added where the last bytes lack it.
unfoldable pub add_eoi : List ℕ → ℕ → Option (List ℕ × ℕ)
add_eoi mem n =
    if ltb n 2
    then some (mem, n)
    else if byte_at mem (n - 2) == 0xff && byte_at mem (n - 1) == 0xd9
    then some (mem, n)
    else if byte_at mem (n - 1) == 0xff
    then (if leb (n + 1) (length mem) then some (write_at mem n (0xd9 ∷ []), n + 1) else none)
    else if not (byte_at mem (n - 1) == 0xd9)
    then (if leb (n + 2) (length mem)
        then some (write_at mem n (0xff ∷ 0xd9 ∷ []), n + 2)
        else none)
    else some (mem, n)

-- `memcpy` from the hold buffer.
unfoldable pub copy_held : List ℕ → Assembly → Option (List ℕ)
copy_held mem a =
    if leb a.hold_bytes (length mem) && leb a.hold_bytes (length a.holdbuf)
    then some (write_at mem 0 (take a.hold_bytes a.holdbuf))
    else none

-- The frame descriptor is that of the current control block; NULL is `none`.
unfoldable pub populate_frame :
    Frame → FrameFormat → Option FrameDesc → Assembly → Timespec → Option Frame
populate_frame fr format found a ts = do
  desc ← found
  mem ← copy_held (grow fr (a.hold_bytes + addsize format)) a
  (mem', n) ← (if is_mjpeg format then add_eoi mem a.hold_bytes else some (mem, a.hold_bytes))
  some (record {
    memory = mem';
    data_bytes = n;
    width = desc.width;
    height = desc.height;
    frame_format = format;
    step = step_of format desc.width;
    sequence = a.hold_seq;
    tv_sec = ts.tv_sec;
    tv_usec = ts.tv_nsec / 1000;
    library_owns_data = fr.library_owns_data;
  })
