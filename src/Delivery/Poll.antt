-- ===== src/Delivery/Poll.antt =====
-- `uvc_stream_get_frame` of libuvc/src/stream.c, which polls for a frame. While a caller
-- waits, the other threads may change the assembly: what a
-- wait ends with is an argument.
pub mod Laws
use tcluvc.Prelude.{
  ℕ, ◌+◌, ◌*◌, ◌/◌, ◌%◌, ◌<◌, ◌≤◌, ◌≡◌, ◌≢◌, ◌⊎◌, inl, inr, refl, Bool, true, false, not, ◌&&◌,
  Option, none, some, ◌>>=◌, ltb, ◌==◌, if◌then◌else◌, arith,
}
use tcluvc.Prelude.Int.{ℤ, pos, negsuc}
use tcluvc.Usb
use tcluvc.Descriptors.{FrameDesc}
use tcluvc.StreamCtrl.Formats.{FrameFormat}
use tcluvc.Stream.Payload.{Assembly}
use tcluvc.Delivery.Populate.{Frame, Timespec, populate_frame}

-- What `pthread_cond_wait` or `pthread_cond_timedwait` ends with; `refused` is EINVAL.
pub data Waited : Type 0 where
  woken expired refused : Assembly → Waited

-- `last_polled_seq` and `frame` of the stream.
pub record Poll : Type 0 where
  pub last_polled_seq : ℕ
  pub frame : Frame

-- The time until which `pthread_cond_timedwait` waits, from the present and microseconds.
unfoldable pub deadline : Timespec → ℕ → Timespec
deadline now timeout_us =
    let nsec = now.tv_nsec + timeout_us % 1000000 * 1000 in
    record {
      tv_sec = now.tv_sec + timeout_us / 1000000 + nsec / 1000000000;
      tv_nsec = nsec % 1000000000;
    }

module _ (format : FrameFormat) (desc : Option FrameDesc) (ts : Timespec) where
  -- The newest frame, if it was not polled yet: the result, the frame and the stream.
  unfoldable pub take_newest : Poll → Assembly → Option (ℤ × Option Frame × Poll)
  take_newest p a =
      if ltb p.last_polled_seq a.hold_seq
      then (populate_frame p.frame format desc a ts >>= λ fr.
          some (pos 0, some fr, record { last_polled_seq = a.hold_seq; frame = fr }))
      else some (pos 0, none, p)

  -- The frame pointer is `none` where the code leaves it alone or sets it to NULL.
  unfoldable pub get_frame :
      Bool → Bool → Poll → Assembly → ℤ → Waited → Option (ℤ × Option Frame × Poll)
  get_frame running has_callback p a timeout_us w =
      if not running
      then some (Usb.Error.invalid_param, none, p)
      else if has_callback
      then some (Usb.Error.callback_exists, none, p)
      else if ltb p.last_polled_seq a.hold_seq
      then take_newest p a
      else elim timeout_us [
        | negsuc n ↦ if n == 0 then some (pos 0, none, p) else after_wait p w
        | pos n ↦ after_wait p w
      ]
    where
      after_wait : Poll → Waited → Option (ℤ × Option Frame × Poll)
      after_wait p (woken b) = take_newest p b
      after_wait p (expired b) = some (Usb.Error.timeout, none, p)
      after_wait p (refused b) = some (Usb.Error.other, none, p)
