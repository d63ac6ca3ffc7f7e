-- ===== src/Delivery/Caller.antt =====
-- One turn of the loop of `_uvc_user_caller` in libuvc/src/stream.c, the thread that calls the
-- user back, with the mutex held; and what the two ways to a frame make of the first one.
use tcluvc.Prelude.{
  ℕ, ◌≡◌, Bool, true, false, not, Option, none, some, ◌>>=◌, ◌==◌, if◌then◌else◌, arith,
}
use tcluvc.Prelude.Int.{pos, negsuc}
use tcluvc.Descriptors.{FrameDesc}
use tcluvc.StreamCtrl.Formats.{FrameFormat}
use tcluvc.Stream.Payload.{Assembly, swap_buffers}
use tcluvc.Delivery.Populate.{Frame, Timespec, populate_frame}
use tcluvc.Delivery.Poll.{Waited, Poll, take_newest, get_frame}

-- The thread waits on the condition, leaves the loop, or calls the user with a frame, having noted
-- its number.
pub data Turn : Type 0 where
  waits ends : Turn
  delivers : ℕ → Frame → Turn

unfoldable pub caller_turn :
    FrameFormat → Option FrameDesc → Timespec → Bool → ℕ → Frame → Assembly → Option Turn
caller_turn format desc ts running last_seq fr a =
    if not running
    then some ends
    else if last_seq == a.hold_seq
    then some waits
    else (populate_frame fr format desc a ts >>= λ fr'. some (delivers a.hold_seq fr'))

-- The frames of a stream are numbered from 0, the number that both ways to a frame start from: when
-- the first frame has been published, a poll that does not wait hands out nothing, whatever was
-- polled before, and the thread of the user callback waits on.
pub first_frame_missed :
    (format : FrameFormat) (desc : Option FrameDesc) (ts : Timespec) (p : Poll) (fr : Frame)
    (a : Assembly) (w : Waited)
    → a.seq ≡ 0
    → (get_frame format desc ts true false p (swap_buffers a) (negsuc 0) w ≡ some (pos 0, none, p))
      × (caller_turn format desc ts true 0 fr (swap_buffers a) ≡ some waits)
unfolding get_frame take_newest caller_turn swap_buffers
first_frame_missed format desc ts p fr a w first = (ground arith, ground arith)
