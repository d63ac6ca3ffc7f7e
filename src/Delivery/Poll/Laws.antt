-- ===== src/Delivery/Poll/Laws.antt =====
-- Polling never hands out a frame twice, and waits until the right time.
use tcluvc.Prelude.{ℕ, ◌+◌, ◌*◌, ◌<◌, ◌≡◌, inl, inr, Bool, Option, some, arith, Option-cases}
use tcluvc.Prelude.Int.{ℤ, pos, negsuc}
use tcluvc.Descriptors.{FrameDesc}
use tcluvc.StreamCtrl.Formats.{FrameFormat}
use tcluvc.Stream.Payload.{Assembly}
use tcluvc.Delivery.Populate.{Frame, Timespec, populate_frame}
use tcluvc.Delivery.Poll.{Waited, woken, expired, refused, Poll, deadline, take_newest, get_frame}

-- The deadline is a valid time, for which the system call does not fail, and it is the present
-- plus the microseconds, to the nanosecond.
pub deadline_exact :
    (now : Timespec) (timeout_us : ℕ)
    → ((deadline now timeout_us).tv_nsec < 1000000000)
      × ((deadline now timeout_us).tv_sec * 1000000000 + (deadline now timeout_us).tv_nsec
          ≡ now.tv_sec * 1000000000 + now.tv_nsec + timeout_us * 1000)
unfolding deadline
deadline_exact now timeout_us = (omega arith, omega arith)

pub populate_frame-sequence :
    (fr : Frame) (format : FrameFormat) (desc : Option FrameDesc) (a : Assembly) (ts : Timespec)
    {fr' : Frame}
    → populate_frame fr format desc a ts ≡ some fr'
    → fr'.sequence ≡ a.hold_seq
unfolding populate_frame
populate_frame-sequence fr format desc a ts e = ground arith

take_newest-fresh :
    (format : FrameFormat) (desc : Option FrameDesc) (ts : Timespec) (p p' : Poll) (a : Assembly)
    (ret : ℤ) (fr : Frame)
    → take_newest format desc ts p a ≡ some (ret, some fr, p')
    → (ret ≡ pos 0) × (p.last_polled_seq < p'.last_polled_seq) × (fr.sequence ≡ p'.last_polled_seq)
unfolding take_newest
take_newest-fresh format desc ts p p' a ret fr e =
    elim (Option-cases (populate_frame p.frame format desc a ts)) [
      | inl n ↦ ground (arith, e, n)
      | inr (g, h) ↦ ground (arith, e, h, populate_frame-sequence p.frame format desc a ts h)
    ]

-- A poll that hands out a frame succeeds, and the frame's number is above that of the last frame
-- polled and is remembered: no frame is handed out twice.
pub get_frame-fresh :
    (format : FrameFormat) (desc : Option FrameDesc) (ts : Timespec) (running has_callback : Bool)
    (p p' : Poll) (a : Assembly) (timeout_us : ℤ) (w : Waited) (ret : ℤ) (fr : Frame)
    → get_frame format desc ts running has_callback p a timeout_us w ≡ some (ret, some fr, p')
    → (ret ≡ pos 0) × (p.last_polled_seq < p'.last_polled_seq) × (fr.sequence ≡ p'.last_polled_seq)
unfolding get_frame
get_frame-fresh format desc ts running has_callback p p' a (pos n) (woken b) ret fr e = ground (
  arith,
  e,
  take_newest-fresh format desc ts p p' a ret fr,
  take_newest-fresh format desc ts p p' b ret fr,
)
get_frame-fresh format desc ts running has_callback p p' a (pos n) (expired b) ret fr e =
    ground (arith, e, take_newest-fresh format desc ts p p' a ret fr)
get_frame-fresh format desc ts running has_callback p p' a (pos n) (refused b) ret fr e =
    ground (arith, e, take_newest-fresh format desc ts p p' a ret fr)
get_frame-fresh format desc ts running has_callback p p' a (negsuc n) (woken b) ret fr e = ground (
  arith,
  e,
  take_newest-fresh format desc ts p p' a ret fr,
  take_newest-fresh format desc ts p p' b ret fr,
)
get_frame-fresh format desc ts running has_callback p p' a (negsuc n) (expired b) ret fr e =
    ground (arith, e, take_newest-fresh format desc ts p p' a ret fr)
get_frame-fresh format desc ts running has_callback p p' a (negsuc n) (refused b) ret fr e =
    ground (arith, e, take_newest-fresh format desc ts p p' a ret fr)
