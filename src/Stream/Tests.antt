-- ===== src/Stream/Tests.antt =====
-- Small runs of the streaming functions, and each theorem at an input that meets its hypotheses.
use tcluvc.Prelude.{ℕ, ◌≡◌, refl, true, false, none, some, List, [], ◌∷◌, inr, arith, replicate}
use tcluvc.Prelude.Int.{pos, negsuc}
use mathlib.Core.Option
use tcluvc.Bytes.{byte_at}
use tcluvc.Stream.Payload.{Assembly, process_payload}
use tcluvc.Stream.Payload.Validity.{IsValid}
use tcluvc.Stream.Payload.Assemble.{feed}
use tcluvc.Stream.Payload.Refine.{view, header_of, process_payload-feed}
use tcluvc.Stream.Callback.{
  IsoPacket, Slot, Stream, Transfer, timed_out, process_packets, stream_callback,
}
use tcluvc.Stream.Packets.{Carries}
use tcluvc.Stream.Frames.{frame_delivered}
use tcluvc.Stream.Overrun.{endless_frame_overruns}
use tcluvc.Stream.Callback.{mark_deleted, release_transfer}
use tcluvc.Stream.Stop.{
  is_settled, stop_begin, submit_all, submit_rest, stop_cancel, cancel_slot, freed,
}
use tcluvc.Stream.Lifecycle.{
  World, Reach, here, next, calls_back, begins_stop, cancels, NoneFails, InSync, IsDistinct,
  mentions, live,
}
use tcluvc.Stream.Started.{
  begun, submitted, start_keeps_sync, settled_frees_safely, failed_cancel_frees_held,
}
use mathlib.Core.List.{Mem}
use tcluvc.Stream.Drain.{stop_wait, has_id, stop_wait_ends, failed_start_never_settles}

-- An idle stream with buffers of eight bytes.
abbrev idle : Assembly
idle = record {
  is_isight = false;
  fid = 0;
  seq = 4;
  hold_seq = 3;
  pts = 0;
  hold_pts = 0;
  last_scr = 0;
  hold_last_scr = 0;
  got_bytes = 0;
  hold_bytes = 2;
  outbuf = replicate 8 0;
  holdbuf = 9 ∷ 9 ∷ replicate 6 0;
  clear_halts = 0;
  broadcasts = 0;
}

idle-IsValid : IsValid 8 idle
idle-IsValid = omega arith

-- A frame with ID 1 in two packets; the second has the end bit.
abbrev first_packet : IsoPacket
first_packet = record { status = 0; actual_length = 5; memory = 2 ∷ 0x81 ∷ 10 ∷ 11 ∷ 12 ∷ [] }

abbrev last_packet : IsoPacket
last_packet = record { status = 0; actual_length = 4; memory = 2 ∷ 0x83 ∷ 13 ∷ 14 ∷ 0 ∷ [] }

first-Carries : Carries 1 false first_packet
unfolding byte_at header_of
first-Carries = record {
  arrived = refl;
  has_header = omega arith;
  has_data = omega arith;
  inside = omega arith;
  fields = omega arith;
  no_error = refl;
  same_frame = refl;
  end_bit = refl;
}

last-Carries : Carries 1 true last_packet
unfolding byte_at header_of
last-Carries = record {
  arrived = refl;
  has_header = omega arith;
  has_data = omega arith;
  inside = omega arith;
  fields = omega arith;
  no_error = refl;
  same_frame = refl;
  end_bit = refl;
}

frame_delivered_example :
    (b : Assembly) × (process_packets idle (first_packet ∷ last_packet ∷ []) ≡ some b)
    × IsValid 8 b
    × ((view b).held ≡ 10 ∷ 11 ∷ 12 ∷ 13 ∷ 14 ∷ [])
    × ((view b).pending ≡ [])
    × ((view b).held_seq ≡ 4)
    × ((view b).seq ≡ 5)
unfolding byte_at view
frame_delivered_example =
    frame_delivered (first_packet ∷ []) last_packet idle-IsValid refl (inr refl) (first-Carries, tt)
      last-Carries (omega arith)

process_payload-feed_example :
    Option.map view (process_payload idle first_packet.memory 5)
    ≡ some (feed (view idle) (header_of first_packet.memory) (10 ∷ 11 ∷ 12 ∷ []))
unfolding byte_at
process_payload-feed_example =
    process_payload-feed first_packet.memory 5 idle-IsValid refl (omega arith) (omega arith)
      (omega arith) (omega arith) (omega arith)

-- Two packets of three bytes in a buffer of four.
abbrev small : Assembly
small = record idle { outbuf = replicate 4 0; holdbuf = 9 ∷ 9 ∷ 0 ∷ 0 ∷ [] }

endless_frame_overruns_example :
    process_packets small (first_packet ∷ first_packet ∷ last_packet ∷ []) ≡ none
unfolding byte_at view
endless_frame_overruns_example =
    endless_frame_overruns {cap = 4} (first_packet ∷ first_packet ∷ []) (last_packet ∷ [])
      (omega arith) refl (inr refl) (first-Carries, (first-Carries, tt)) (omega arith)

-- A stream with two transfers, 7 and 8, both in flight.
abbrev two_slots : List Slot
two_slots =
    record { transfer = some 7; is_deleted = false }
    ∷ record { transfer = some 8; is_deleted = false }
    ∷ []

abbrev streaming : World
streaming = begun (λ t. pos 0) (record { asm = idle; running = true; slots = two_slots })

two_slots-IsDistinct : IsDistinct two_slots
unfolding mentions
two_slots-IsDistinct = ((λ t h. ground arith), ((λ t h. refl), tt))

abbrev timeout_of : ℕ → Transfer
timeout_of t = record {
  id = t;
  status = timed_out;
  buffer = [];
  actual_length = 0;
  iso_packets = [];
}

-- Transfer 7 calls back after the stop has begun, and then transfer 8.
settled_run :
    (w : World) × (r : Reach streaming w) × NoneFails r × (is_settled w.stream.slots ≡ true)
unfolding stop_begin stream_callback release_transfer mark_deleted is_settled live submitted
    submit_all submit_rest stop_cancel cancel_slot
settled_run = (
  _,
  next
      (next (next (next here begins_stop) (cancels λ t. pos 0))
        (calls_back (timeout_of 7) (pos 0) refl refl))
      (calls_back (timeout_of 8) (pos 0) refl refl),
  (tt, λ t. refl),
  refl,
)

settled_frees_safely_example : settled_run.0.in_flight 7 ≡ false
settled_frees_safely_example =
    settled_frees_safely (λ t. pos 0) (record { asm = idle; running = true; slots = two_slots })
      (record { transfer = some 7; is_deleted = false })
      (record { transfer = some 8; is_deleted = false } ∷ []) 7 refl refl (refl, (refl, tt))
      two_slots-IsDistinct settled_run.1 settled_run.2 settled_run.3

start_keeps_sync_example : InSync settled_run.0
start_keeps_sync_example =
    start_keeps_sync (λ t. pos 0) (record { asm = idle; running = true; slots = two_slots })
      (record { transfer = some 7; is_deleted = false })
      (record { transfer = some 8; is_deleted = false } ∷ []) refl refl (refl, (refl, tt))
      two_slots-IsDistinct settled_run.1 settled_run.2

streaming-InSync : InSync streaming
streaming-InSync =
    start_keeps_sync (λ t. pos 0) (record { asm = idle; running = true; slots = two_slots })
      (record { transfer = some 7; is_deleted = false })
      (record { transfer = some 8; is_deleted = false } ∷ []) refl refl (refl, (refl, tt))
      two_slots-IsDistinct here tt

failed_cancel_frees_held_example :
    (v : World) × Reach streaming v
    × (v.stream.running ≡ false)
    × (is_settled v.stream.slots ≡ true)
    × Mem 8 (freed v.stream.slots)
    × (v.in_flight 8 ≡ true)
unfolding submitted
failed_cancel_frees_held_example =
    failed_cancel_frees_held (λ t. negsuc 0) 8 streaming-InSync refl refl λ u. refl

-- The stream once a stop has begun.
abbrev after_stop : Stream
after_stop = record { asm = idle; running = false; slots = two_slots }

stop_wait_ends_example :
    (s' : Stream) × (stop_wait (λ t. pos 0) true after_stop (timeout_of 8 ∷ timeout_of 7 ∷ [])
      ≡ some s')
    × (is_settled s'.slots ≡ true)
unfolding stop_begin
stop_wait_ends_example =
    stop_wait_ends (λ t. pos 0) (timeout_of 8 ∷ timeout_of 7 ∷ []) after_stop refl
      two_slots-IsDistinct both
  where
    both : (u : ℕ) → live two_slots u ≡ true → has_id (timeout_of 8 ∷ timeout_of 7 ∷ []) u ≡ true
    both u h = unfold live has_id in ground arith

-- The start of `two_slots` when libusb is out of memory.
failed_start : World
failed_start = record {
  stream = record { asm = idle; running = true; slots = (submit_all (λ t. negsuc 10) two_slots).1 };
  in_flight = λ t. false;
}

failed_start_never_settles_example :
    ((submit_all (λ t. negsuc 10) two_slots).0 ≡ negsuc 10)
    × (is_settled (stop_begin failed_start.stream).1.slots ≡ false)
unfolding failed_start
failed_start_never_settles_example =
    failed_start_never_settles (λ t. negsuc 10) (record { transfer = some 7; is_deleted = false })
      (record { transfer = some 8; is_deleted = false } ∷ []) {w = failed_start} refl refl refl
      (λ t. refl) (next here begins_stop) tt
