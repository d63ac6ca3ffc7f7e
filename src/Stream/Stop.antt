-- ===== src/Stream/Stop.antt =====
-- How the transfers of a stream begin and end (libuvc/src/stream.c): the submission loop at the
-- end of `uvc_stream_start`, and the parts of `uvc_stream_stop` between which other threads run.
use tcluvc.Prelude.{
  ℕ, ◌+◌, Bool, true, false, not, ◌&&◌, none, some, List, [], ◌∷◌, map, ◌==◌, if◌then◌else◌,
}
use tcluvc.Prelude.Int.{ℤ, pos, negsuc}
use tcluvc.Usb
use tcluvc.Stream.Callback.{Slot, Stream}

abbrev pub is_success : ℤ → Bool
is_success (pos n) = n == 0
is_success (negsuc n) = false

-- What `libusb_submit_transfer` answers for a slot; the slots of a start are never NULL.
abbrev pub submit_slot : (ℕ → ℤ) → Slot → ℤ
submit_slot submit s = elim s.transfer [ none ↦ negsuc 1 | some t ↦ submit t ]

abbrev pub clear_slot : Slot → Slot
clear_slot s = record s { transfer = none }

-- The slots from a failed submission on are freed and set to NULL.
unfoldable pub submit_rest : (ℕ → ℤ) → List Slot → List Slot
submit_rest submit [] = []
submit_rest submit (s ∷ ss) =
    let rest = submit_rest submit ss in
    if is_success (submit_slot submit s) then s ∷ rest else map clear_slot (s ∷ ss)

-- If the very first submission fails the slots stay, and its result is returned; else success.
unfoldable pub submit_all : (ℕ → ℤ) → List Slot → ℤ × List Slot
submit_all submit [] = (pos 0, [])
submit_all submit (s ∷ ss) =
    if is_success (submit_slot submit s)
    then (pos 0, s ∷ submit_rest submit ss)
    else (submit_slot submit s, s ∷ ss)

-- The first part of `uvc_stream_stop`: the guard, `running = 0` and the broadcast.
unfoldable pub stop_begin : Stream → ℤ × Stream
stop_begin s = if not s.running then (Usb.Error.invalid_param, s) else (
  Usb.Error.success,
  record s { running = false; asm = record s.asm { broadcasts = s.asm.broadcasts + 1 } },
)

-- A cancel that fails otherwise than by LIBUSB_ERROR_NOT_FOUND (-5) gives the transfer up.
abbrev pub gives_up : ℤ → Bool
gives_up (pos n) = false
gives_up (negsuc n) = not (n == 4)

unfoldable pub cancel_slot : (ℕ → ℤ) → Slot → Slot
cancel_slot cancel s = elim s.transfer [
  | none ↦ s
  | some t ↦ if not s.is_deleted && gives_up (cancel t) then record s { is_deleted = true } else s
]

unfoldable pub stop_cancel : (ℕ → ℤ) → Stream → Stream
stop_cancel cancel s = record s { slots = map (cancel_slot cancel) s.slots }

-- A slot with a transfer that is not marked as deleted.
abbrev pub is_live : Slot → Bool
is_live s = elim s.transfer [ none ↦ false | some t ↦ not s.is_deleted ]

-- The test that ends the wait of `uvc_stream_stop` before its time is over.
unfoldable pub is_settled : List Slot → Bool
is_settled [] = true
is_settled (s ∷ ss) = not (is_live s) && is_settled ss

-- The transfers that the last loop frees, and the slots that it leaves.
unfoldable pub freed : List Slot → List ℕ
freed [] = []
freed (s ∷ ss) = elim s.transfer [ none ↦ freed ss | some t ↦ t ∷ freed ss ]

unfoldable pub stop_finish : Stream → Stream
stop_finish s = record s { slots = map clear_slot s.slots }
