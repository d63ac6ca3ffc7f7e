-- ===== src/Status.antt =====
-- The status interrupts of libuvc/src/device.c: `_uvc_status_callback` and the functions that it
-- calls. A packet is the list of the bytes that a transfer carried; what a function does is the call
-- that it makes of one of the user's two callbacks.
pub mod Laws
mod Tests
use tcluvc.Prelude.{
  ℕ, ◌+◌, ◌%◌, Bool, true, false, not, ◌&&◌, Option, none, some, List, [], ◌∷◌, length, drop, ltb,
  leb, ◌==◌, if◌then◌else◌,
}
use tcluvc.Bytes.{byte_at}
use tcluvc.Descriptors.{InputTerminal, ProcessingUnit, ControlInterface}
use tcluvc.Stream.Callback.{
  TransferStatus, completed, error, cancelled, timed_out, stall, overflow, no_device,
}

-- `enum uvc_status_class`.
abbrev pub class_camera : ℕ
class_camera = 0x11

abbrev pub class_processing : ℕ
class_processing = 0x12

-- A call of `status_cb` or of `button_cb`.
pub data Call : Type 0 where
  status_cb : (status_class event selector attribute : ℕ) (content : List ℕ) → Call
  button_cb : (button state : ℕ) → Call

unfoldable pub has_terminal : List InputTerminal → ℕ → Bool
has_terminal [] originator = false
has_terminal (t ∷ ts) originator =
    let rest = has_terminal ts originator in if t.terminal_id == originator then true else rest

unfoldable pub has_unit : List ProcessingUnit → ℕ → Bool
has_unit [] originator = false
has_unit (u ∷ us) originator =
    let rest = has_unit us originator in if u.unit_id == originator then true else rest

unfoldable pub process_control_status : ControlInterface → List ℕ → Option Call
unfolding has_terminal has_unit byte_at
process_control_status c p =
    let originator = byte_at p 1 in
    let event = byte_at p 2 in
    let report : ℕ → Option Call =
      λ status_class. some (status_cb status_class event (byte_at p 3) (byte_at p 4) (drop 5 p)) in
    if ltb (length p) 5
    then none
    else if originator == 0
    then none
    else if not (event == 0)
    then none
    else if has_terminal c.input_terms originator
    then report class_camera
    else if has_unit c.processing_units originator
    then report class_processing
    else none

unfoldable pub process_streaming_status : List ℕ → Option Call
unfolding byte_at
process_streaming_status p =
    if ltb (length p) 3
    then none
    else if not (byte_at p 2 == 0)
    then none
    else if ltb (length p) 4
    then none
    else some (button_cb (byte_at p 1) (byte_at p 3))

unfoldable pub process_status_xfer : ControlInterface → List ℕ → Option Call
unfolding process_control_status process_streaming_status byte_at
process_status_xfer c p =
    if not (ltb 0 (length p))
    then none
    else if byte_at p 0 % 16 == 1
    then process_control_status c p
    else if byte_at p 0 % 16 == 2
    then process_streaming_status p
    else none

-- Which of the user's callbacks are not NULL.
pub record Callbacks : Type 0 where
  pub has_status_cb : Bool
  pub has_button_cb : Bool

unfoldable pub set_status_callback : Callbacks → Bool → Callbacks
set_status_callback k cb = record k { has_status_cb = cb }

unfoldable pub set_button_callback : Callbacks → Bool → Callbacks
set_button_callback k cb = record k { has_button_cb = cb }

abbrev pub is_set : Callbacks → Call → Bool
is_set k (status_cb c e s a content) = k.has_status_cb
is_set k (button_cb b s) = k.has_button_cb

-- A callback that is NULL is not called.
abbrev pub only_set : Callbacks → Option Call → Option Call
only_set k none = none
only_set k (some call) = if is_set k call then some call else none

-- The call, and whether the transfer is submitted again.
unfoldable pub status_callback :
    ControlInterface → Callbacks → TransferStatus → List ℕ → Option Call × Bool
unfolding process_status_xfer
status_callback c k status p = elim status [
  | error ↦ (none, false)
  | cancelled ↦ (none, false)
  | no_device ↦ (none, false)
  | completed ↦ (only_set k (process_status_xfer c p), true)
  | timed_out ↦ (none, true)
  | stall ↦ (none, true)
  | overflow ↦ (none, true)
]
