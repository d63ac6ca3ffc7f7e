-- ===== src/Controls/Transfer.antt =====
-- The body that every function of libuvc/src/ctrl-gen.c has: find the terminal or unit, run one
-- control transfer, and take it for a success if all bytes of the data went over.
use tcluvc.Prelude.{
  ℕ, ◌+◌, ◌*◌, Option, none, some, ◌>>=◌, List, [], ◌∷◌, ◌==◌, if◌then◌else◌, replicate,
}
use mathlib.Core.Option
use tcluvc.Prelude.Int.{ℤ, pos}
use tcluvc.Usb
use tcluvc.Usb.{Usb, Setup, req_type_set, req_type_get, is_count}
use tcluvc.Descriptors.{InputTerminal, DeviceInfo}
use tcluvc.Controls.Fields.{Kind, size, encode_fields, decode_fields}

pub data Entity : Type 0 where
  camera_terminal processing_unit selector_unit : Entity

-- `uvc_get_camera_terminal`: the first input terminal of type UVC_ITT_CAMERA, NULL if none.
unfoldable pub get_camera_terminal : List InputTerminal → Option InputTerminal
get_camera_terminal [] = none
get_camera_terminal (t ∷ ts) =
    let rest = get_camera_terminal ts in if t.terminal_type == 0x0201 then some t else rest

abbrev pub head {ℓ} : {A : Type ℓ} → List A → Option A
head [] = none
head (x ∷ xs) = some x

-- The number of the terminal or unit; `none` where the code reads through a NULL pointer.
unfoldable pub entity_id : DeviceInfo → Entity → Option ℕ
unfolding get_camera_terminal
entity_id info camera_terminal =
    Option.map (λ t. t.terminal_id) (get_camera_terminal info.ctrl_if.input_terms)
entity_id info processing_unit = Option.map (λ u. u.unit_id) (head info.ctrl_if.processing_units)
entity_id info selector_unit = Option.map (λ u. u.unit_id) (head info.ctrl_if.selector_units)

abbrev pub get_setup : DeviceInfo → ℕ → ℕ → ℕ → Setup
get_setup info id selector req = record {
  request_type = req_type_get;
  request = req;
  value = selector * 256;
  index = id * 256 + info.ctrl_if.interface_number;
}

abbrev pub set_setup : DeviceInfo → ℕ → ℕ → Setup
set_setup info id selector = record {
  request_type = req_type_set;
  request = Usb.Request.set_cur;
  value = selector * 256;
  index = id * 256 + info.ctrl_if.interface_number;
}

module _ (usb : Usb) where
  open usb use {World, control_transfer}

  -- The values that go through the out parameters are there on success only. The C buffer is
  -- uninitialised; it is read only if the transfer filled it.
  abbrev pub Got : Type 0
  Got = Option (ℤ × Option (List ℤ) × usb.World)

  abbrev pub Did : Type 0
  Did = Option (ℤ × usb.World)

  unfoldable pub get_control :
      Entity → ℕ → List Kind → World → DeviceInfo → ℕ → Option (ℤ × Option (List ℤ) × World)
  get_control e selector ks w info req = do
    id ← entity_id info e
    let (ret, buf, w') =
        control_transfer w (get_setup info id selector req) (replicate (size ks) 0) (size ks)
    some (
        if is_count ret (size ks)
        then (pos 0, some (decode_fields ks buf), w')
        else (ret, none, w'))

  unfoldable pub set_control :
      Entity → ℕ → List Kind → World → DeviceInfo → List ℤ → Option (ℤ × World)
  set_control e selector ks w info vs = do
    id ← entity_id info e
    let (ret, _, w') =
        control_transfer w (set_setup info id selector) (encode_fields ks vs) (size ks)
    some (if is_count ret (size ks) then pos 0 else ret, w')
