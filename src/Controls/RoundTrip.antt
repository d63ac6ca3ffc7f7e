-- ===== src/Controls/RoundTrip.antt =====
-- What the functions of libuvc/src/ctrl-gen.c promise, for all forty controls at once.
use tcluvc.Prelude.{ℕ, true, false, none, some, List, ◌≡◌, ◌∙◌, ap, ◌↔◌, arith, replicate}
use tcluvc.Prelude.Int.{ℤ, pos}
use tcluvc.Usb
use tcluvc.Usb.{Usb, is_count}
use tcluvc.Descriptors.{DeviceInfo}
use tcluvc.Controls.Fields.{
  Kind, AreInRange, size, encode_fields, decode_fields, decode_fields-encode_fields,
}
use tcluvc.Controls.Transfer.{Entity, entity_id, get_setup, set_setup, get_control, set_control}
use tcluvc.Controls.Table.{Control, entity, selector, fields}
use tcluvc.Controls.Calls.{get_of, set_of}
use tcluvc.Controls.Rows.{get_of_lem, set_of_lem}

is_count_self : (n : ℕ) → is_count (pos n) n ≡ true
is_count_self n = ground arith

set_control_done :
    (usb : Usb) (e : Entity) (sel : ℕ) (ks : List Kind) (w w₁ : usb.World) (info : DeviceInfo)
    (id : ℕ) (vs : List ℤ) (left : List ℕ)
    → entity_id info e ≡ some id
    → usb.control_transfer w (set_setup info id sel) (encode_fields ks vs) (size ks)
      ≡ (pos (size ks), left, w₁)
    → set_control usb e sel ks w info vs ≡ some (pos 0, w₁)
unfolding set_control
set_control_done usb e sel ks w w₁ info id vs left there took =
    rw (there, took, is_count_self (size ks))

get_control_done :
    (usb : Usb) (e : Entity) (sel : ℕ) (ks : List Kind) (w w₁ : usb.World) (info : DeviceInfo)
    (id req : ℕ) (bytes : List ℕ)
    → entity_id info e ≡ some id
    → usb.control_transfer w (get_setup info id sel req) (replicate (size ks) 0) (size ks)
      ≡ (pos (size ks), bytes, w₁)
    → get_control usb e sel ks w info req ≡ some (pos 0, some (decode_fields ks bytes), w₁)
unfolding get_control
get_control_done usb e sel ks w w₁ info id req bytes there gave =
    rw (there, gave, is_count_self (size ks))

-- Every control that a device has comes back as it was set: if the values fit their C types, the
-- device takes the bytes of the SET_CUR, and it answers the GET_CUR on the same control with the
-- bytes that it took, then the setter succeeds, and the getter succeeds with the values set.
pub control_round_trip :
    (usb : Usb) (c : Control) (w w₁ w₂ : usb.World) (info : DeviceInfo) (id : ℕ) (vs : List ℤ)
    (left : List ℕ)
    → entity_id info (entity c) ≡ some id
    → AreInRange (fields c) vs
    → usb.control_transfer w
        (set_setup info id (selector c))
        (encode_fields (fields c) vs)
        (size (fields c))
      ≡ (pos (size (fields c)), left, w₁)
    → usb.control_transfer w₁
        (get_setup info id (selector c) Usb.Request.get_cur)
        (replicate (size (fields c)) 0)
        (size (fields c))
      ≡ (pos (size (fields c)), encode_fields (fields c) vs, w₂)
    → (set_of usb c w info vs ≡ some (pos 0, w₁))
      × (get_of usb c w₁ info Usb.Request.get_cur ≡ some (pos 0, some vs, w₂))
control_round_trip usb c w w₁ w₂ info id vs left there range took gave = (
  set_of_lem usb c w info vs range
      ∙ set_control_done usb (entity c) (selector c) (fields c) w w₁ info id vs left there took,
  ap (λ g. g w₁ info Usb.Request.get_cur) (get_of_lem usb c)
      ∙ get_control_done usb (entity c) (selector c) (fields c) w₁ w₂ info id Usb.Request.get_cur
          (encode_fields (fields c) vs) there gave
      ∙ ap (λ us. some (pos 0, some us, w₂)) (decode_fields-encode_fields (fields c) vs range),
)

-- A getter whose transfer fails or moves another number of bytes than the control has hands on
-- libusb's result and writes none of its out parameters.
pub get_of-short :
    (usb : Usb) (c : Control) (w w' : usb.World) (info : DeviceInfo) (id req : ℕ) (ret : ℤ)
    (bytes : List ℕ)
    → entity_id info (entity c) ≡ some id
    → usb.control_transfer w
        (get_setup info id (selector c) req)
        (replicate (size (fields c)) 0)
        (size (fields c))
      ≡ (ret, bytes, w')
    → is_count ret (size (fields c)) ≡ false
    → get_of usb c w info req ≡ some (ret, none, w')
unfolding get_control
get_of-short usb c w w' info id req ret bytes there gave short =
    ap (λ g. g w info req) (get_of_lem usb c) ∙ rw (there, gave, short)

get_control_null :
    (usb : Usb) (e : Entity) (sel : ℕ) (ks : List Kind) (w : usb.World) (info : DeviceInfo)
    (req : ℕ)
    → (get_control usb e sel ks w info req ≡ none) ↔ (entity_id info e ≡ none)
unfolding get_control
get_control_null usb e sel ks w info req = ground arith

-- A getter reads through a NULL pointer exactly if the device has no terminal or unit of the kind
-- that the control belongs to.
pub get_of-null :
    (usb : Usb) (c : Control) (w : usb.World) (info : DeviceInfo) (req : ℕ)
    → (get_of usb c w info req ≡ none) ↔ (entity_id info (entity c) ≡ none)
get_of-null usb c w info req =
    rw (get_of_lem usb c) (get_control_null usb (entity c) (selector c) (fields c) w info req)
