-- ===== src/Controls/Tests.antt =====
-- Each theorem on the controls at a device that stores one control.
use tcluvc.Prelude.{ℕ, ◌≡◌, refl, some, List, [], ◌∷◌, ◌==◌, if◌then◌else◌, arith}
use tcluvc.Prelude.Int.{pos, negsuc}
use tcluvc.Usb
use tcluvc.Usb.{Usb, Setup}
use tcluvc.Descriptors.{DeviceInfo}
use tcluvc.Controls.Fields.{encode_field, encode_fields}
use tcluvc.Controls.Transfer.{entity_id}
use tcluvc.Controls.Table.{entity, fields, focus_rel}
use tcluvc.Controls.Calls.{get_of, set_of}
use tcluvc.Controls.RoundTrip.{control_round_trip}

-- A device that keeps the bytes of the last SET_CUR and answers all else with them.
abbrev echo : Usb
echo = record {
  World = List ℕ;
  control_transfer =
      λ w s buf n. if s.request == Usb.Request.set_cur then (pos n, buf, buf) else (pos n, w, w);
  detach_kernel_driver = λ w i. (pos 0, w);
  attach_kernel_driver = λ w i. (pos 0, w);
  claim_interface = λ w i. (pos 0, w);
  release_interface = λ w i. (pos 0, w);
  set_interface_alt_setting = λ w i a. (pos 0, w);
}

-- The same, but every transfer is stalled.
abbrev stalled : Usb
stalled = record echo { control_transfer = λ w s buf n. (negsuc 8, buf, w) }

abbrev camera : DeviceInfo
camera = record {
  ctrl_if = record {
    input_terms =
        record {
          terminal_id = 1;
          terminal_type = 0x0201;
          objective_focal_length_min = 0;
          objective_focal_length_max = 0;
          ocular_focal_length = 0;
          controls = 0;
        }
        ∷ [];
    selector_units = [];
    processing_units = record { unit_id = 2; source_id = 1; controls = 1 } ∷ [];
    extension_units = [];
    bcd_uvc = 0x0110;
    clock_frequency = 0;
    endpoint_address = 0;
    interface_number = 0;
  };
  stream_ifs = [];
}

control_round_trip_example :
    (set_of echo focus_rel [] camera (negsuc 0 ∷ pos 7 ∷ []) ≡ some (pos 0, 255 ∷ 7 ∷ []))
    × (get_of echo focus_rel (255 ∷ 7 ∷ []) camera Usb.Request.get_cur
        ≡ some (pos 0, some (negsuc 0 ∷ pos 7 ∷ []), 255 ∷ 7 ∷ []))
unfolding fields entity entity_id encode_fields encode_field
control_round_trip_example =
    control_round_trip echo focus_rel [] (255 ∷ 7 ∷ []) (255 ∷ 7 ∷ []) camera 1
      (negsuc 0 ∷ pos 7 ∷ []) (255 ∷ 7 ∷ []) refl (omega arith) refl refl
