-- ===== src/Status/Tests.antt =====
-- A packet of a camera terminal whose focus has changed.
use tcluvc.Prelude.{ℕ, false, List, [], ◌∷◌}
use tcluvc.Descriptors.{ControlInterface}
use tcluvc.Status.{Call, status_cb, class_camera, Callbacks}

abbrev control_if : ControlInterface
control_if = record {
  input_terms =
      record {
        terminal_id = 1;
        terminal_type = 0x0201;
        objective_focal_length_min = 0;
        objective_focal_length_max = 0;
        ocular_focal_length = 0;
        controls = 0;
      }
      ∷ [];
  selector_units = [];
  processing_units = [];
  extension_units = [];
  bcd_uvc = 0x0110;
  clock_frequency = 0;
  endpoint_address = 0x83;
  interface_number = 0;
}

abbrev packet : List ℕ
packet = 1 ∷ 1 ∷ 0 ∷ 6 ∷ 0 ∷ 50 ∷ 0 ∷ []

abbrev call : Call
call = status_cb class_camera 0 6 0 (50 ∷ 0 ∷ [])

abbrev no_callbacks : Callbacks
no_callbacks = record { has_status_cb = false; has_button_cb = false }
