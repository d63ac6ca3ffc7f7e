-- ===== src/Settings/Tests.antt =====
-- A camera that takes a pan and a tilt and answers with them.
use tcluvc.Prelude.{
  ℕ, ◌≡◌, ◌⊎◌, refl, inr, ◌+◌, ◌==◌, if◌then◌else◌, true, some, none, List, [], ◌∷◌, arith,
}
use tcluvc.Prelude.Int.{pos, negsuc}
use tcluvc.Usb
use tcluvc.Usb.{Usb}
use tcluvc.Descriptors.{DeviceInfo}
use tcluvc.Controls.Fields.{size}
use tcluvc.Controls.Transfer.{entity_id, get_camera_terminal}
use tcluvc.Controls.Table.{focus_rel, pantilt_abs, entity, selector, fields}
use tcluvc.Settings.{
  ctrl_info, Uctrl, data_size, put_item, set_items, get_control_value, set_control_value,
}
use tcluvc.Settings.Laws.{Fits, all_done, one_then, ctrl_info-agrees, set_get_value}

abbrev echo : Usb
echo = record {
  World = List ℕ;
  control_transfer =
      λ w s buf n. if s.request == Usb.Request.set_cur then (pos n, buf, buf) else (pos n, w, w);
  detach_kernel_driver = λ w i. (pos 0, w);
  attach_kernel_driver = λ w i. (pos 0, w);
  claim_interface = λ w i. (pos 0, w);
  release_interface = λ w i. (pos 0, w);
  set_interface_alt_setting = λ w i a. (pos 0, w);
}

abbrev camera : DeviceInfo
camera = record {
  ctrl_if = record {
    input_terms =
        record {
          terminal_id = 1;
          terminal_type = 0x0201;
          objective_focal_length_min = 0;
          objective_focal_length_max = 0;
          ocular_focal_length = 0;
          controls = 0;
        }
        ∷ [];
    selector_units = [];
    processing_units = record { unit_id = 2; source_id = 1; controls = 1 } ∷ [];
    extension_units = [];
    bcd_uvc = 0x0110;
    clock_frequency = 0;
    endpoint_address = 0;
    interface_number = 0;
  };
  stream_ifs = [];
}

abbrev pan : Uctrl
pan = record {
  info = ctrl_info pantilt_abs;
  cur = 0 ∷ 0 ∷ 0 ∷ 0 ∷ 0 ∷ 0 ∷ 0 ∷ 0 ∷ [];
  least = none;
  most = none;
  res = none;
  def = none;
}

abbrev sent : List ℕ
sent = 44 ∷ 1 ∷ 0 ∷ 0 ∷ 255 ∷ 255 ∷ 255 ∷ 255 ∷ []

ctrl_info-agrees_example :
    ((ctrl_info focus_rel).unit ≡ entity focus_rel)
    × ((ctrl_info focus_rel).code ≡ selector focus_rel)
    × ((data_size (ctrl_info focus_rel) ≡ size (fields focus_rel))
        ⊎ ((focus_rel ≡ focus_rel)
            × (data_size (ctrl_info focus_rel) ≡ size (fields focus_rel) + 2)))
ctrl_info-agrees_example = ctrl_info-agrees focus_rel

set_get_value_example :
    (c : Uctrl) × (set_control_value echo [] camera pan (pos 300 ∷ negsuc 0 ∷ [])
      ≡ some (true, c, sent))
    × (get_control_value echo sent camera c ≡ some (pos 300 ∷ negsuc 0 ∷ [], c, sent))
unfolding ctrl_info entity_id get_camera_terminal set_items put_item Fits
set_get_value_example =
    set_get_value echo [] sent sent camera pan (pos 300 ∷ negsuc 0 ∷ []) 1 (pos 8) refl
      (one_then (inr (inr (refl, omega arith))) (one_then (refl, omega arith) all_done)) refl refl
      refl
