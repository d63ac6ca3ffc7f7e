-- ===== src/Controls/Camera.antt =====
-- The controls of the camera terminal in libuvc/src/ctrl-gen.c, two functions each. A getter yields the
-- values of its out parameters in their order.
use tcluvc.Prelude.{ℕ, [], ◌∷◌}
use tcluvc.Prelude.Int.{ℤ}
use tcluvc.Usb.{Usb}
use tcluvc.Descriptors.{DeviceInfo}
use tcluvc.Controls.Fields.{u8, i8, u16, i16, u32, i32}
use tcluvc.Controls.Transfer.{camera_terminal, Got, Did, get_control, set_control}

module _ (usb : Usb) where
  unfoldable pub get_scanning_mode : usb.World → DeviceInfo → ℕ → Got usb
  get_scanning_mode = get_control usb camera_terminal 0x1 (u8 ∷ [])

  unfoldable pub set_scanning_mode : usb.World → DeviceInfo → ℤ → Did usb
  set_scanning_mode w info mode = set_control usb camera_terminal 0x1 (u8 ∷ []) w info (mode ∷ [])

  unfoldable pub get_ae_mode : usb.World → DeviceInfo → ℕ → Got usb
  get_ae_mode = get_control usb camera_terminal 0x2 (u8 ∷ [])

  unfoldable pub set_ae_mode : usb.World → DeviceInfo → ℤ → Did usb
  set_ae_mode w info mode = set_control usb camera_terminal 0x2 (u8 ∷ []) w info (mode ∷ [])

  unfoldable pub get_ae_priority : usb.World → DeviceInfo → ℕ → Got usb
  get_ae_priority = get_control usb camera_terminal 0x3 (u8 ∷ [])

  unfoldable pub set_ae_priority : usb.World → DeviceInfo → ℤ → Did usb
  set_ae_priority w info priority =
      set_control usb camera_terminal 0x3 (u8 ∷ []) w info (priority ∷ [])

  unfoldable pub get_exposure_abs : usb.World → DeviceInfo → ℕ → Got usb
  get_exposure_abs = get_control usb camera_terminal 0x4 (u32 ∷ [])

  unfoldable pub set_exposure_abs : usb.World → DeviceInfo → ℤ → Did usb
  set_exposure_abs w info time = set_control usb camera_terminal 0x4 (u32 ∷ []) w info (time ∷ [])

  unfoldable pub get_exposure_rel : usb.World → DeviceInfo → ℕ → Got usb
  get_exposure_rel = get_control usb camera_terminal 0x5 (i8 ∷ [])

  unfoldable pub set_exposure_rel : usb.World → DeviceInfo → ℤ → Did usb
  set_exposure_rel w info step = set_control usb camera_terminal 0x5 (i8 ∷ []) w info (step ∷ [])

  unfoldable pub get_focus_abs : usb.World → DeviceInfo → ℕ → Got usb
  get_focus_abs = get_control usb camera_terminal 0x6 (u16 ∷ [])

  unfoldable pub set_focus_abs : usb.World → DeviceInfo → ℤ → Did usb
  set_focus_abs w info focus = set_control usb camera_terminal 0x6 (u16 ∷ []) w info (focus ∷ [])

  unfoldable pub get_focus_rel : usb.World → DeviceInfo → ℕ → Got usb
  get_focus_rel = get_control usb camera_terminal 0x7 (i8 ∷ u8 ∷ [])

  unfoldable pub set_focus_rel : usb.World → DeviceInfo → ℤ → ℤ → Did usb
  set_focus_rel w info focus_rel speed =
      set_control usb camera_terminal 0x7 (i8 ∷ u8 ∷ []) w info (focus_rel ∷ speed ∷ [])

  unfoldable pub get_focus_simple_range : usb.World → DeviceInfo → ℕ → Got usb
  get_focus_simple_range = get_control usb camera_terminal 0x12 (u8 ∷ [])

  unfoldable pub set_focus_simple_range : usb.World → DeviceInfo → ℤ → Did usb
  set_focus_simple_range w info focus =
      set_control usb camera_terminal 0x12 (u8 ∷ []) w info (focus ∷ [])

  unfoldable pub get_focus_auto : usb.World → DeviceInfo → ℕ → Got usb
  get_focus_auto = get_control usb camera_terminal 0x8 (u8 ∷ [])

  unfoldable pub set_focus_auto : usb.World → DeviceInfo → ℤ → Did usb
  set_focus_auto w info state = set_control usb camera_terminal 0x8 (u8 ∷ []) w info (state ∷ [])

  unfoldable pub get_iris_abs : usb.World → DeviceInfo → ℕ → Got usb
  get_iris_abs = get_control usb camera_terminal 0x9 (u16 ∷ [])

  unfoldable pub set_iris_abs : usb.World → DeviceInfo → ℤ → Did usb
  set_iris_abs w info iris = set_control usb camera_terminal 0x9 (u16 ∷ []) w info (iris ∷ [])

  unfoldable pub get_iris_rel : usb.World → DeviceInfo → ℕ → Got usb
  get_iris_rel = get_control usb camera_terminal 0xa (u8 ∷ [])

  unfoldable pub set_iris_rel : usb.World → DeviceInfo → ℤ → Did usb
  set_iris_rel w info iris_rel =
      set_control usb camera_terminal 0xa (u8 ∷ []) w info (iris_rel ∷ [])

  unfoldable pub get_zoom_abs : usb.World → DeviceInfo → ℕ → Got usb
  get_zoom_abs = get_control usb camera_terminal 0xb (u16 ∷ [])

  unfoldable pub set_zoom_abs : usb.World → DeviceInfo → ℤ → Did usb
  set_zoom_abs w info focal_length =
      set_control usb camera_terminal 0xb (u16 ∷ []) w info (focal_length ∷ [])

  unfoldable pub get_zoom_rel : usb.World → DeviceInfo → ℕ → Got usb
  get_zoom_rel = get_control usb camera_terminal 0xc (i8 ∷ u8 ∷ u8 ∷ [])

  unfoldable pub set_zoom_rel : usb.World → DeviceInfo → ℤ → ℤ → ℤ → Did usb
  set_zoom_rel w info zoom_rel digital_zoom speed =
      set_control usb camera_terminal 0xc (i8 ∷ u8 ∷ u8 ∷ []) w info
        (zoom_rel ∷ digital_zoom ∷ speed ∷ [])

  unfoldable pub get_pantilt_abs : usb.World → DeviceInfo → ℕ → Got usb
  get_pantilt_abs = get_control usb camera_terminal 0xd (i32 ∷ i32 ∷ [])

  unfoldable pub set_pantilt_abs : usb.World → DeviceInfo → ℤ → ℤ → Did usb
  set_pantilt_abs w info pan tilt =
      set_control usb camera_terminal 0xd (i32 ∷ i32 ∷ []) w info (pan ∷ tilt ∷ [])

  unfoldable pub get_pantilt_rel : usb.World → DeviceInfo → ℕ → Got usb
  get_pantilt_rel = get_control usb camera_terminal 0xe (i8 ∷ u8 ∷ i8 ∷ u8 ∷ [])

  unfoldable pub set_pantilt_rel : usb.World → DeviceInfo → ℤ → ℤ → ℤ → ℤ → Did usb
  set_pantilt_rel w info pan_rel pan_speed tilt_rel tilt_speed =
      set_control usb camera_terminal 0xe (i8 ∷ u8 ∷ i8 ∷ u8 ∷ []) w info
        (pan_rel ∷ pan_speed ∷ tilt_rel ∷ tilt_speed ∷ [])

  unfoldable pub get_roll_abs : usb.World → DeviceInfo → ℕ → Got usb
  get_roll_abs = get_control usb camera_terminal 0xf (i16 ∷ [])

  unfoldable pub set_roll_abs : usb.World → DeviceInfo → ℤ → Did usb
  set_roll_abs w info roll = set_control usb camera_terminal 0xf (i16 ∷ []) w info (roll ∷ [])

  unfoldable pub get_roll_rel : usb.World → DeviceInfo → ℕ → Got usb
  get_roll_rel = get_control usb camera_terminal 0x10 (i8 ∷ u8 ∷ [])

  unfoldable pub set_roll_rel : usb.World → DeviceInfo → ℤ → ℤ → Did usb
  set_roll_rel w info roll_rel speed =
      set_control usb camera_terminal 0x10 (i8 ∷ u8 ∷ []) w info (roll_rel ∷ speed ∷ [])

  unfoldable pub get_privacy : usb.World → DeviceInfo → ℕ → Got usb
  get_privacy = get_control usb camera_terminal 0x11 (u8 ∷ [])

  unfoldable pub set_privacy : usb.World → DeviceInfo → ℤ → Did usb
  set_privacy w info privacy = set_control usb camera_terminal 0x11 (u8 ∷ []) w info (privacy ∷ [])

  unfoldable pub get_digital_window : usb.World → DeviceInfo → ℕ → Got usb
  get_digital_window = get_control usb camera_terminal 0x13 (u16 ∷ u16 ∷ u16 ∷ u16 ∷ u16 ∷ u16 ∷ [])

  unfoldable pub set_digital_window : usb.World → DeviceInfo → ℤ → ℤ → ℤ → ℤ → ℤ → ℤ → Did usb
  set_digital_window w info window_top window_left window_bottom window_right num_steps
        num_steps_units =
      set_control usb camera_terminal 0x13 (u16 ∷ u16 ∷ u16 ∷ u16 ∷ u16 ∷ u16 ∷ []) w info
        (window_top ∷ window_left ∷ window_bottom ∷ window_right ∷ num_steps ∷ num_steps_units ∷ [])

  unfoldable pub get_digital_roi : usb.World → DeviceInfo → ℕ → Got usb
  get_digital_roi = get_control usb camera_terminal 0x14 (u16 ∷ u16 ∷ u16 ∷ u16 ∷ u16 ∷ [])

  unfoldable pub set_digital_roi : usb.World → DeviceInfo → ℤ → ℤ → ℤ → ℤ → ℤ → Did usb
  set_digital_roi w info roi_top roi_left roi_bottom roi_right auto_controls =
      set_control usb camera_terminal 0x14 (u16 ∷ u16 ∷ u16 ∷ u16 ∷ u16 ∷ []) w info
        (roi_top ∷ roi_left ∷ roi_bottom ∷ roi_right ∷ auto_controls ∷ [])
