-- ===== src/Controls/Processing.antt =====
-- The controls of the processing unit in libuvc/src/ctrl-gen.c, two functions each. A getter yields the
-- values of its out parameters in their order.
use tcluvc.Prelude.{ℕ, [], ◌∷◌}
use tcluvc.Prelude.Int.{ℤ}
use tcluvc.Usb.{Usb}
use tcluvc.Descriptors.{DeviceInfo}
use tcluvc.Controls.Fields.{u8, u16, i16}
use tcluvc.Controls.Transfer.{processing_unit, Got, Did, get_control, set_control}

module _ (usb : Usb) where
  unfoldable pub get_backlight_compensation : usb.World → DeviceInfo → ℕ → Got usb
  get_backlight_compensation = get_control usb processing_unit 0x1 (u16 ∷ [])

  unfoldable pub set_backlight_compensation : usb.World → DeviceInfo → ℤ → Did usb
  set_backlight_compensation w info backlight_compensation =
      set_control usb processing_unit 0x1 (u16 ∷ []) w info (backlight_compensation ∷ [])

  unfoldable pub get_brightness : usb.World → DeviceInfo → ℕ → Got usb
  get_brightness = get_control usb processing_unit 0x2 (i16 ∷ [])

  unfoldable pub set_brightness : usb.World → DeviceInfo → ℤ → Did usb
  set_brightness w info brightness =
      set_control usb processing_unit 0x2 (i16 ∷ []) w info (brightness ∷ [])

  unfoldable pub get_contrast : usb.World → DeviceInfo → ℕ → Got usb
  get_contrast = get_control usb processing_unit 0x3 (u16 ∷ [])

  unfoldable pub set_contrast : usb.World → DeviceInfo → ℤ → Did usb
  set_contrast w info contrast =
      set_control usb processing_unit 0x3 (u16 ∷ []) w info (contrast ∷ [])

  unfoldable pub get_contrast_auto : usb.World → DeviceInfo → ℕ → Got usb
  get_contrast_auto = get_control usb processing_unit 0x13 (u8 ∷ [])

  unfoldable pub set_contrast_auto : usb.World → DeviceInfo → ℤ → Did usb
  set_contrast_auto w info contrast_auto =
      set_control usb processing_unit 0x13 (u8 ∷ []) w info (contrast_auto ∷ [])

  unfoldable pub get_gain : usb.World → DeviceInfo → ℕ → Got usb
  get_gain = get_control usb processing_unit 0x4 (u16 ∷ [])

  unfoldable pub set_gain : usb.World → DeviceInfo → ℤ → Did usb
  set_gain w info gain = set_control usb processing_unit 0x4 (u16 ∷ []) w info (gain ∷ [])

  unfoldable pub get_power_line_frequency : usb.World → DeviceInfo → ℕ → Got usb
  get_power_line_frequency = get_control usb processing_unit 0x5 (u8 ∷ [])

  unfoldable pub set_power_line_frequency : usb.World → DeviceInfo → ℤ → Did usb
  set_power_line_frequency w info power_line_frequency =
      set_control usb processing_unit 0x5 (u8 ∷ []) w info (power_line_frequency ∷ [])

  unfoldable pub get_hue : usb.World → DeviceInfo → ℕ → Got usb
  get_hue = get_control usb processing_unit 0x6 (i16 ∷ [])

  unfoldable pub set_hue : usb.World → DeviceInfo → ℤ → Did usb
  set_hue w info hue = set_control usb processing_unit 0x6 (i16 ∷ []) w info (hue ∷ [])

  unfoldable pub get_hue_auto : usb.World → DeviceInfo → ℕ → Got usb
  get_hue_auto = get_control usb processing_unit 0x10 (u8 ∷ [])

  unfoldable pub set_hue_auto : usb.World → DeviceInfo → ℤ → Did usb
  set_hue_auto w info hue_auto =
      set_control usb processing_unit 0x10 (u8 ∷ []) w info (hue_auto ∷ [])

  unfoldable pub get_saturation : usb.World → DeviceInfo → ℕ → Got usb
  get_saturation = get_control usb processing_unit 0x7 (u16 ∷ [])

  unfoldable pub set_saturation : usb.World → DeviceInfo → ℤ → Did usb
  set_saturation w info saturation =
      set_control usb processing_unit 0x7 (u16 ∷ []) w info (saturation ∷ [])

  unfoldable pub get_sharpness : usb.World → DeviceInfo → ℕ → Got usb
  get_sharpness = get_control usb processing_unit 0x8 (u16 ∷ [])

  unfoldable pub set_sharpness : usb.World → DeviceInfo → ℤ → Did usb
  set_sharpness w info sharpness =
      set_control usb processing_unit 0x8 (u16 ∷ []) w info (sharpness ∷ [])

  unfoldable pub get_gamma : usb.World → DeviceInfo → ℕ → Got usb
  get_gamma = get_control usb processing_unit 0x9 (u16 ∷ [])

  unfoldable pub set_gamma : usb.World → DeviceInfo → ℤ → Did usb
  set_gamma w info gamma = set_control usb processing_unit 0x9 (u16 ∷ []) w info (gamma ∷ [])

  unfoldable pub get_white_balance_temperature : usb.World → DeviceInfo → ℕ → Got usb
  get_white_balance_temperature = get_control usb processing_unit 0xa (u16 ∷ [])

  unfoldable pub set_white_balance_temperature : usb.World → DeviceInfo → ℤ → Did usb
  set_white_balance_temperature w info temperature =
      set_control usb processing_unit 0xa (u16 ∷ []) w info (temperature ∷ [])

  unfoldable pub get_white_balance_temperature_auto : usb.World → DeviceInfo → ℕ → Got usb
  get_white_balance_temperature_auto = get_control usb processing_unit 0xb (u8 ∷ [])

  unfoldable pub set_white_balance_temperature_auto : usb.World → DeviceInfo → ℤ → Did usb
  set_white_balance_temperature_auto w info temperature_auto =
      set_control usb processing_unit 0xb (u8 ∷ []) w info (temperature_auto ∷ [])

  unfoldable pub get_white_balance_component : usb.World → DeviceInfo → ℕ → Got usb
  get_white_balance_component = get_control usb processing_unit 0xc (u16 ∷ u16 ∷ [])

  unfoldable pub set_white_balance_component : usb.World → DeviceInfo → ℤ → ℤ → Did usb
  set_white_balance_component w info blue red =
      set_control usb processing_unit 0xc (u16 ∷ u16 ∷ []) w info (blue ∷ red ∷ [])

  unfoldable pub get_white_balance_component_auto : usb.World → DeviceInfo → ℕ → Got usb
  get_white_balance_component_auto = get_control usb processing_unit 0xd (u8 ∷ [])

  unfoldable pub set_white_balance_component_auto : usb.World → DeviceInfo → ℤ → Did usb
  set_white_balance_component_auto w info white_balance_component_auto =
      set_control usb processing_unit 0xd (u8 ∷ []) w info (white_balance_component_auto ∷ [])

  unfoldable pub get_digital_multiplier : usb.World → DeviceInfo → ℕ → Got usb
  get_digital_multiplier = get_control usb processing_unit 0xe (u16 ∷ [])

  unfoldable pub set_digital_multiplier : usb.World → DeviceInfo → ℤ → Did usb
  set_digital_multiplier w info multiplier_step =
      set_control usb processing_unit 0xe (u16 ∷ []) w info (multiplier_step ∷ [])

  unfoldable pub get_digital_multiplier_limit : usb.World → DeviceInfo → ℕ → Got usb
  get_digital_multiplier_limit = get_control usb processing_unit 0xf (u16 ∷ [])

  unfoldable pub set_digital_multiplier_limit : usb.World → DeviceInfo → ℤ → Did usb
  set_digital_multiplier_limit w info multiplier_step =
      set_control usb processing_unit 0xf (u16 ∷ []) w info (multiplier_step ∷ [])

  unfoldable pub get_analog_video_standard : usb.World → DeviceInfo → ℕ → Got usb
  get_analog_video_standard = get_control usb processing_unit 0x11 (u8 ∷ [])

  unfoldable pub set_analog_video_standard : usb.World → DeviceInfo → ℤ → Did usb
  set_analog_video_standard w info video_standard =
      set_control usb processing_unit 0x11 (u8 ∷ []) w info (video_standard ∷ [])

  unfoldable pub get_analog_video_lock_status : usb.World → DeviceInfo → ℕ → Got usb
  get_analog_video_lock_status = get_control usb processing_unit 0x12 (u8 ∷ [])

  unfoldable pub set_analog_video_lock_status : usb.World → DeviceInfo → ℤ → Did usb
  set_analog_video_lock_status w info status =
      set_control usb processing_unit 0x12 (u8 ∷ []) w info (status ∷ [])
