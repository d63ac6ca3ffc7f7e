-- ===== src/Controls/Calls.antt =====
-- The functions of libuvc/src/ctrl-gen.c by the control that they read or write, and what each
-- comes to.
use tcluvc.Prelude.{ℕ, Option, none, List, [], ◌∷◌}
use tcluvc.Prelude.Int.{ℤ}
use tcluvc.Usb.{Usb}
use tcluvc.Descriptors.{DeviceInfo}
use tcluvc.Controls.Transfer.{Got, Did}
use tcluvc.Controls.Camera.{
  get_scanning_mode, set_scanning_mode, get_ae_mode, set_ae_mode, get_ae_priority, set_ae_priority,
  get_exposure_abs, set_exposure_abs, get_exposure_rel, set_exposure_rel, get_focus_abs,
  set_focus_abs, get_focus_rel, set_focus_rel, get_focus_simple_range, set_focus_simple_range,
  get_focus_auto, set_focus_auto, get_iris_abs, set_iris_abs, get_iris_rel, set_iris_rel,
  get_zoom_abs, set_zoom_abs, get_zoom_rel, set_zoom_rel, get_pantilt_abs, set_pantilt_abs,
  get_pantilt_rel, set_pantilt_rel, get_roll_abs, set_roll_abs, get_roll_rel, set_roll_rel,
  get_privacy, set_privacy, get_digital_window, set_digital_window, get_digital_roi,
  set_digital_roi,
}
use tcluvc.Controls.Processing.{
  get_backlight_compensation, set_backlight_compensation, get_brightness, set_brightness,
  get_contrast, set_contrast, get_contrast_auto, set_contrast_auto, get_gain, set_gain,
  get_power_line_frequency, set_power_line_frequency, get_hue, set_hue, get_hue_auto, set_hue_auto,
  get_saturation, set_saturation, get_sharpness, set_sharpness, get_gamma, set_gamma,
  get_white_balance_temperature, set_white_balance_temperature, get_white_balance_temperature_auto,
  set_white_balance_temperature_auto, get_white_balance_component, set_white_balance_component,
  get_white_balance_component_auto, set_white_balance_component_auto, get_digital_multiplier,
  set_digital_multiplier, get_digital_multiplier_limit, set_digital_multiplier_limit,
  get_analog_video_standard, set_analog_video_standard, get_analog_video_lock_status,
  set_analog_video_lock_status,
}
use tcluvc.Controls.Selector.{get_input_select, set_input_select}
use tcluvc.Controls.Table.{
  Control, scanning_mode, ae_mode, ae_priority, exposure_abs, exposure_rel, focus_abs, focus_rel,
  focus_simple_range, focus_auto, iris_abs, iris_rel, zoom_abs, zoom_rel, pantilt_abs, pantilt_rel,
  roll_abs, roll_rel, privacy, digital_window, digital_roi, backlight_compensation, brightness,
  contrast, contrast_auto, gain, power_line_frequency, hue, hue_auto, saturation, sharpness, gamma,
  white_balance_temperature, white_balance_temperature_auto, white_balance_component,
  white_balance_component_auto, digital_multiplier, digital_multiplier_limit, analog_video_standard,
  analog_video_lock_status, input_select,
}

-- A function of so many parameters on a list of values; another length is no call.
module _ {ℓ} {A : Type ℓ} where
  abbrev pub with_one : (ℤ → Option A) → List ℤ → Option A
  with_one call (a ∷ []) = call a
  with_one call _ = none

  abbrev pub with_two : (ℤ → ℤ → Option A) → List ℤ → Option A
  with_two call (a ∷ b ∷ []) = call a b
  with_two call _ = none

  abbrev pub with_three : (ℤ → ℤ → ℤ → Option A) → List ℤ → Option A
  with_three call (a ∷ b ∷ c ∷ []) = call a b c
  with_three call _ = none

  abbrev pub with_four : (ℤ → ℤ → ℤ → ℤ → Option A) → List ℤ → Option A
  with_four call (a ∷ b ∷ c ∷ d ∷ []) = call a b c d
  with_four call _ = none

  abbrev pub with_five : (ℤ → ℤ → ℤ → ℤ → ℤ → Option A) → List ℤ → Option A
  with_five call (a ∷ b ∷ c ∷ d ∷ e ∷ []) = call a b c d e
  with_five call _ = none

  abbrev pub with_six : (ℤ → ℤ → ℤ → ℤ → ℤ → ℤ → Option A) → List ℤ → Option A
  with_six call (a ∷ b ∷ c ∷ d ∷ e ∷ f ∷ []) = call a b c d e f
  with_six call _ = none

module _ (usb : Usb) where
  -- The function that reads a control, and the one that writes it.
  unfoldable pub get_of : Control → usb.World → DeviceInfo → ℕ → Got usb
  get_of scanning_mode = get_scanning_mode usb
  get_of ae_mode = get_ae_mode usb
  get_of ae_priority = get_ae_priority usb
  get_of exposure_abs = get_exposure_abs usb
  get_of exposure_rel = get_exposure_rel usb
  get_of focus_abs = get_focus_abs usb
  get_of focus_rel = get_focus_rel usb
  get_of focus_simple_range = get_focus_simple_range usb
  get_of focus_auto = get_focus_auto usb
  get_of iris_abs = get_iris_abs usb
  get_of iris_rel = get_iris_rel usb
  get_of zoom_abs = get_zoom_abs usb
  get_of zoom_rel = get_zoom_rel usb
  get_of pantilt_abs = get_pantilt_abs usb
  get_of pantilt_rel = get_pantilt_rel usb
  get_of roll_abs = get_roll_abs usb
  get_of roll_rel = get_roll_rel usb
  get_of privacy = get_privacy usb
  get_of digital_window = get_digital_window usb
  get_of digital_roi = get_digital_roi usb
  get_of backlight_compensation = get_backlight_compensation usb
  get_of brightness = get_brightness usb
  get_of contrast = get_contrast usb
  get_of contrast_auto = get_contrast_auto usb
  get_of gain = get_gain usb
  get_of power_line_frequency = get_power_line_frequency usb
  get_of hue = get_hue usb
  get_of hue_auto = get_hue_auto usb
  get_of saturation = get_saturation usb
  get_of sharpness = get_sharpness usb
  get_of gamma = get_gamma usb
  get_of white_balance_temperature = get_white_balance_temperature usb
  get_of white_balance_temperature_auto = get_white_balance_temperature_auto usb
  get_of white_balance_component = get_white_balance_component usb
  get_of white_balance_component_auto = get_white_balance_component_auto usb
  get_of digital_multiplier = get_digital_multiplier usb
  get_of digital_multiplier_limit = get_digital_multiplier_limit usb
  get_of analog_video_standard = get_analog_video_standard usb
  get_of analog_video_lock_status = get_analog_video_lock_status usb
  get_of input_select = get_input_select usb

  unfoldable pub set_of : Control → usb.World → DeviceInfo → List ℤ → Did usb
  set_of scanning_mode w info = with_one (set_scanning_mode usb w info)
  set_of ae_mode w info = with_one (set_ae_mode usb w info)
  set_of ae_priority w info = with_one (set_ae_priority usb w info)
  set_of exposure_abs w info = with_one (set_exposure_abs usb w info)
  set_of exposure_rel w info = with_one (set_exposure_rel usb w info)
  set_of focus_abs w info = with_one (set_focus_abs usb w info)
  set_of focus_rel w info = with_two (set_focus_rel usb w info)
  set_of focus_simple_range w info = with_one (set_focus_simple_range usb w info)
  set_of focus_auto w info = with_one (set_focus_auto usb w info)
  set_of iris_abs w info = with_one (set_iris_abs usb w info)
  set_of iris_rel w info = with_one (set_iris_rel usb w info)
  set_of zoom_abs w info = with_one (set_zoom_abs usb w info)
  set_of zoom_rel w info = with_three (set_zoom_rel usb w info)
  set_of pantilt_abs w info = with_two (set_pantilt_abs usb w info)
  set_of pantilt_rel w info = with_four (set_pantilt_rel usb w info)
  set_of roll_abs w info = with_one (set_roll_abs usb w info)
  set_of roll_rel w info = with_two (set_roll_rel usb w info)
  set_of privacy w info = with_one (set_privacy usb w info)
  set_of digital_window w info = with_six (set_digital_window usb w info)
  set_of digital_roi w info = with_five (set_digital_roi usb w info)
  set_of backlight_compensation w info = with_one (set_backlight_compensation usb w info)
  set_of brightness w info = with_one (set_brightness usb w info)
  set_of contrast w info = with_one (set_contrast usb w info)
  set_of contrast_auto w info = with_one (set_contrast_auto usb w info)
  set_of gain w info = with_one (set_gain usb w info)
  set_of power_line_frequency w info = with_one (set_power_line_frequency usb w info)
  set_of hue w info = with_one (set_hue usb w info)
  set_of hue_auto w info = with_one (set_hue_auto usb w info)
  set_of saturation w info = with_one (set_saturation usb w info)
  set_of sharpness w info = with_one (set_sharpness usb w info)
  set_of gamma w info = with_one (set_gamma usb w info)
  set_of white_balance_temperature w info = with_one (set_white_balance_temperature usb w info)
  set_of white_balance_temperature_auto w info =
      with_one (set_white_balance_temperature_auto usb w info)
  set_of white_balance_component w info = with_two (set_white_balance_component usb w info)
  set_of white_balance_component_auto w info =
      with_one (set_white_balance_component_auto usb w info)
  set_of digital_multiplier w info = with_one (set_digital_multiplier usb w info)
  set_of digital_multiplier_limit w info = with_one (set_digital_multiplier_limit usb w info)
  set_of analog_video_standard w info = with_one (set_analog_video_standard usb w info)
  set_of analog_video_lock_status w info = with_one (set_analog_video_lock_status usb w info)
  set_of input_select w info = with_one (set_input_select usb w info)
