-- ===== src/Controls/Rows.antt =====
-- Every function of libuvc/src/ctrl-gen.c is the one transfer that its row of the table says.
use tcluvc.Prelude.{Option, List, [], ◌∷◌, ◌≡◌, refl}
use tcluvc.Prelude.Int.{ℤ}
use tcluvc.Usb.{Usb}
use tcluvc.Descriptors.{DeviceInfo}
use tcluvc.Controls.Fields.{Kind, u8, i8, u16, i16, u32, i32, AreInRange}
use tcluvc.Controls.Transfer.{get_control, set_control}
use tcluvc.Controls.Camera.{
  get_scanning_mode, set_scanning_mode, get_ae_mode, set_ae_mode, get_ae_priority, set_ae_priority,
  get_exposure_abs, set_exposure_abs, get_exposure_rel, set_exposure_rel, get_focus_abs,
  set_focus_abs, get_focus_rel, set_focus_rel, get_focus_simple_range, set_focus_simple_range,
  get_focus_auto, set_focus_auto, get_iris_abs, set_iris_abs, get_iris_rel, set_iris_rel,
  get_zoom_abs, set_zoom_abs, get_zoom_rel, set_zoom_rel, get_pantilt_abs, set_pantilt_abs,
  get_pantilt_rel, set_pantilt_rel, get_roll_abs, set_roll_abs, get_roll_rel, set_roll_rel,
  get_privacy, set_privacy, get_digital_window, set_digital_window, get_digital_roi,
  set_digital_roi,
}
use tcluvc.Controls.Processing.{
  get_backlight_compensation, set_backlight_compensation, get_brightness, set_brightness,
  get_contrast, set_contrast, get_contrast_auto, set_contrast_auto, get_gain, set_gain,
  get_power_line_frequency, set_power_line_frequency, get_hue, set_hue, get_hue_auto, set_hue_auto,
  get_saturation, set_saturation, get_sharpness, set_sharpness, get_gamma, set_gamma,
  get_white_balance_temperature, set_white_balance_temperature, get_white_balance_temperature_auto,
  set_white_balance_temperature_auto, get_white_balance_component, set_white_balance_component,
  get_white_balance_component_auto, set_white_balance_component_auto, get_digital_multiplier,
  set_digital_multiplier, get_digital_multiplier_limit, set_digital_multiplier_limit,
  get_analog_video_standard, set_analog_video_standard, get_analog_video_lock_status,
  set_analog_video_lock_status,
}
use tcluvc.Controls.Selector.{get_input_select, set_input_select}
use tcluvc.Controls.Table.{
  Control, entity, selector, fields, scanning_mode, ae_mode, ae_priority, exposure_abs,
  exposure_rel, focus_abs, focus_rel, focus_simple_range, focus_auto, iris_abs, iris_rel, zoom_abs,
  zoom_rel, pantilt_abs, pantilt_rel, roll_abs, roll_rel, privacy, digital_window, digital_roi,
  backlight_compensation, brightness, contrast, contrast_auto, gain, power_line_frequency, hue,
  hue_auto, saturation, sharpness, gamma, white_balance_temperature, white_balance_temperature_auto,
  white_balance_component, white_balance_component_auto, digital_multiplier,
  digital_multiplier_limit, analog_video_standard, analog_video_lock_status, input_select,
}
use tcluvc.Controls.Calls.{
  get_of, set_of, with_one, with_two, with_three, with_four, with_five, with_six,
}

pub get_of_lem :
    (usb : Usb) (c : Control) → get_of usb c ≡ get_control usb (entity c) (selector c) (fields c)
unfolding get_of entity selector fields get_scanning_mode get_ae_mode get_ae_priority
    get_exposure_abs get_exposure_rel get_focus_abs get_focus_rel get_focus_simple_range
    get_focus_auto get_iris_abs get_iris_rel get_zoom_abs get_zoom_rel get_pantilt_abs
    get_pantilt_rel get_roll_abs get_roll_rel get_privacy get_digital_window get_digital_roi
    get_backlight_compensation get_brightness get_contrast get_contrast_auto get_gain
    get_power_line_frequency get_hue get_hue_auto get_saturation get_sharpness get_gamma
    get_white_balance_temperature get_white_balance_temperature_auto get_white_balance_component
    get_white_balance_component_auto get_digital_multiplier get_digital_multiplier_limit
    get_analog_video_standard get_analog_video_lock_status get_input_select
get_of_lem usb scanning_mode = refl
get_of_lem usb _ = refl

module _ {ℓ} {A : Type ℓ} (call : List ℤ → Option A) where
  with_one_lem :
      (k : Kind) (vs : List ℤ) → AreInRange (k ∷ []) vs → with_one (λ a. call (a ∷ [])) vs ≡ call vs
  with_one_lem k [] h = elim h [ ]
  with_one_lem k (a ∷ []) h = refl
  with_one_lem k (a ∷ v ∷ vs) (_, h) = elim h [ ]

  with_two_lem :
      (k l : Kind) (vs : List ℤ)
      → AreInRange (k ∷ l ∷ []) vs
      → with_two (λ a b. call (a ∷ b ∷ [])) vs ≡ call vs
  with_two_lem k l [] h = elim h [ ]
  with_two_lem k l (a ∷ []) (_, h) = elim h [ ]
  with_two_lem k l (a ∷ b ∷ []) h = refl
  with_two_lem k l (a ∷ b ∷ v ∷ vs) (_, (_, h)) = elim h [ ]

  with_three_lem :
      (k l m : Kind) (vs : List ℤ)
      → AreInRange (k ∷ l ∷ m ∷ []) vs
      → with_three (λ a b c. call (a ∷ b ∷ c ∷ [])) vs ≡ call vs
  with_three_lem k l m [] h = elim h [ ]
  with_three_lem k l m (a ∷ []) (_, h) = elim h [ ]
  with_three_lem k l m (a ∷ b ∷ []) (_, (_, h)) = elim h [ ]
  with_three_lem k l m (a ∷ b ∷ c ∷ []) h = refl
  with_three_lem k l m (a ∷ b ∷ c ∷ v ∷ vs) (_, (_, (_, h))) = elim h [ ]

  with_four_lem :
      (k l m n : Kind) (vs : List ℤ)
      → AreInRange (k ∷ l ∷ m ∷ n ∷ []) vs
      → with_four (λ a b c d. call (a ∷ b ∷ c ∷ d ∷ [])) vs ≡ call vs
  with_four_lem k l m n [] h = elim h [ ]
  with_four_lem k l m n (a ∷ []) (_, h) = elim h [ ]
  with_four_lem k l m n (a ∷ b ∷ []) (_, (_, h)) = elim h [ ]
  with_four_lem k l m n (a ∷ b ∷ c ∷ []) (_, (_, (_, h))) = elim h [ ]
  with_four_lem k l m n (a ∷ b ∷ c ∷ d ∷ []) h = refl
  with_four_lem k l m n (a ∷ b ∷ c ∷ d ∷ v ∷ vs) (_, (_, (_, (_, h)))) = elim h [ ]

  with_five_lem :
      (k l m n o : Kind) (vs : List ℤ)
      → AreInRange (k ∷ l ∷ m ∷ n ∷ o ∷ []) vs
      → with_five (λ a b c d e. call (a ∷ b ∷ c ∷ d ∷ e ∷ [])) vs ≡ call vs
  with_five_lem k l m n o [] h = elim h [ ]
  with_five_lem k l m n o (a ∷ []) (_, h) = elim h [ ]
  with_five_lem k l m n o (a ∷ b ∷ []) (_, (_, h)) = elim h [ ]
  with_five_lem k l m n o (a ∷ b ∷ c ∷ []) (_, (_, (_, h))) = elim h [ ]
  with_five_lem k l m n o (a ∷ b ∷ c ∷ d ∷ []) (_, (_, (_, (_, h)))) = elim h [ ]
  with_five_lem k l m n o (a ∷ b ∷ c ∷ d ∷ e ∷ []) h = refl
  with_five_lem k l m n o (a ∷ b ∷ c ∷ d ∷ e ∷ v ∷ vs) (_, (_, (_, (_, (_, h))))) = elim h [ ]

  with_six_lem :
      (k l m n o p : Kind) (vs : List ℤ)
      → AreInRange (k ∷ l ∷ m ∷ n ∷ o ∷ p ∷ []) vs
      → with_six (λ a b c d e f. call (a ∷ b ∷ c ∷ d ∷ e ∷ f ∷ [])) vs ≡ call vs
  with_six_lem k l m n o p [] h = elim h [ ]
  with_six_lem k l m n o p (a ∷ []) (_, h) = elim h [ ]
  with_six_lem k l m n o p (a ∷ b ∷ []) (_, (_, h)) = elim h [ ]
  with_six_lem k l m n o p (a ∷ b ∷ c ∷ []) (_, (_, (_, h))) = elim h [ ]
  with_six_lem k l m n o p (a ∷ b ∷ c ∷ d ∷ []) (_, (_, (_, (_, h)))) = elim h [ ]
  with_six_lem k l m n o p (a ∷ b ∷ c ∷ d ∷ e ∷ []) (_, (_, (_, (_, (_, h))))) = elim h [ ]
  with_six_lem k l m n o p (a ∷ b ∷ c ∷ d ∷ e ∷ f ∷ []) h = refl
  with_six_lem k l m n o p (a ∷ b ∷ c ∷ d ∷ e ∷ f ∷ v ∷ vs) (_, (_, (_, (_, (_, (_, h)))))) =
      elim h [ ]

pub set_of_lem :
    (usb : Usb) (c : Control) (w : usb.World) (info : DeviceInfo) (vs : List ℤ)
    → AreInRange (fields c) vs
    → set_of usb c w info vs ≡ set_control usb (entity c) (selector c) (fields c) w info vs
unfolding set_of entity selector fields set_scanning_mode set_ae_mode set_ae_priority
    set_exposure_abs set_exposure_rel set_focus_abs set_focus_rel set_focus_simple_range
    set_focus_auto set_iris_abs set_iris_rel set_zoom_abs set_zoom_rel set_pantilt_abs
    set_pantilt_rel set_roll_abs set_roll_rel set_privacy set_digital_window set_digital_roi
    set_backlight_compensation set_brightness set_contrast set_contrast_auto set_gain
    set_power_line_frequency set_hue set_hue_auto set_saturation set_sharpness set_gamma
    set_white_balance_temperature set_white_balance_temperature_auto set_white_balance_component
    set_white_balance_component_auto set_digital_multiplier set_digital_multiplier_limit
    set_analog_video_standard set_analog_video_lock_status set_input_select
set_of_lem usb scanning_mode w info = with_one_lem _ u8
set_of_lem usb ae_mode w info = with_one_lem _ u8
set_of_lem usb ae_priority w info = with_one_lem _ u8
set_of_lem usb exposure_abs w info = with_one_lem _ u32
set_of_lem usb exposure_rel w info = with_one_lem _ i8
set_of_lem usb focus_abs w info = with_one_lem _ u16
set_of_lem usb focus_rel w info = with_two_lem _ i8 u8
set_of_lem usb focus_simple_range w info = with_one_lem _ u8
set_of_lem usb focus_auto w info = with_one_lem _ u8
set_of_lem usb iris_abs w info = with_one_lem _ u16
set_of_lem usb iris_rel w info = with_one_lem _ u8
set_of_lem usb zoom_abs w info = with_one_lem _ u16
set_of_lem usb zoom_rel w info = with_three_lem _ i8 u8 u8
set_of_lem usb pantilt_abs w info = with_two_lem _ i32 i32
set_of_lem usb pantilt_rel w info = with_four_lem _ i8 u8 i8 u8
set_of_lem usb roll_abs w info = with_one_lem _ i16
set_of_lem usb roll_rel w info = with_two_lem _ i8 u8
set_of_lem usb privacy w info = with_one_lem _ u8
set_of_lem usb digital_window w info = with_six_lem _ u16 u16 u16 u16 u16 u16
set_of_lem usb digital_roi w info = with_five_lem _ u16 u16 u16 u16 u16
set_of_lem usb backlight_compensation w info = with_one_lem _ u16
set_of_lem usb brightness w info = with_one_lem _ i16
set_of_lem usb contrast w info = with_one_lem _ u16
set_of_lem usb contrast_auto w info = with_one_lem _ u8
set_of_lem usb gain w info = with_one_lem _ u16
set_of_lem usb power_line_frequency w info = with_one_lem _ u8
set_of_lem usb hue w info = with_one_lem _ i16
set_of_lem usb hue_auto w info = with_one_lem _ u8
set_of_lem usb saturation w info = with_one_lem _ u16
set_of_lem usb sharpness w info = with_one_lem _ u16
set_of_lem usb gamma w info = with_one_lem _ u16
set_of_lem usb white_balance_temperature w info = with_one_lem _ u16
set_of_lem usb white_balance_temperature_auto w info = with_one_lem _ u8
set_of_lem usb white_balance_component w info = with_two_lem _ u16 u16
set_of_lem usb white_balance_component_auto w info = with_one_lem _ u8
set_of_lem usb digital_multiplier w info = with_one_lem _ u16
set_of_lem usb digital_multiplier_limit w info = with_one_lem _ u16
set_of_lem usb analog_video_standard w info = with_one_lem _ u8
set_of_lem usb analog_video_lock_status w info = with_one_lem _ u8
set_of_lem usb input_select w info = with_one_lem _ u8
