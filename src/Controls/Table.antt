-- ===== src/Controls/Table.antt =====
-- All controls of libuvc/src/ctrl-gen.c in one table: the terminal or unit, the selector (the
-- `enum uvc_ct_ctrl_selector` and its kin in libuvc/include/libuvc/libuvc.h), and the fields of the
-- data.
use tcluvc.Prelude.{ℕ, List, [], ◌∷◌}
use tcluvc.Controls.Fields.{Kind, u8, i8, u16, i16, u32, i32}
use tcluvc.Controls.Transfer.{Entity, camera_terminal, processing_unit, selector_unit}

pub data Control : Type 0 where
  scanning_mode ae_mode ae_priority exposure_abs exposure_rel focus_abs focus_rel focus_simple_range
        focus_auto iris_abs iris_rel zoom_abs zoom_rel pantilt_abs pantilt_rel roll_abs roll_rel
        privacy digital_window digital_roi backlight_compensation brightness contrast contrast_auto
        gain power_line_frequency hue hue_auto saturation sharpness gamma white_balance_temperature
        white_balance_temperature_auto white_balance_component white_balance_component_auto
        digital_multiplier digital_multiplier_limit analog_video_standard analog_video_lock_status
        input_select :
      Control

unfoldable pub entity : Control → Entity
entity scanning_mode = camera_terminal
entity ae_mode = camera_terminal
entity ae_priority = camera_terminal
entity exposure_abs = camera_terminal
entity exposure_rel = camera_terminal
entity focus_abs = camera_terminal
entity focus_rel = camera_terminal
entity focus_simple_range = camera_terminal
entity focus_auto = camera_terminal
entity iris_abs = camera_terminal
entity iris_rel = camera_terminal
entity zoom_abs = camera_terminal
entity zoom_rel = camera_terminal
entity pantilt_abs = camera_terminal
entity pantilt_rel = camera_terminal
entity roll_abs = camera_terminal
entity roll_rel = camera_terminal
entity privacy = camera_terminal
entity digital_window = camera_terminal
entity digital_roi = camera_terminal
entity backlight_compensation = processing_unit
entity brightness = processing_unit
entity contrast = processing_unit
entity contrast_auto = processing_unit
entity gain = processing_unit
entity power_line_frequency = processing_unit
entity hue = processing_unit
entity hue_auto = processing_unit
entity saturation = processing_unit
entity sharpness = processing_unit
entity gamma = processing_unit
entity white_balance_temperature = processing_unit
entity white_balance_temperature_auto = processing_unit
entity white_balance_component = processing_unit
entity white_balance_component_auto = processing_unit
entity digital_multiplier = processing_unit
entity digital_multiplier_limit = processing_unit
entity analog_video_standard = processing_unit
entity analog_video_lock_status = processing_unit
entity input_select = selector_unit

unfoldable pub selector : Control → ℕ
selector scanning_mode = 0x1
selector ae_mode = 0x2
selector ae_priority = 0x3
selector exposure_abs = 0x4
selector exposure_rel = 0x5
selector focus_abs = 0x6
selector focus_rel = 0x7
selector focus_simple_range = 0x12
selector focus_auto = 0x8
selector iris_abs = 0x9
selector iris_rel = 0xa
selector zoom_abs = 0xb
selector zoom_rel = 0xc
selector pantilt_abs = 0xd
selector pantilt_rel = 0xe
selector roll_abs = 0xf
selector roll_rel = 0x10
selector privacy = 0x11
selector digital_window = 0x13
selector digital_roi = 0x14
selector backlight_compensation = 0x1
selector brightness = 0x2
selector contrast = 0x3
selector contrast_auto = 0x13
selector gain = 0x4
selector power_line_frequency = 0x5
selector hue = 0x6
selector hue_auto = 0x10
selector saturation = 0x7
selector sharpness = 0x8
selector gamma = 0x9
selector white_balance_temperature = 0xa
selector white_balance_temperature_auto = 0xb
selector white_balance_component = 0xc
selector white_balance_component_auto = 0xd
selector digital_multiplier = 0xe
selector digital_multiplier_limit = 0xf
selector analog_video_standard = 0x11
selector analog_video_lock_status = 0x12
selector input_select = 0x1

unfoldable pub fields : Control → List Kind
fields scanning_mode = u8 ∷ []
fields ae_mode = u8 ∷ []
fields ae_priority = u8 ∷ []
fields exposure_abs = u32 ∷ []
fields exposure_rel = i8 ∷ []
fields focus_abs = u16 ∷ []
fields focus_rel = i8 ∷ u8 ∷ []
fields focus_simple_range = u8 ∷ []
fields focus_auto = u8 ∷ []
fields iris_abs = u16 ∷ []
fields iris_rel = u8 ∷ []
fields zoom_abs = u16 ∷ []
fields zoom_rel = i8 ∷ u8 ∷ u8 ∷ []
fields pantilt_abs = i32 ∷ i32 ∷ []
fields pantilt_rel = i8 ∷ u8 ∷ i8 ∷ u8 ∷ []
fields roll_abs = i16 ∷ []
fields roll_rel = i8 ∷ u8 ∷ []
fields privacy = u8 ∷ []
fields digital_window = u16 ∷ u16 ∷ u16 ∷ u16 ∷ u16 ∷ u16 ∷ []
fields digital_roi = u16 ∷ u16 ∷ u16 ∷ u16 ∷ u16 ∷ []
fields backlight_compensation = u16 ∷ []
fields brightness = i16 ∷ []
fields contrast = u16 ∷ []
fields contrast_auto = u8 ∷ []
fields gain = u16 ∷ []
fields power_line_frequency = u8 ∷ []
fields hue = i16 ∷ []
fields hue_auto = u8 ∷ []
fields saturation = u16 ∷ []
fields sharpness = u16 ∷ []
fields gamma = u16 ∷ []
fields white_balance_temperature = u16 ∷ []
fields white_balance_temperature_auto = u8 ∷ []
fields white_balance_component = u16 ∷ u16 ∷ []
fields white_balance_component_auto = u8 ∷ []
fields digital_multiplier = u16 ∷ []
fields digital_multiplier_limit = u16 ∷ []
fields analog_video_standard = u8 ∷ []
fields analog_video_lock_status = u8 ∷ []
fields input_select = u8 ∷ []
