-- ===== src/Controls/Address.antt =====
-- No two controls of the table share an address.
use tcluvc.Prelude.{
  ℕ, ◌+◌, ◌*◌, Option, none, some, List, [], ◌∷◌, ◌≡◌, refl, ap, ◌∙◌, sym, ◌==◌, if◌then◌else◌,
}
use mathlib.Core.Option.{some-injective}
use tcluvc.Controls.Transfer.{camera_terminal, processing_unit, selector_unit}
use tcluvc.Controls.Table.{
  Control, entity, selector, scanning_mode, ae_mode, ae_priority, exposure_abs, exposure_rel,
  focus_abs, focus_rel, focus_simple_range, focus_auto, iris_abs, iris_rel, zoom_abs, zoom_rel,
  pantilt_abs, pantilt_rel, roll_abs, roll_rel, privacy, digital_window, digital_roi,
  backlight_compensation, brightness, contrast, contrast_auto, gain, power_line_frequency, hue,
  hue_auto, saturation, sharpness, gamma, white_balance_temperature, white_balance_temperature_auto,
  white_balance_component, white_balance_component_auto, digital_multiplier,
  digital_multiplier_limit, analog_video_standard, analog_video_lock_status, input_select,
}

-- The kind of terminal or unit and the selector as one number.
address : Control → ℕ
unfolding entity selector
address c =
    elim (entity c) [ camera_terminal ↦ 0 | processing_unit ↦ 1 | selector_unit ↦ 2 ] * 256
    + selector c

find_address : ℕ → List Control → Option Control
find_address n [] = none
find_address n (c ∷ cs) = let rest = find_address n cs in if address c == n then some c else rest

abbrev all_controls : List Control
all_controls =
    scanning_mode ∷ ae_mode ∷ ae_priority ∷ exposure_abs ∷ exposure_rel ∷ focus_abs ∷ focus_rel
    ∷ focus_simple_range ∷ focus_auto ∷ iris_abs ∷ iris_rel ∷ zoom_abs ∷ zoom_rel ∷ pantilt_abs
    ∷ pantilt_rel ∷ roll_abs ∷ roll_rel ∷ privacy ∷ digital_window ∷ digital_roi
    ∷ backlight_compensation ∷ brightness ∷ contrast ∷ contrast_auto ∷ gain ∷ power_line_frequency
    ∷ hue ∷ hue_auto ∷ saturation ∷ sharpness ∷ gamma ∷ white_balance_temperature
    ∷ white_balance_temperature_auto ∷ white_balance_component ∷ white_balance_component_auto
    ∷ digital_multiplier ∷ digital_multiplier_limit ∷ analog_video_standard
    ∷ analog_video_lock_status ∷ input_select ∷ []

find_address_of : (c : Control) → find_address (address c) all_controls ≡ some c
unfolding find_address address
find_address_of scanning_mode = refl
find_address_of _ = refl

-- Two controls of the same kind of terminal or unit with the same selector are one control, so no
-- function of the file reaches the control of another.
pub address_injective : (c d : Control) → entity c ≡ entity d → selector c ≡ selector d → c ≡ d
unfolding address
address_injective c d e s =
    some-injective _ _
      (sym (find_address_of c) ∙ ap (λ n. find_address n all_controls) same ∙ find_address_of d)
  where
    same : address c ≡ address d
    same = cc
