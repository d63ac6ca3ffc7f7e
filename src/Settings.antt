-- ===== src/Settings.antt =====
-- The device controls of the Tcl extension (tcluvc.c): the table `UvcCtrlInfo`, and the part of
-- `InitControls`, `GetControls`, `PrintVal` and `SetControls` that is about one control. A control
-- stands for its name, and a value for the numbers that strtol finds between its commas or that
-- are printed between them.
pub mod Laws
mod Tests
use tcluvc.Prelude.{
  ℕ, zero, suc, ◌+◌, ◌-◌, ◌*◌, ◌/◌, ◌%◌, Bool, true, false, Option, none, some, ◌>>=◌, List, [],
  ◌∷◌, ◌++◌, drop, replicate, ltb, ◌==◌, if◌then◌else◌,
}
use tcluvc.Prelude.Int.{ℤ, pos, negsuc}
use tcluvc.Usb
use tcluvc.Usb.{Usb, is_count}
use tcluvc.Bytes.{byte_at, sw_to_short, dw_to_int}
use tcluvc.Descriptors.{DeviceInfo}
use tcluvc.Controls.Transfer.{
  Entity, camera_terminal, processing_unit, selector_unit, entity_id, get_setup, set_setup,
}
use tcluvc.Controls.Table.{
  Control, scanning_mode, ae_mode, ae_priority, exposure_abs, exposure_rel, focus_abs, focus_rel,
  focus_simple_range, focus_auto, iris_abs, iris_rel, zoom_abs, zoom_rel, pantilt_abs, pantilt_rel,
  roll_abs, roll_rel, privacy, digital_window, digital_roi, backlight_compensation, brightness,
  contrast, contrast_auto, gain, power_line_frequency, hue, hue_auto, saturation, sharpness, gamma,
  white_balance_temperature, white_balance_temperature_auto, white_balance_component,
  white_balance_component_auto, digital_multiplier, digital_multiplier_limit, analog_video_standard,
  analog_video_lock_status, input_select,
}
use tcluvc.Avi.Headers.{unsigned}

-- `item_size` is the source's `type`.
pub record CtrlInfo : Type 0 where
  pub unit : Entity
  pub code : ℕ
  pub item_size : ℕ
  pub count : ℕ

abbrev pub row : Entity → ℕ → ℕ → ℕ → CtrlInfo
row unit code item_size count = record {
  unit = unit;
  code = code;
  item_size = item_size;
  count = count;
}

unfoldable pub ctrl_info : Control → CtrlInfo
ctrl_info scanning_mode = row camera_terminal 0x1 1 1
ctrl_info ae_mode = row camera_terminal 0x2 1 1
ctrl_info ae_priority = row camera_terminal 0x3 1 1
ctrl_info exposure_abs = row camera_terminal 0x4 4 1
ctrl_info exposure_rel = row camera_terminal 0x5 1 1
ctrl_info focus_abs = row camera_terminal 0x6 2 1
ctrl_info focus_rel = row camera_terminal 0x7 2 2
ctrl_info focus_simple_range = row camera_terminal 0x12 1 1
ctrl_info focus_auto = row camera_terminal 0x8 1 1
ctrl_info iris_abs = row camera_terminal 0x9 2 1
ctrl_info iris_rel = row camera_terminal 0xa 1 1
ctrl_info zoom_abs = row camera_terminal 0xb 2 1
ctrl_info zoom_rel = row camera_terminal 0xc 1 3
ctrl_info pantilt_abs = row camera_terminal 0xd 4 2
ctrl_info pantilt_rel = row camera_terminal 0xe 1 4
ctrl_info roll_abs = row camera_terminal 0xf 2 1
ctrl_info roll_rel = row camera_terminal 0x10 1 2
ctrl_info privacy = row camera_terminal 0x11 1 1
ctrl_info digital_window = row camera_terminal 0x13 2 6
ctrl_info digital_roi = row camera_terminal 0x14 2 5
ctrl_info backlight_compensation = row processing_unit 0x1 2 1
ctrl_info brightness = row processing_unit 0x2 2 1
ctrl_info contrast = row processing_unit 0x3 2 1
ctrl_info contrast_auto = row processing_unit 0x13 1 1
ctrl_info gain = row processing_unit 0x4 2 1
ctrl_info power_line_frequency = row processing_unit 0x5 1 1
ctrl_info hue = row processing_unit 0x6 2 1
ctrl_info hue_auto = row processing_unit 0x10 1 1
ctrl_info saturation = row processing_unit 0x7 2 1
ctrl_info sharpness = row processing_unit 0x8 2 1
ctrl_info gamma = row processing_unit 0x9 2 1
ctrl_info white_balance_temperature = row processing_unit 0xa 2 1
ctrl_info white_balance_temperature_auto = row processing_unit 0xb 1 1
ctrl_info white_balance_component = row processing_unit 0xc 2 2
ctrl_info white_balance_component_auto = row processing_unit 0xd 1 1
ctrl_info digital_multiplier = row processing_unit 0xe 2 1
ctrl_info digital_multiplier_limit = row processing_unit 0xf 2 1
ctrl_info analog_video_standard = row processing_unit 0x11 1 1
ctrl_info analog_video_lock_status = row processing_unit 0x12 1 1
ctrl_info input_select = row selector_unit 0x1 1 1

-- A property that the device does not have is `none`.
pub record Uctrl : Type 0 where
  pub info : CtrlInfo
  pub cur : List ℕ
  pub least : Option (List ℕ)
  pub most : Option (List ℕ)
  pub res : Option (List ℕ)
  pub def : Option (List ℕ)

abbrev pub data_size : CtrlInfo → ℕ
data_size i = i.item_size * i.count

-- The bytes of one number, low byte first; other sizes store nothing.
unfoldable pub put_item : ℕ → ℤ → List ℕ
put_item size v =
    let u = unsigned v in
    if size == 1
    then u % 256 ∷ []
    else if size == 2
    then u % 256 ∷ u / 256 % 256 ∷ []
    else if size == 4
    then u % 256 ∷ u / 256 % 256 ∷ u / 65536 % 256 ∷ u / 16777216 % 256 ∷ []
    else []

-- What the value does not give stays as it is.
unfoldable pub set_items : ℕ → ℕ → List ℤ → List ℕ → List ℕ
unfolding put_item
set_items size zero vs cur = cur
set_items size (suc k) [] cur = cur
set_items size (suc k) (v ∷ vs) cur = put_item size v ++ set_items size k vs (drop size cur)

-- `%d` of the `int` that the bytes make.
unfoldable pub print_item : ℕ → List ℕ → ℤ
unfolding byte_at sw_to_short dw_to_int
print_item size p =
    if size == 1
    then pos (byte_at p 0)
    else if size == 2
    then pos (sw_to_short p 0)
    else if size == 4
    then (if ltb (dw_to_int p 0) 2147483648
        then pos (dw_to_int p 0)
        else negsuc (4294967295 - dw_to_int p 0))
    else pos 0

unfoldable pub print_val : ℕ → ℕ → List ℕ → List ℤ
unfolding print_item
print_val size zero p = []
print_val size (suc k) p = print_item size p ∷ print_val size k (drop size p)

module _ (usb : Usb) where
  open usb use {World, control_transfer}

  -- A request for a property of a control, which counts if all bytes come.
  unfoldable pub get_property : World → DeviceInfo → ℕ → CtrlInfo → ℕ → Option (List ℕ) × World
  get_property w d id i req =
      let (ret, bytes, w') =
        control_transfer w (get_setup d id i.code req) (replicate (data_size i) 0) (data_size i) in
      ((if is_count ret (data_size i) then some bytes else none), w')

  -- One round of the loop of `InitControls`: UVC_GET_CUR, then MIN, MAX, RES and DEF.
  unfoldable pub init_control : World → DeviceInfo → CtrlInfo → Option Uctrl × World
  unfolding get_property
  init_control w d i = elim (entity_id d i.unit) [
    | none ↦ (none, w)
    | some id ↦
        let (cur, w₀) = get_property w d id i Usb.Request.get_cur in
        let (least, w₁) = get_property w₀ d id i 0x82 in
        let (most, w₂) = get_property w₁ d id i Usb.Request.get_max in
        let (res, w₃) = get_property w₂ d id i 0x84 in
        let (def, w₄) = get_property w₃ d id i 0x87 in
        elim cur [
          | none ↦ (none, w₀)
          | some bytes ↦ (
            some (record {
              info = i;
              cur = bytes;
              least = least;
              most = most;
              res = res;
              def = def;
            }),
            w₄,
          )
        ]
  ]

  -- `GetControls` for the value of one control: the result of the transfer is not looked at. `none`
  -- where the code reads through a NULL pointer.
  unfoldable pub get_control_value : World → DeviceInfo → Uctrl → Option (List ℤ × Uctrl × World)
  unfolding print_val
  get_control_value w d c = entity_id d c.info.unit >>= λ id.
      let (_, cur, w') =
        control_transfer w (get_setup d id c.info.code Usb.Request.get_cur) c.cur
          (data_size c.info) in
      some (print_val c.info.item_size c.info.count cur, record c { cur = cur }, w')

  -- `SetControls` for one control and its value; `true` is TCL_OK.
  unfoldable pub set_control_value :
      World → DeviceInfo → Uctrl → List ℤ → Option (Bool × Uctrl × World)
  unfolding set_items
  set_control_value w d c vs =
      let cur = set_items c.info.item_size c.info.count vs c.cur in
      entity_id d c.info.unit >>= λ id.
      let (ret, cur', w') =
        control_transfer w (set_setup d id c.info.code) cur (data_size c.info) in
      some (is_count ret (data_size c.info), record c { cur = cur' }, w')
