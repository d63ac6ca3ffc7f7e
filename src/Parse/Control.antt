-- ===== src/Parse/Control.antt =====
-- The blocks of the VideoControl interface: `uvc_parse_vc`, the functions that it calls, and
-- `uvc_scan_control` (libuvc/src/device.c). The parameter is the device's configuration.
use tcluvc.Prelude.{
  ℕ, suc, ◌+◌, Bool, ◌&&◌, ◌||◌, not, Option, none, some, List, [], ◌∷◌, ◌++◌, length, take, drop,
  leb, ◌==◌, if◌then◌else◌, Run, done, fault, after,
}
use tcluvc.Prelude.Int.{ℤ, pos}
use tcluvc.Usb
use tcluvc.Usb.{is_zero}
use tcluvc.Usb.Config.{AltSetting, Endpoint}
use tcluvc.Bytes.{byte_at, sw_to_short, dw_to_int}
use tcluvc.Descriptors.{ControlInterface, DeviceInfo}
use tcluvc.Parse.Scan.{scan, reading, control_bits}
use tcluvc.Parse.Streaming.{scan_streaming}

abbrev pub done_with : DeviceInfo → ControlInterface → ℤ × DeviceInfo
done_with info c = (pos 0, record info { ctrl_if = c })

unfoldable pub parse_vc_input_terminal : DeviceInfo → List ℕ → Run (ℤ × DeviceInfo)
unfolding sw_to_short
parse_vc_input_terminal info p =
    if not (leb 6 (length p))
    then fault
    else if not (sw_to_short p 4 == 0x0201)
    then done (pos 0, info)
    else if not (leb 15 (length p))
    then fault
    else reading p (15 + byte_at p 14) (
        done_with info (record info.ctrl_if {
          input_terms =
              info.ctrl_if.input_terms
              ++ (record {
                terminal_id = byte_at p 3;
                terminal_type = sw_to_short p 4;
                objective_focal_length_min = sw_to_short p 8;
                objective_focal_length_max = sw_to_short p 10;
                ocular_focal_length = sw_to_short p 12;
                controls = control_bits (take (byte_at p 14) (drop 15 p));
              }
                  ∷ []);
        }))

unfoldable pub parse_vc_processing_unit : DeviceInfo → List ℕ → Run (ℤ × DeviceInfo)
parse_vc_processing_unit info p =
    if not (leb 8 (length p))
    then fault
    else reading p (8 + byte_at p 7) (
        done_with info (record info.ctrl_if {
          processing_units =
              info.ctrl_if.processing_units
              ++ (record {
                unit_id = byte_at p 3;
                source_id = byte_at p 4;
                controls = control_bits (take (byte_at p 7) (drop 8 p));
              }
                  ∷ []);
        }))

unfoldable pub parse_vc_selector_unit : DeviceInfo → List ℕ → Run (ℤ × DeviceInfo)
parse_vc_selector_unit info p = reading p 4 (
    done_with info (record info.ctrl_if {
      selector_units = info.ctrl_if.selector_units ++ (record { unit_id = byte_at p 3 } ∷ []);
    }))

unfoldable pub parse_vc_extension_unit : DeviceInfo → List ℕ → Run (ℤ × DeviceInfo)
parse_vc_extension_unit info p =
    if not (leb 22 (length p)) || not (leb (23 + byte_at p 21) (length p))
    then fault
    else (let size_of_controls = byte_at p (22 + byte_at p 21) in
        reading p (23 + byte_at p 21 + size_of_controls) (
          done_with info (record info.ctrl_if {
            extension_units =
                info.ctrl_if.extension_units
                ++ (record {
                  unit_id = byte_at p 3;
                  guid = take 16 (drop 4 p);
                  controls = control_bits (take size_of_controls (drop (23 + byte_at p 21) p));
                }
                    ∷ []);
          })))

module _ (config : List (List AltSetting)) where
  -- The loop over the interfaces that a header names, and whether all of them stand inside; a scan
  -- that fails keeps its interface.
  unfoldable pub scan_interfaces : DeviceInfo → List ℕ → Bool → Run (ℤ × DeviceInfo)
  scan_interfaces info [] inside = if inside then done (pos 0, info) else fault
  scan_interfaces info (i ∷ is) inside = after (scan_streaming config i) (λ (scan_ret, stream_if).
      let info' = record info { stream_ifs = info.stream_ifs ++ (stream_if ∷ []) } in
      if not (is_zero scan_ret) then done (scan_ret, info') else scan_interfaces info' is inside)

  unfoldable pub parse_vc_header : DeviceInfo → List ℕ → ℕ → Run (ℤ × DeviceInfo)
  unfolding sw_to_short dw_to_int
  parse_vc_header info p block_size =
      let version = sw_to_short p 3 in
      let info₁ = record info { ctrl_if = record info.ctrl_if { bcd_uvc = version } } in
      let interfaces = drop 12 (take block_size p) in
      let inside = leb block_size (length p) || leb block_size 12 in
      if not (leb 5 (length p))
      then fault
      else if version == 0x0100 || version == 0x010a
      then (if leb 11 (length p)
          then scan_interfaces
              (record info₁ { ctrl_if = record info₁.ctrl_if { clock_frequency = dw_to_int p 7 } })
              interfaces inside
          else fault)
      else if version == 0x0110
      then scan_interfaces info₁ interfaces inside
      else done (Usb.Error.not_supported, info₁)

  unfoldable pub parse_vc : DeviceInfo → List ℕ → Run (ℤ × DeviceInfo)
  unfolding parse_vc_header parse_vc_input_terminal parse_vc_selector_unit parse_vc_processing_unit
      parse_vc_extension_unit
  parse_vc info p =
      let subtype = byte_at p 2 in
      if not (byte_at p 1 == 36)
      then done (pos 0, info)
      else if subtype == 0x01
      then parse_vc_header info p (byte_at p 0)
      else if subtype == 0x02
      then parse_vc_input_terminal info p
      else if subtype == 0x03
      then done (pos 0, info)
      else if subtype == 0x04
      then parse_vc_selector_unit info p
      else if subtype == 0x05
      then parse_vc_processing_unit info p
      else if subtype == 0x06
      then parse_vc_extension_unit info p
      else done (Usb.Error.invalid_device, info)

abbrev pub is_video_control : Bool → AltSetting → Bool
is_video_control tis alt =
    ((tis && alt.interface_class == 255) || alt.interface_class == 14)
    && alt.interface_subclass == 1

-- The first VideoControl interface and its place, counted from `idx`; `fault` is an interface
-- without a setting.
unfoldable pub find_control : Bool → ℕ → List (List AltSetting) → Run (Option (ℕ × AltSetting))
find_control tis idx [] = done none
find_control tis idx ([] ∷ is) = fault
find_control tis idx ((alt ∷ alts) ∷ is) =
    let rest = find_control tis (idx + 1) is in
    if is_video_control tis alt then done (some (idx, alt)) else rest

abbrev pub first_address : ℕ → List Endpoint → ℕ
first_address old [] = old
first_address old (e ∷ es) = e.endpoint_address

-- A device of The Imaging Source has its own class.
abbrev pub have_tis_camera : ℕ → ℕ → Bool
have_tis_camera vendor product = vendor == 0x199e && (product == 0x8101 || product == 0x8102)

unfoldable pub scan_control : List (List AltSetting) → ℕ → ℕ → DeviceInfo → Run (ℤ × DeviceInfo)
unfolding find_control
scan_control config vendor product info =
    after (find_control (have_tis_camera vendor product) 0 config) (λ found. elim found [
      | none ↦ done (Usb.Error.invalid_device, info)
      | some (interface_idx, alt) ↦
          scan (parse_vc config) (suc (length alt.extra))
            (record info {
              ctrl_if = record info.ctrl_if {
                interface_number = interface_idx;
                endpoint_address = first_address info.ctrl_if.endpoint_address alt.endpoints;
              };
            })
            alt.extra
    ])
