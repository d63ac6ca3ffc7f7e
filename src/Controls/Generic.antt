-- ===== src/Controls/Generic.antt =====
-- libuvc/src/ctrl.c: the queries for any unit and selector, and the power mode of the interface.
use tcluvc.Prelude.{ℕ, Option, none, some, List, [], ◌∷◌, if◌then◌else◌}
use tcluvc.Prelude.Int.{ℤ, pos, negsuc}
use tcluvc.Bytes.{byte_at, sw_to_short}
use tcluvc.Usb
use tcluvc.Usb.{Usb, Setup, req_type_set, req_type_get, is_count}
use tcluvc.Descriptors.{DeviceInfo}
use tcluvc.Controls.Transfer.{get_setup, set_setup}

-- UVC_VC_VIDEO_POWER_MODE_CONTROL is 1, on the interface itself.
abbrev pub power_setup : DeviceInfo → ℕ → ℕ → Setup
power_setup info request_type req = record {
  request_type = request_type;
  request = req;
  value = 256;
  index = info.ctrl_if.interface_number;
}

module _ (usb : Usb) where
  open usb use {World, control_transfer}

  -- `stack` is what the two bytes of the C buffer hold before the transfer; a transfer that moves
  -- fewer leaves some of it there.
  unfoldable pub get_ctrl_len : World → DeviceInfo → List ℕ → ℕ → ℕ → ℤ × World
  unfolding sw_to_short
  get_ctrl_len w info stack unit ctrl =
      let (ret, buf, w') =
        control_transfer w (get_setup info unit ctrl Usb.Request.get_len) stack 2 in
      (elim ret [ pos n ↦ pos (sw_to_short buf 0) | negsuc n ↦ negsuc n ], w')

  unfoldable pub get_ctrl : World → DeviceInfo → ℕ → ℕ → List ℕ → ℕ → ℕ → ℤ × List ℕ × World
  get_ctrl w info unit ctrl bytes len req =
      control_transfer w (get_setup info unit ctrl req) bytes len

  unfoldable pub set_ctrl : World → DeviceInfo → ℕ → ℕ → List ℕ → ℕ → ℤ × List ℕ × World
  set_ctrl w info unit ctrl bytes len = control_transfer w (set_setup info unit ctrl) bytes len

  unfoldable pub get_power_mode : World → DeviceInfo → ℕ → ℤ × Option ℕ × World
  unfolding byte_at
  get_power_mode w info req =
      let (ret, buf, w') = control_transfer w (power_setup info req_type_get req) (0 ∷ []) 1 in
      (
        (if is_count ret 1 then pos 0 else ret),
        (if is_count ret 1 then some (byte_at buf 0) else none),
        w',
      )

  unfoldable pub set_power_mode : World → DeviceInfo → ℕ → ℤ × World
  set_power_mode w info mode =
      let (ret, _, w') =
        control_transfer w (power_setup info req_type_set Usb.Request.set_cur) (mode ∷ []) 1 in
      (if is_count ret 1 then pos 0 else ret, w')
