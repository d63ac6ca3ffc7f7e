-- ===== src/Controls/Selector.antt =====
-- The controls of the selector unit in libuvc/src/ctrl-gen.c, two functions each. A getter yields the
-- values of its out parameters in their order.
use tcluvc.Prelude.{ℕ, [], ◌∷◌}
use tcluvc.Prelude.Int.{ℤ}
use tcluvc.Usb.{Usb}
use tcluvc.Descriptors.{DeviceInfo}
use tcluvc.Controls.Fields.{u8}
use tcluvc.Controls.Transfer.{selector_unit, Got, Did, get_control, set_control}

module _ (usb : Usb) where
  unfoldable pub get_input_select : usb.World → DeviceInfo → ℕ → Got usb
  get_input_select = get_control usb selector_unit 0x1 (u8 ∷ [])

  unfoldable pub set_input_select : usb.World → DeviceInfo → ℤ → Did usb
  set_input_select w info selector =
      set_control usb selector_unit 0x1 (u8 ∷ []) w info (selector ∷ [])
