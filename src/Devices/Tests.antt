-- ===== src/Devices/Tests.antt =====
-- Two cameras of one product, told apart by their serial numbers, and a keyboard.
use tcluvc.Prelude.{
  false, refl, ◌+◌, done, arith, ℕ, ◌≡◌, ◌⊎◌, true, none, some, List, [], ◌∷◌, ◌++◌, length, map,
}
use tcluvc.Prelude.Int.{pos}
use tcluvc.Usb
use tcluvc.Usb.Config.{AltSetting}
use tcluvc.Devices.{UsbDevice, matches, find_device}
use tcluvc.Usb.{Usb}
use tcluvc.Parse.Scan.{scan}
use tcluvc.Parse.Control.{scan_control, find_control, parse_vc}
use tcluvc.Claims.{set_bit, claim_if}
use tcluvc.Devices.Handles.{
  Handle, Context, no_info, no_claims, get_device_info, open_with, open_device, add_ref, add_handle,
}
use tcluvc.Devices.Handles.Laws.{IsKept, count, start, opens, Reachable-IsKept}
use tcluvc.Devices.Laws.{NonePass, cameras, held, discarded, find_device_holds}

abbrev setting : ℕ → ℕ → AltSetting
setting class subclass = record {
  interface_number = 1;
  alternate_setting = 0;
  interface_class = class;
  interface_subclass = subclass;
  endpoints = [];
  extra = [];
}

abbrev camera : ℕ → UsbDevice
camera digit = record {
  vendor = 0x046d;
  product = 0x0825;
  serial = some (digit ∷ []);
  config = some ((setting 14 2 ∷ []) ∷ []);
  has_descriptor = true;
}

abbrev keyboard : UsbDevice
keyboard = record (camera 48) { product = 0xc31c; config = some ((setting 3 1 ∷ []) ∷ []) }

abbrev devices : List UsbDevice
devices = camera 49 ∷ keyboard ∷ camera 50 ∷ []

find_device_holds_example :
    (NonePass (matches 0x046d 0 (some (50 ∷ []))) (cameras devices)
      × (find_device 0x046d 0 (some (50 ∷ [])) devices
          ≡ (Usb.Error.no_device, none, map discarded (cameras devices))))
    ⊎ ((before : List UsbDevice) × (u : UsbDevice) × (after : List UsbDevice) × (cameras devices
          ≡ before ++ (u ∷ after))
        × NonePass (matches 0x046d 0 (some (50 ∷ []))) before
        × (matches 0x046d 0 (some (50 ∷ [])) u ≡ true)
        × (find_device 0x046d 0 (some (50 ∷ [])) devices ≡ (
          pos 0,
          some (length before),
          map discarded before ++ (held u ∷ map discarded after),
        )))
find_device_holds_example = find_device_holds 0x046d 0 (some (50 ∷ [])) devices

-- A libusb that grants everything, and a device of one VideoControl interface.
abbrev granting : Usb
granting = record {
  World = ℕ;
  control_transfer = λ w s buf n. (pos n, buf, w);
  detach_kernel_driver = λ w i. (pos 0, w);
  attach_kernel_driver = λ w i. (pos 0, w);
  claim_interface = λ w i. (pos 0, w + 1);
  release_interface = λ w i. (pos 0, w);
  set_interface_alt_setting = λ w i a. (pos 0, w);
}

abbrev own_context : Context
own_context = record {
  own_usb_ctx = true;
  open_devices = [];
  handler_thread = false;
  refs = λ i. 1;
}

abbrev handle : Handle
handle = record { dev = 7; info = no_info; claimed = set_bit no_claims 0; has_status_xfer = false }

abbrev one_open : Context
one_open = record own_context {
  open_devices = handle ∷ [];
  handler_thread = true;
  refs = add_ref (λ i. 1) 7;
}

open_one :
    open_device granting 0 own_context 7
      (some ((setting 14 1 ∷ []) ∷ []))
      0x046d
      0x0825
      (pos 0)
      (pos 0)
    ≡ done (pos 0, one_open, 1)
unfolding open_device open_with get_device_info scan_control find_control scan parse_vc claim_if
    add_handle
open_one = refl

Reachable-IsKept_example : IsKept (λ i. 1) one_open
unfolding count
Reachable-IsKept_example =
    Reachable-IsKept granting (λ i. 1) own_context one_open 1
      (record { thread = refl; refs = λ dev. omega arith })
      (opens 7 (some ((setting 14 1 ∷ []) ∷ [])) 0x046d 0x0825 (pos 0) (pos 0) start open_one)
