-- ===== src/Devices.antt =====
-- Finding a camera (libuvc/src/device.c): `uvc_get_device_list`, `uvc_free_device_list`,
-- `uvc_ref_device`, `uvc_unref_device` and `uvc_find_device`. What libusb tells of a USB device is
-- an argument, and its count of references is that of this program.
pub mod Laws
pub mod Handles
mod Tests
use tcluvc.Prelude.{
  ℕ, zero, suc, ◌+◌, ◌-◌, Bool, true, false, not, ◌&&◌, ◌||◌, Option, none, some, List, [], ◌∷◌,
  map, ltb, leb, ◌==◌, if◌then◌else◌,
}
use tcluvc.Prelude.Int.{ℤ, pos}
use tcluvc.Usb
use tcluvc.Usb.Config.{AltSetting}
use tcluvc.StreamCtrl.Formats.{any_of}
use tcluvc.Stream.Payload.{same_bytes}

-- The fields of a device's descriptor that are read, and its interfaces with their settings; `none`
-- is a call of libusb that fails.
pub record UsbDevice : Type 0 where
  pub vendor : ℕ
  pub product : ℕ
  pub serial : Option (List ℕ)
  pub config : Option (List (List AltSetting))
  pub has_descriptor : Bool

-- `uvc_device_t`, whether its memory is there, and libusb's references to its device.
pub record Device : Type 0 where
  pub usb : UsbDevice
  pub ref : ℕ
  pub usb_ref : ℕ
  pub alive : Bool

-- The test that ends both loops over the settings.
unfoldable pub is_streaming : UsbDevice → AltSetting → Bool
is_streaming u alt =
    not (u.vendor == 0x199e && (leb 0x8201 u.product && leb u.product 0x8208))
    && ((u.vendor == 0x199e
          && ((u.product == 0x8101 || u.product == 0x8102)
              && (alt.interface_class == 255 && alt.interface_subclass == 2)))
        || (alt.interface_class == 14 && alt.interface_subclass == 2))

unfoldable pub got_interface : UsbDevice → Bool
unfolding is_streaming
got_interface u = elim u.config [
  | none ↦ false
  | some interfaces ↦ u.has_descriptor && any_of (any_of (is_streaming u)) interfaces
]

unfoldable pub ref_device : Device → Device
ref_device d = record d { ref = d.ref + 1; usb_ref = d.usb_ref + 1 }

-- A device that no one refers to is freed.
unfoldable pub unref_device : Device → Device
unref_device d = record d { ref = d.ref - 1; usb_ref = d.usb_ref - 1; alive = not (d.ref - 1 == 0) }

-- libusb's list refers to each device until it is freed.
abbrev pub listed : UsbDevice → Device
listed u = record { usb = u; ref = 0; usb_ref = 1; alive = true }

abbrev pub unlist : Device → Device
unlist d = record d { usb_ref = d.usb_ref - 1 }

unfoldable pub get_device_list : List UsbDevice → List Device
unfolding got_interface ref_device
get_device_list [] = []
get_device_list (u ∷ us) =
    let rest = get_device_list us in
    if got_interface u then unlist (ref_device (listed u)) ∷ rest else rest

-- `uvc_free_device_list`, with the references given up or kept.
unfoldable pub free_device_list : Bool → List Device → List Device
unfolding unref_device
free_device_list unref_devices ds = if unref_devices then map unref_device ds else ds

-- A vendor or product of 0 and a serial number of `none` match every device.
unfoldable pub matches : ℕ → ℕ → Option (List ℕ) → UsbDevice → Bool
unfolding same_bytes
matches vid pid sn u =
    u.has_descriptor
    && ((vid == 0 || u.vendor == vid)
        && ((pid == 0 || u.product == pid) && same_serial sn u.serial))
  where
    same_serial : Option (List ℕ) → Option (List ℕ) → Bool
    same_serial none _ = true
    same_serial (some s) none = false
    same_serial (some s) (some t) = same_bytes t s

-- The first device that matches is referred to once more; the result tells its place.
unfoldable pub ref_first : (UsbDevice → Bool) → List Device → Option ℕ × List Device
unfolding ref_device
ref_first test [] = (none, [])
ref_first test (d ∷ ds) =
    let (n, ds') = ref_first test ds in
    if test d.usb then (some 0, ref_device d ∷ ds) else (next n, d ∷ ds')
  where
    next : Option ℕ → Option ℕ
    next none = none
    next (some n) = some (suc n)

unfoldable pub find_device : ℕ → ℕ → Option (List ℕ) → List UsbDevice → ℤ × Option ℕ × List Device
unfolding get_device_list ref_first matches free_device_list
find_device vid pid sn us =
    let (found, ds) = ref_first (matches vid pid sn) (get_device_list us) in
    ((if is_none found then Usb.Error.no_device else pos 0), found, free_device_list true ds)
  where
    is_none : Option ℕ → Bool
    is_none none = true
    is_none (some n) = false
