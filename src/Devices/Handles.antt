-- ===== src/Devices/Handles.antt =====
-- Opening and closing a device (libuvc/src/device.c): `uvc_get_device_info`, `uvc_open` and
-- `uvc_close`. A device is a number. What libusb answers to the opening and to the submission of
-- the status transfer is an argument; memory is there. The streams of a handle that is closed,
-- which `uvc_close` closes first, are those of Start.Handles.
pub mod Laws
use tcluvc.Prelude.{
  ℕ, zero, suc, ◌+◌, ◌-◌, Bool, true, false, not, ◌&&◌, ◌||◌, Option, none, some, List, [], ◌∷◌,
  ◌++◌, length, get_elem?, ◌==◌, if◌then◌else◌, Run, done, fault, stuck, after,
}
use tcluvc.Prelude.Int.{ℤ, pos, negsuc}
use tcluvc.Usb
use tcluvc.Usb.{Usb, is_zero}
use tcluvc.Usb.Config.{AltSetting}
use tcluvc.Descriptors.{ControlInterface, DeviceInfo}
use tcluvc.Parse.Control.{scan_control}
use tcluvc.Claims.{claim_if, release_if}

-- An open handle: its device, what was parsed, the claims, and whether it has a status transfer.
pub record Handle : Type 0 where
  pub dev : ℕ
  pub info : DeviceInfo
  pub claimed : ℕ → Bool
  pub has_status_xfer : Bool

-- A context, with the references to its devices; `handler_thread` is a thread that runs.
pub record Context : Type 0 where
  pub own_usb_ctx : Bool
  pub open_devices : List Handle
  pub handler_thread : Bool
  pub refs : ℕ → ℕ

-- `calloc`.
abbrev pub no_info : DeviceInfo
no_info = record {
  ctrl_if = record {
    input_terms = [];
    selector_units = [];
    processing_units = [];
    extension_units = [];
    bcd_uvc = 0;
    clock_frequency = 0;
    endpoint_address = 0;
    interface_number = 0;
  };
  stream_ifs = [];
}

-- A configuration of `none` is one that libusb cannot get: UVC_ERROR_IO.
unfoldable pub get_device_info :
    Option (List (List AltSetting)) → ℕ → ℕ → Run (ℤ × Option DeviceInfo)
get_device_info none vendor product = done (negsuc 0, none)
get_device_info (some config) vendor product =
    after (scan_control config vendor product no_info)
      (λ (ret, info). done (ret, (if is_zero ret then some info else none)))

-- `uvc_ref_device` and `uvc_unref_device` on the counts.
abbrev pub add_ref : (ℕ → ℕ) → ℕ → ℕ → ℕ
add_ref refs dev i = if i == dev then refs i + 1 else refs i

abbrev pub drop_ref : (ℕ → ℕ) → ℕ → ℕ → ℕ
drop_ref refs dev i = if i == dev then refs i - 1 else refs i

abbrev pub no_claims : ℕ → Bool
no_claims i = false

abbrev pub is_empty : List Handle → Bool
is_empty [] = true
is_empty (h ∷ hs) = false

-- The handle is appended, and the first one of a context of its own has the thread started.
unfoldable pub add_handle : Context → Handle → Context
add_handle x h = record x {
  open_devices = x.open_devices ++ (h ∷ []);
  handler_thread = x.handler_thread || (x.own_usb_ctx && is_empty x.open_devices);
}

-- DL_DELETE of the handle at a place.
unfoldable pub delete_at : List Handle → ℕ → List Handle
delete_at [] n = []
delete_at (h ∷ hs) zero = hs
delete_at (h ∷ hs) (suc n) = h ∷ delete_at hs n

module _ (usb : Usb) where
  open usb use {World}

  -- From the parsed descriptors on. What fails gives the claim and the reference up.
  unfoldable pub open_with : World → Context → ℕ → DeviceInfo → ℤ → ℤ × Context × World
  unfolding add_handle
  open_with w x dev info submitted =
      let number = info.ctrl_if.interface_number in
      let has_endpoint = not (info.ctrl_if.endpoint_address == 0) in
      let (ret, claimed, w₁) = claim_if usb w no_claims number in
      let (_, _, w₂) = release_if usb w₁ claimed number in
      let failed = record x { refs = drop_ref x.refs dev } in
      let opened : Handle = record {
        dev = dev;
        info = info;
        claimed = claimed;
        has_status_xfer = has_endpoint;
      } in
      if not (is_zero ret)
      then (ret, failed, w₂)
      else if has_endpoint && not (is_zero submitted)
      then (submitted, failed, w₂)
      else (pos 0, add_handle x opened, w₁)

  unfoldable pub open_device :
      World
      → Context
      → ℕ
      → Option (List (List AltSetting))
      → ℕ
      → ℕ
      → ℤ
      → ℤ
      → Run (ℤ × Context × World)
  unfolding open_with get_device_info
  open_device w x dev config vendor product libusb_open submitted =
      let x₁ = record x { refs = add_ref x.refs dev } in
      if not (is_zero libusb_open)
      then done (libusb_open, x, w)
      else after (get_device_info config vendor product) (λ (ret, found). done (elim found [
        | none ↦ (ret, record x₁ { refs = drop_ref x₁.refs dev }, w)
        | some info ↦ open_with w x₁ dev info submitted
      ]))

  -- The last handle of a context of its own has the thread joined.
  unfoldable pub close_device : World → Context → ℕ → Context × World
  unfolding delete_at
  close_device w x n = elim (get_elem? x.open_devices n) [
    | none ↦ (x, w)
    | some h ↦
        let (_, _, w') = release_if usb w h.claimed h.info.ctrl_if.interface_number in
        (
          record x {
            open_devices = delete_at x.open_devices n;
            handler_thread =
                if x.own_usb_ctx && length x.open_devices == 1 then false else x.handler_thread;
            refs = drop_ref x.refs h.dev;
          },
          w',
        )
  ]
