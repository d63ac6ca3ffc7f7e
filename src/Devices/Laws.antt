-- ===== src/Devices/Laws.antt =====
-- Who holds which device after a search.
use tcluvc.Prelude.{
  ℕ, ◌≡◌, ◌⊎◌, inl, inr, refl, ap, Bool, true, false, Option, none, some, List, [], ◌∷◌, ◌++◌,
  length, map, if◌then◌else◌, Bool-cases,
}
use tcluvc.Prelude.Int.{pos}
use tcluvc.Usb
use tcluvc.Devices.{
  UsbDevice, Device, got_interface, ref_device, unref_device, get_device_list, free_device_list,
  matches, ref_first, find_device,
}

-- A device that nobody holds, discarded; and one that the caller holds, with one reference in libusb.
abbrev pub discarded : UsbDevice → Device
discarded u = record { usb = u; ref = 0; usb_ref = 0; alive = false }

abbrev pub held : UsbDevice → Device
held u = record { usb = u; ref = 1; usb_ref = 1; alive = true }

-- The cameras among the devices, in order.
unfoldable pub cameras : List UsbDevice → List UsbDevice
cameras [] = []
cameras (u ∷ us) = if got_interface u then u ∷ cameras us else cameras us

-- No device of the list passes the test.
pub data NonePass (test : UsbDevice → Bool) : List UsbDevice → Type 0 where
  no_devices : NonePass test []
  fails_then :
      {u : UsbDevice} {us : List UsbDevice}
      → test u ≡ false
      → NonePass test us
      → NonePass test (u ∷ us)

get_device_list-cameras : (us : List UsbDevice) → get_device_list us ≡ map held (cameras us)
unfolding get_device_list cameras ref_device
get_device_list-cameras [] = refl
get_device_list-cameras (u ∷ us) = elim (Bool-cases (got_interface u)) [
  | inl e ↦ rw e (ap (◌∷◌ (held u)) (get_device_list-cameras us))
  | inr e ↦ rw e (get_device_list-cameras us)
]

-- The devices held before and behind the one that is referred to once more.
abbrev referred : List UsbDevice → UsbDevice → List UsbDevice → List Device
referred before u after = map held before ++ (ref_device (held u) ∷ map held after)

ref_first-held :
    (test : UsbDevice → Bool) (cs : List UsbDevice)
    → (NonePass test cs × (ref_first test (map held cs) ≡ (none, map held cs)))
      ⊎ ((before : List UsbDevice) × (u : UsbDevice) × (after : List UsbDevice) × (cs
            ≡ before ++ (u ∷ after))
          × NonePass test before
          × (test u ≡ true)
          × (ref_first test (map held cs) ≡ (some (length before), referred before u after)))
unfolding ref_first
ref_first-held test [] = inl (no_devices, refl)
ref_first-held test (c ∷ cs) = elim (Bool-cases (test c)) [
  | inl passes ↦ inr ([], c, cs, refl, no_devices, passes, rw passes refl)
  | inr fails ↦ elim (ref_first-held test cs) [
    | inl (all, e) ↦ inl (fails_then fails all, rw (fails, e) refl)
    | inr (before, u, after, split, all, passes, e) ↦
        inr
          (c ∷ before, u, after, ap (◌∷◌ c) split, fails_then fails all, passes, rw (fails, e) refl)
  ]
]

unref-held : (cs : List UsbDevice) → map unref_device (map held cs) ≡ map discarded cs
unfolding unref_device
unref-held [] = refl
unref-held (c ∷ cs) = ap (◌∷◌ (discarded c)) (unref-held cs)

unref-referred :
    (before : List UsbDevice) (u : UsbDevice) (after : List UsbDevice)
    → map unref_device (referred before u after)
      ≡ map discarded before ++ (held u ∷ map discarded after)
unfolding unref_device ref_device
unref-referred [] u after = ap (◌∷◌ (held u)) (unref-held after)
unref-referred (b ∷ before) u after = ap (◌∷◌ (discarded b)) (unref-referred before u after)

-- A search finds the first camera that matches, if one does: the caller holds it, with one reference
-- of the program in libusb, and every other camera that was listed is freed without one. If none
-- matches, the search reports UVC_ERROR_NO_DEVICE, and all are freed.
pub find_device_holds :
    (vid pid : ℕ) (sn : Option (List ℕ)) (us : List UsbDevice)
    → (NonePass (matches vid pid sn) (cameras us)
        × (find_device vid pid sn us ≡ (Usb.Error.no_device, none, map discarded (cameras us))))
      ⊎ ((before : List UsbDevice) × (u : UsbDevice) × (after : List UsbDevice) × (cameras us
            ≡ before ++ (u ∷ after))
          × NonePass (matches vid pid sn) before
          × (matches vid pid sn u ≡ true)
          × (find_device vid pid sn us ≡ (
            pos 0,
            some (length before),
            map discarded before ++ (held u ∷ map discarded after),
          )))
unfolding find_device free_device_list
find_device_holds vid pid sn us = elim (ref_first-held (matches vid pid sn) (cameras us)) [
  | inl (all, e) ↦ inl (
    all,
    rw (find_device, get_device_list-cameras us, e)
        (ap (λ ds. (Usb.Error.no_device, none, ds)) (unref-held (cameras us))),
  )
  | inr (before, u, after, split, all, passes, e) ↦ inr (
    before,
    u,
    after,
    split,
    all,
    passes,
    rw (find_device, get_device_list-cameras us, e)
        (ap (λ ds. (pos 0, some (length before), ds)) (unref-referred before u after)),
  )
]
