-- ===== src/Devices/Handles/Laws.antt =====
-- The handler thread and the references of a context, over any opening and closing of devices.
use tcluvc.Prelude.{
  Gives, Gives-done, Gives-after, ℕ, zero, suc, ◌+◌, ◌≡◌, refl, false, not, ◌&&◌, Option, none,
  some, List, [], ◌∷◌, ◌++◌, length, get_elem?, ◌==◌, if◌then◌else◌, arith, Bool-cases,
  Option-cases, inl, inr, done,
}
use tcluvc.Prelude.Int.{ℤ}
use tcluvc.Usb.{Usb, is_zero}
use tcluvc.Usb.Config.{AltSetting}
use tcluvc.Descriptors.{DeviceInfo}
use tcluvc.Claims.{claim_if}
use tcluvc.Devices.Handles.{
  Handle, Context, add_ref, drop_ref, no_claims, is_empty, add_handle, delete_at, get_device_info,
  open_with, open_device, close_device,
}

-- How many handles of a device are open.
unfoldable pub count : ℕ → List Handle → ℕ
count dev [] = 0
count dev (h ∷ hs) = if h.dev == dev then suc (count dev hs) else count dev hs

-- A context of its own has its thread while a device is open, and each handle holds one reference
-- beyond those that were there.
pub record IsKept (base : ℕ → ℕ) (x : Context) : Type 0 where
  pub thread : x.handler_thread ≡ (x.own_usb_ctx && not (is_empty x.open_devices))
  pub refs : (dev : ℕ) → x.refs dev ≡ base dev + count dev x.open_devices

count-append :
    (dev : ℕ) (hs : List Handle) (h : Handle)
    → count dev (hs ++ (h ∷ [])) ≡ (if h.dev == dev then suc (count dev hs) else count dev hs)
unfolding count
count-append dev [] h = refl
count-append dev (g ∷ hs) h = ground (arith, count-append dev hs h)

count-delete_at :
    (dev n : ℕ) (hs : List Handle) (h : Handle)
    → get_elem? hs n ≡ some h
    → count dev hs
      ≡ (if h.dev == dev then suc (count dev (delete_at hs n)) else count dev (delete_at hs n))
unfolding count delete_at
count-delete_at dev n [] h e = absurd (ground (arith, e))
count-delete_at dev zero (g ∷ hs) h e = ground (arith, e)
count-delete_at dev (suc n) (g ∷ hs) h e = ground (arith, count-delete_at dev n hs h e)

is_empty-append : (hs : List Handle) (h : Handle) → is_empty (hs ++ (h ∷ [])) ≡ false
is_empty-append [] h = refl
is_empty-append (g ∷ hs) h = refl

is_empty-delete_at :
    (n : ℕ) (hs : List Handle) (h : Handle)
    → get_elem? hs n ≡ some h
    → is_empty (delete_at hs n) ≡ (length hs == 1)
unfolding delete_at
is_empty-delete_at n [] h e = absurd (ground (arith, e))
is_empty-delete_at zero (g ∷ []) h e = ground arith
is_empty-delete_at zero (g ∷ k ∷ hs) h e = ground arith
is_empty-delete_at (suc n) (g ∷ []) h e = absurd (ground (arith, e))
is_empty-delete_at (suc n) (g ∷ k ∷ hs) h e = ground arith

not_empty : (n : ℕ) (hs : List Handle) (h : Handle) → get_elem? hs n ≡ some h → is_empty hs ≡ false
not_empty n [] h e = absurd (ground (arith, e))
not_empty n (g ∷ hs) h e = refl

-- A handle that takes one more reference.
add_handle-IsKept :
    (base : ℕ → ℕ) (x : Context) (h : Handle)
    → IsKept base x
    → IsKept base (add_handle (record x { refs = add_ref x.refs h.dev }) h)
unfolding add_handle
add_handle-IsKept base x h k = record {
  thread = ground (arith, k.thread, is_empty-append x.open_devices h);
  refs = λ dev. ground (arith, k.refs dev, count-append dev x.open_devices h);
}

-- A reference taken and given up.
add_drop-IsKept :
    (base : ℕ → ℕ) (x : Context) (dev : ℕ)
    → IsKept base x
    → IsKept base (record x { refs = drop_ref (add_ref x.refs dev) dev })
add_drop-IsKept base x dev k = record { thread = k.thread; refs = λ d. ground (arith, k.refs d) }

close_device-IsKept :
    (usb : Usb) (base : ℕ → ℕ) (w : usb.World) (x : Context) (n : ℕ)
    → IsKept base x
    → IsKept base (close_device usb w x n).0
unfolding close_device
close_device-IsKept usb base w x n k = elim (Option-cases (get_elem? x.open_devices n)) [
  | inl e ↦ rw (close_device, e) k
  | inr (h, e) ↦
      rw (close_device, e)
        (record {
          thread = ground (
            arith,
            k.thread,
            not_empty n x.open_devices h e,
            is_empty-delete_at n x.open_devices h e,
          );
          refs = λ dev. ground (arith, k.refs dev, count-delete_at dev n x.open_devices h e);
        })
]

module _ (usb : Usb) (base : ℕ → ℕ) where
  Kept : ℤ × Context × usb.World → Type 0
  Kept (ret, x, w) = IsKept base x

  open_with-Kept :
      (w : usb.World) (x : Context) (dev : ℕ) (info : DeviceInfo) (submitted : ℤ)
      → IsKept base x
      → Kept (open_with usb w (record x { refs = add_ref x.refs dev }) dev info submitted)
  unfolding open_with Kept
  open_with-Kept w x dev info submitted k =
      elim (Bool-cases (is_zero (claim_if usb w no_claims info.ctrl_if.interface_number).0)) [
        | inr refused ↦ rw (open_with, refused) (add_drop-IsKept base x dev k)
        | inl claims ↦
            elim (Bool-cases
              (not (info.ctrl_if.endpoint_address == 0) && not (is_zero submitted))) [
                | inl refused ↦ rw (open_with, claims, refused) (add_drop-IsKept base x dev k)
                | inr goes ↦ rw (open_with, claims, goes) (add_handle-IsKept base x _ k)
              ]
      ]

  open_device-Kept :
      (w : usb.World) (x : Context) (dev : ℕ) (config : Option (List (List AltSetting)))
      (vendor product : ℕ) (libusb_open submitted : ℤ)
      → IsKept base x
      → Gives Kept (open_device usb w x dev config vendor product libusb_open submitted)
  unfolding open_device open_with Kept
  open_device-Kept w x dev config vendor product libusb_open submitted k =
      elim (Bool-cases (is_zero libusb_open)) [
        | inr refused ↦ rw (open_device, refused) (Gives-done Kept (libusb_open, x, w) k)
        | inl opened ↦
            rw (open_device, opened)
              (Gives-after Kept (get_device_info config vendor product) _
                (λ r. Gives-done Kept _ (on_info r.0 r.1)))
      ]
    where
      on_info :
          (ret : ℤ) (found : Option DeviceInfo)
          → Kept (elim found [
            | none ↦ (ret, record x { refs = drop_ref (add_ref x.refs dev) dev }, w)
            | some info ↦
                open_with usb w (record x { refs = add_ref x.refs dev }) dev info submitted
          ])
      on_info ret none = add_drop-IsKept base x dev k
      on_info ret (some info) = open_with-Kept w x dev info submitted k

module _ (usb : Usb) where
  -- A context and libusb's state after any devices were opened and closed.
  pub data Reachable (x : Context) : usb.World → Context → Type 0 where
    start : {w : usb.World} → Reachable x w x
    opens :
        {w w' : usb.World} {x' x'' : Context} {ret : ℤ} (dev : ℕ)
        (config : Option (List (List AltSetting))) (vendor product : ℕ) (libusb_open submitted : ℤ)
        → Reachable x w x'
        → open_device usb w x' dev config vendor product libusb_open submitted ≡ done (ret, x'', w')
        → Reachable x w' x''
    closes :
        {w : usb.World} {x' : Context} (n : ℕ)
        → Reachable x w x'
        → Reachable x (close_device usb w x' n).1 (close_device usb w x' n).0

-- Whatever devices are opened and closed, and whatever of it fails, a context of its own has its
-- handler thread exactly while a handle is open, a context of the user has none, and the references to
-- each device are those that were there and one for each open handle, if it was so before.
pub Reachable-IsKept :
    (usb : Usb) (base : ℕ → ℕ) (x x' : Context) (w : usb.World)
    → IsKept base x
    → Reachable usb x w x'
    → IsKept base x'
unfolding Kept
Reachable-IsKept usb base x x' w k start = k
Reachable-IsKept usb base x x' w k
      (opens {w = v} {x' = y} {ret = ret} dev config vendor product o s r e) =
    open_device-Kept usb base v y dev config vendor product o s
      (Reachable-IsKept usb base x y v k r) (ret, x', w) e
Reachable-IsKept usb base x x' w k (closes {w = v} {x' = y} n r) =
    close_device-IsKept usb base v y n (Reachable-IsKept usb base x y v k r)
