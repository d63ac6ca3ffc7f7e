-- ===== src/Settings/Laws.antt =====
-- The extension's table beside the functions of libuvc, and values that are set and read back.
use tcluvc.Prelude.{
  ℕ, ◌≡◌, ◌⊎◌, inl, inr, refl, ap, ◌∙◌, ◌+◌, ◌<◌, true, some, List, [], ◌∷◌, ◌++◌, length, drop,
  arith,
}
use tcluvc.Prelude.Int.{ℤ, pos, negsuc}
use tcluvc.Usb
use tcluvc.Usb.{Usb, is_count}
use tcluvc.Bytes.{byte_at, sw_to_short, dw_to_int}
use tcluvc.Descriptors.{DeviceInfo}
use tcluvc.Controls.Fields.{size}
use tcluvc.Controls.Transfer.{entity_id, get_setup, set_setup}
use tcluvc.Controls.Table.{Control, focus_rel, entity, selector, fields}
use tcluvc.Settings.{
  ctrl_info, Uctrl, data_size, put_item, set_items, print_item, print_val, get_control_value,
  set_control_value,
}

-- Every control of the extension's table has the unit and the selector that libuvc's functions use,
-- and as many bytes, but for the relative focus, which has two more.
pub ctrl_info-agrees :
    (c : Control)
    → ((ctrl_info c).unit ≡ entity c)
      × ((ctrl_info c).code ≡ selector c)
      × ((data_size (ctrl_info c) ≡ size (fields c))
          ⊎ ((c ≡ focus_rel) × (data_size (ctrl_info c) ≡ size (fields c) + 2)))
unfolding ctrl_info entity selector fields
ctrl_info-agrees focus_rel = (refl, refl, inr (refl, refl))
ctrl_info-agrees _ = (refl, refl, inl refl)

-- The numbers that an item of one, two or four bytes shows again.
unfoldable pub Fits : ℕ → ℤ → Type 0
Fits bytes (pos n) =
    ((bytes ≡ 1) × (n < 256)) ⊎ (((bytes ≡ 2) × (n < 65536)) ⊎ ((bytes ≡ 4) × (n < 2147483648)))
Fits bytes (negsuc n) = (bytes ≡ 4) × (n < 2147483648)

pub data AllFit (bytes : ℕ) : List ℤ → Type 0 where
  all_done : AllFit bytes []
  one_then : {v : ℤ} {vs : List ℤ} → Fits bytes v → AllFit bytes vs → AllFit bytes (v ∷ vs)

print_byte : (n : ℕ) (rest : List ℕ) → n < 256 → print_item 1 (put_item 1 (pos n) ++ rest) ≡ pos n
unfolding print_item put_item byte_at sw_to_short dw_to_int
print_byte n rest h = ap pos (omega (arith, h))

print_short :
    (n : ℕ) (rest : List ℕ) → n < 65536 → print_item 2 (put_item 2 (pos n) ++ rest) ≡ pos n
unfolding print_item put_item byte_at sw_to_short dw_to_int
print_short n rest h = ap pos (omega (arith, h))

print_int :
    (n : ℕ) (rest : List ℕ) → n < 2147483648 → print_item 4 (put_item 4 (pos n) ++ rest) ≡ pos n
unfolding print_item put_item byte_at sw_to_short dw_to_int
print_int n rest h = ground (arith, h)

print_negative :
    (n : ℕ) (rest : List ℕ)
    → n < 2147483648
    → print_item 4 (put_item 4 (negsuc n) ++ rest) ≡ negsuc n
unfolding print_item put_item byte_at sw_to_short dw_to_int
print_negative n rest h = ground (arith, h)

drop-put_item :
    (bytes : ℕ) (v : ℤ) (rest : List ℕ)
    → (bytes ≡ 1) ⊎ ((bytes ≡ 2) ⊎ (bytes ≡ 4))
    → drop bytes (put_item bytes v ++ rest) ≡ rest
unfolding put_item
drop-put_item bytes v rest (inl e) = rw e
drop-put_item bytes v rest (inr (inl e)) = rw e
drop-put_item bytes v rest (inr (inr e)) = rw e

print_item-put_item :
    (bytes : ℕ) (v : ℤ) (rest : List ℕ)
    → Fits bytes v
    → (print_item bytes (put_item bytes v ++ rest) ≡ v)
      × (drop bytes (put_item bytes v ++ rest) ≡ rest)
unfolding Fits
print_item-put_item bytes (pos n) rest (inl (e, h)) =
    (rw e (print_byte n rest h), drop-put_item bytes (pos n) rest (inl e))
print_item-put_item bytes (pos n) rest (inr (inl (e, h))) =
    (rw e (print_short n rest h), drop-put_item bytes (pos n) rest (inr (inl e)))
print_item-put_item bytes (pos n) rest (inr (inr (e, h))) =
    (rw e (print_int n rest h), drop-put_item bytes (pos n) rest (inr (inr e)))
print_item-put_item bytes (negsuc n) rest (e, h) =
    (rw e (print_negative n rest h), drop-put_item bytes (negsuc n) rest (inr (inr e)))

print_val-set_items :
    (bytes : ℕ) (vs : List ℤ) (cur : List ℕ)
    → AllFit bytes vs
    → print_val bytes (length vs) (set_items bytes (length vs) vs cur) ≡ vs
unfolding print_val set_items
print_val-set_items bytes [] cur all_done = refl
print_val-set_items bytes (v ∷ vs) cur (one_then f all) =
    let rest : List ℕ = set_items bytes (length vs) vs (drop bytes cur) in
    let (first, others) = print_item-put_item bytes v rest f in
    ap (λ z. z ∷ print_val bytes (length vs) (drop bytes (put_item bytes v ++ rest))) first
    ∙ ap (λ z. v ∷ print_val bytes (length vs) z) others
    ∙ ap (λ z. v ∷ z) (print_val-set_items bytes vs (drop bytes cur) all)

-- A value with a number for each item of the control, each in the range of the item, is set without
-- an error and then printed as it was given, if the device takes the bytes and answers with them.
pub set_get_value :
    (usb : Usb) (w w₁ w₂ : usb.World) (d : DeviceInfo) (c : Uctrl) (vs : List ℤ) (id : ℕ) (ret : ℤ)
    → entity_id d c.info.unit ≡ some id
    → AllFit c.info.item_size vs
    → c.info.count ≡ length vs
    → usb.control_transfer w
        (set_setup d id c.info.code)
        (set_items c.info.item_size c.info.count vs c.cur)
        (data_size c.info)
      ≡ (pos (data_size c.info), set_items c.info.item_size c.info.count vs c.cur, w₁)
    → usb.control_transfer w₁
        (get_setup d id c.info.code Usb.Request.get_cur)
        (set_items c.info.item_size c.info.count vs c.cur)
        (data_size c.info)
      ≡ (ret, set_items c.info.item_size c.info.count vs c.cur, w₂)
    → (c' : Uctrl) × (set_control_value usb w d c vs ≡ some (true, c', w₁))
      × (get_control_value usb w₁ d c' ≡ some (vs, c', w₂))
unfolding set_control_value get_control_value
set_get_value usb w w₁ w₂ d c vs id ret has fit each sent answered =
    let bytes : List ℕ = set_items c.info.item_size c.info.count vs c.cur in
    let shown : print_val c.info.item_size c.info.count bytes ≡ vs =
      ap (λ n. print_val c.info.item_size n (set_items c.info.item_size n vs c.cur)) each
      ∙ print_val-set_items c.info.item_size vs c.cur fit in
    let whole : is_count (pos (data_size c.info)) (data_size c.info) ≡ true = ground arith in
    (record c { cur = bytes }, rw (has, sent, whole), rw (has, answered, shown))
