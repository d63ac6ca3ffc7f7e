-- ===== src/Parse/Scan.antt =====
-- The loop of `uvc_scan_control` and `uvc_scan_streaming` over the blocks of an interface, on fuel.
-- A pointer to a block is the list of the bytes from there to the end of the interface's `extra`.
pub mod Laws
use tcluvc.Prelude.{
  ℕ, zero, suc, ◌+◌, ◌*◌, ◌%◌, ◌^◌, Bool, List, [], ◌∷◌, ◌++◌, length, drop, not, ltb, leb,
  if◌then◌else◌, Run, done, fault, stuck, after,
}
use tcluvc.Prelude.Int.{ℤ, pos}
use tcluvc.Usb.{is_zero}
use tcluvc.Bytes.{byte_at}

-- A block behind which `buffer_left` would wrap round sends the next round outside.
unfoldable pub scan {ℓ} : {S : Type ℓ} → (S → List ℕ → Run (ℤ × S)) → ℕ → S → List ℕ → Run (ℤ × S)
unfolding byte_at
scan parse zero s p = if leb 3 (length p) then stuck else done (pos 0, s)
scan parse (suc fuel) s p =
    if leb 3 (length p)
    then after (parse s p) (λ (ret, s').
      if not (is_zero ret)
      then done (ret, s')
      else if ltb (length p) (byte_at p 0)
      then fault
      else scan parse fuel s' (drop (byte_at p 0) p))
    else done (pos 0, s)

-- A read of the bytes below an offset.
abbrev pub reading {ℓ} : {A : Type ℓ} → List ℕ → ℕ → A → Run A
reading p n a = if leb n (length p) then done a else fault

-- `bmControls`, from the byte with the lowest bits on.
unfoldable pub control_bits : List ℕ → ℕ
control_bits [] = 0
control_bits (b ∷ bs) = (b + control_bits bs * 256) % 2 ^ 64
