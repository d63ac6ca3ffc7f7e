-- ===== src/Claims/Laws.antt =====
-- The bits of `devh->claimed` are the interfaces that libusb holds for the program, whatever
-- sequence of claims and releases there was.
use tcluvc.Prelude.{ℕ, ◌≡◌, ◌≢◌, ◌⊎◌, Bool, true, false, List, [], ◌∷◌, if◌then◌else◌, arith}
use tcluvc.Prelude.Int.{pos}
use tcluvc.Usb.{Usb, is_zero}
use tcluvc.Claims.{set_bit, clear_bit, claim_if, release_if}

-- What libusb documents of the calls: which interfaces are claimed changes by a claim and a
-- release that succeed, and by nothing else.
pub record Holds (usb : Usb) (held : usb.World → ℕ → Bool) : Type 0 where
  pub detach : (w : usb.World) (i j : ℕ) → held (usb.detach_kernel_driver w i).1 j ≡ held w j
  pub attach : (w : usb.World) (i j : ℕ) → held (usb.attach_kernel_driver w i).1 j ≡ held w j
  pub alt_setting :
      (w : usb.World) (i a j : ℕ) → held (usb.set_interface_alt_setting w i a).1 j ≡ held w j
  pub claim :
      (w : usb.World) (i j : ℕ)
      → held (usb.claim_interface w i).1 j
        ≡ (if is_zero (usb.claim_interface w i).0 then set_bit (held w) i j else held w j)
  pub release :
      (w : usb.World) (i j : ℕ)
      → held (usb.release_interface w i).1 j
        ≡ (if is_zero (usb.release_interface w i).0 then clear_bit (held w) i j else held w j)

pub data Call : Type 0 where
  claims releases : ℕ → Call

module _ (usb : Usb) where
  -- The mask and libusb's state after the calls.
  unfoldable pub run_calls : usb.World → (ℕ → Bool) → List Call → (ℕ → Bool) × usb.World
  run_calls w m [] = (m, w)
  run_calls w m (claims i ∷ cs) = run_calls (claim_if usb w m i).2 (claim_if usb w m i).1 cs
  run_calls w m (releases i ∷ cs) = run_calls (release_if usb w m i).2 (release_if usb w m i).1 cs

claim_if-held :
    (usb : Usb) (held : usb.World → ℕ → Bool) (w : usb.World) (m : ℕ → Bool) (i j : ℕ)
    → Holds usb held
    → ((k : ℕ) → m k ≡ held w k)
    → (claim_if usb w m i).1 j ≡ held (claim_if usb w m i).2 j
unfolding claim_if
claim_if-held usb held w m i j laws same =
    ground (arith, same j, laws.detach w i j, laws.claim (usb.detach_kernel_driver w i).1 i j)

release_if-held :
    (usb : Usb) (held : usb.World → ℕ → Bool) (w : usb.World) (m : ℕ → Bool) (i j : ℕ)
    → Holds usb held
    → ((k : ℕ) → m k ≡ held w k)
    → (release_if usb w m i).1 j ≡ held (release_if usb w m i).2 j
unfolding release_if
release_if-held usb held w m i j laws same = ground (
  arith,
  same j,
  laws.alt_setting w i 0 j,
  laws.release (usb.set_interface_alt_setting w i 0).1 i j,
  laws.attach (usb.release_interface (usb.set_interface_alt_setting w i 0).1 i).1 i j,
)

-- Whatever claims and releases follow each other, and whichever of libusb's calls in them fail, the
-- mask has the bit of an interface exactly if libusb holds the interface, if it was so before.
pub claimed_is_held :
    (usb : Usb) (held : usb.World → ℕ → Bool) (cs : List Call) (w : usb.World) (m : ℕ → Bool)
    → Holds usb held
    → ((k : ℕ) → m k ≡ held w k)
    → (j : ℕ) → (run_calls usb w m cs).0 j ≡ held (run_calls usb w m cs).1 j
unfolding run_calls
claimed_is_held usb held [] w m laws same j = same j
claimed_is_held usb held (claims i ∷ cs) w m laws same j =
    claimed_is_held usb held cs (claim_if usb w m i).2 (claim_if usb w m i).1 laws
      (λ k. claim_if-held usb held w m i k laws same) j
claimed_is_held usb held (releases i ∷ cs) w m laws same j =
    claimed_is_held usb held cs (release_if usb w m i).2 (release_if usb w m i).1 laws
      (λ k. release_if-held usb held w m i k laws same) j

-- A claim either succeeds and the interface's bit is set, or reports an error and leaves the mask;
-- the bits of the other interfaces stay.
pub claim_if_outcome :
    (usb : Usb) (w : usb.World) (m : ℕ → Bool) (i j : ℕ)
    → let (ret, m', _) = claim_if usb w m i in
      (((ret ≡ pos 0) × (m' i ≡ true)) ⊎ ((ret ≢ pos 0) × (m' i ≡ false)))
      × ((j ≡ i) ⊎ (m' j ≡ m j))
unfolding claim_if
claim_if_outcome usb w m i j = ground arith
