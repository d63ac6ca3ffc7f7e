-- ===== src/Claims/Tests.antt =====
-- The theorems on claims at a libusb whose interface 9 belongs to another program.
use tcluvc.Prelude.{ℕ, ◌≡◌, refl, Bool, false, [], ◌∷◌, ◌==◌, if◌then◌else◌, arith}
use tcluvc.Prelude.Int.{pos, negsuc}
use tcluvc.Usb.{Usb}
use tcluvc.Claims.{set_bit, clear_bit}
use tcluvc.Claims.Laws.{Holds, claims, releases, run_calls, claimed_is_held}

abbrev shared : Usb
shared = record {
  World = ℕ → Bool;
  control_transfer = λ w s buf n. (negsuc 8, buf, w);
  detach_kernel_driver = λ w i. (negsuc 4, w);
  attach_kernel_driver = λ w i. (negsuc 4, w);
  claim_interface = λ w i. if i == 9 then (negsuc 5, w) else (pos 0, set_bit w i);
  release_interface = λ w i. (pos 0, clear_bit w i);
  set_interface_alt_setting = λ w i a. (pos 0, w);
}

shared-Holds : Holds shared λ w. w
shared-Holds = record {
  detach = λ w i j. refl;
  attach = λ w i j. refl;
  alt_setting = λ w i a j. refl;
  claim = λ w i j. ground arith;
  release = λ w i j. refl;
}

claimed_is_held_example :
    (run_calls shared
        (λ i. false)
        (λ i. false)
        (claims 1 ∷ claims 9 ∷ releases 1 ∷ claims 2 ∷ [])).0
      2
    ≡ (run_calls shared
          (λ i. false)
          (λ i. false)
          (claims 1 ∷ claims 9 ∷ releases 1 ∷ claims 2 ∷ [])).1
        2
claimed_is_held_example =
    claimed_is_held shared (λ w. w) (claims 1 ∷ claims 9 ∷ releases 1 ∷ claims 2 ∷ []) (λ i. false)
      (λ i. false) shared-Holds (λ k. refl) 2
