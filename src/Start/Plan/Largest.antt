-- ===== src/Start/Plan/Largest.antt =====
-- What is chosen where no setting holds what the format needs.
use tcluvc.Prelude.{
  ℕ, suc, ◌≤◌, ◌<◌, ◌≡◌, ◌⊎◌, inl, inr, refl, true, false, Option, none, some, List, [], ◌∷◌, ltb,
  leb, ◌==◌, Run, done, arith, Bool-cases,
}
use tcluvc.Usb.Config.{AltSetting}
use tcluvc.Start.Plan.{endpoint_bytes, Plan, fall_back, choose}
use tcluvc.Start.Plan.Laws.{AllBelow, IsPlan}

module _ (address : ℕ) where
  -- The best setting so far, and how many bytes its packets have.
  IsBest : Option AltSetting → ℕ → Type 0
  IsBest none max_bpp = max_bpp ≡ 0
  IsBest (some alt) max_bpp = (endpoint_bytes address alt.endpoints ≡ max_bpp) × (0 < max_bpp)

  -- Either nothing can carry anything, or there is a plan for a setting that is no smaller than any
  -- other, and than what was found before.
  abbrev IsOutcome : ℕ → ℕ → List AltSetting → Run (Option Plan) → Type 0
  IsOutcome frame_size max_bpp alts r =
      ((r ≡ done none) × (max_bpp ≡ 0) × AllBelow address 1 alts)
      ⊎ ((p : Plan) × (r ≡ done (some p))
          × IsPlan address frame_size p
          × AllBelow address (suc p.packet_size) alts
          × (max_bpp ≤ p.packet_size))

fall_back_returns :
    (address frame_size : ℕ) (best : Option AltSetting) (max_bpp : ℕ)
    → IsBest address best max_bpp
    → (o : Option Plan) × (fall_back address frame_size best max_bpp ≡ done o)
unfolding fall_back IsBest
fall_back_returns address frame_size none max_bpp e = (none, refl)
fall_back_returns address frame_size (some alt) max_bpp (e, some_bytes) =
    rw (same, not_zero) (_, refl)
  where
    same : (endpoint_bytes address alt.endpoints == max_bpp) ≡ true
    same = ground (arith, e)

    not_zero : (endpoint_bytes address alt.endpoints == 0) ≡ false
    not_zero = ground (arith, e)

choose_on :
    (address frame_size need : ℕ) (best : Option AltSetting) (max_bpp : ℕ) (alts : List AltSetting)
    → 0 < need
    → IsBest address best max_bpp
    → (o : Option Plan) × (choose address frame_size need best max_bpp alts ≡ done o)
unfolding choose IsBest
choose_on address frame_size need best max_bpp [] h b =
    fall_back_returns address frame_size best max_bpp b
choose_on address frame_size need best max_bpp (alt ∷ alts) h b =
    elim (Bool-cases (leb need (endpoint_bytes address alt.endpoints))) [
      | inl fits ↦
          let not_zero : (endpoint_bytes address alt.endpoints == 0) ≡ false =
            ground (arith, fits) in
          rw (fits, not_zero) (_, refl)
      | inr small ↦ elim (Bool-cases (ltb max_bpp (endpoint_bytes address alt.endpoints))) [
        | inl larger ↦
            rw (small, larger)
              (choose_on address frame_size need (some alt) (endpoint_bytes address alt.endpoints)
                alts h (refl, ground (arith, larger)))
        | inr smaller ↦
            rw (small, smaller) (choose_on address frame_size need best max_bpp alts h b)
      ]
    ]

-- The choice does not fault if the format needs a byte at least.
pub choose_returns :
    (address frame_size need : ℕ) (alts : List AltSetting)
    → 0 < need
    → (o : Option Plan) × (choose address frame_size need none 0 alts ≡ done o)
unfolding IsBest
choose_returns address frame_size need alts h = choose_on address frame_size need none 0 alts h refl
