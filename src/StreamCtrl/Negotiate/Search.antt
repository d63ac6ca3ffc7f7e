-- ===== src/StreamCtrl/Negotiate/Search.antt =====
-- What a loop that ends with its first find says of the element found.
use tcluvc.Prelude.{
  ◌≡◌, refl, Bool, true, false, Option, some, List, [], ◌∷◌, ◌⊎◌, inl, inr, arith, Option-cases,
}
use tcluvc.StreamCtrl.Negotiate.{search}

-- Some element has the property; every element has it.
abbrev pub Among {ℓ} : {A : Type ℓ} → (A → Type 0) → List A → Type 0
Among P [] = ⊥
Among P (x ∷ xs) = P x ⊎ Among P xs

abbrev pub All {ℓ} : {A : Type ℓ} → (A → Type 0) → List A → Type 0
All P [] = Unit {0}
All P (x ∷ xs) = P x × All P xs

pub Among-map {ℓ} :
    {A : Type ℓ} {P Q : A → Type 0} (xs : List A) → ((x : A) → P x → Q x) → Among P xs → Among Q xs
Among-map [] f h = h
Among-map (x ∷ xs) f (inl h) = inl (f x h)
Among-map (x ∷ xs) f (inr h) = inr (Among-map xs f h)

pub All-map {ℓ} :
    {A : Type ℓ} {P Q : A → Type 0} (xs : List A) → ((x : A) → P x → Q x) → All P xs → All Q xs
All-map [] f h = h
All-map (x ∷ xs) f (h, hs) = (f x h, All-map xs f hs)

pub Among-elim {ℓ} :
    {A : Type ℓ} {P : A → Type 0} {R : Type 0} (xs : List A) → ((x : A) → P x → R) → Among P xs → R
Among-elim [] f h = elim h [ ]
Among-elim (x ∷ xs) f (inl h) = f x h
Among-elim (x ∷ xs) f (inr h) = Among-elim xs f h

module _ {ℓ} {A : Type ℓ} {S : Type 0} (body : A → S → Option (Bool × S)) where
  -- A find is the find of one of the elements.
  pub search-Among :
      (xs : List A) (s s' : S)
      → search body xs s ≡ some (true, s')
      → Among (λ x. (s₀ : S) × (body x s₀ ≡ some (true, s'))) xs
  unfolding search
  search-Among [] s s' e = ground arith
  search-Among (x ∷ xs) s s' e = elim (Option-cases (body x s)) [
    | inl n ↦ ground (arith, e, n)
    | inr ((true, s₁), b) ↦ inl (s, ground (arith, e, b))
    | inr ((false, s₁), b) ↦ inr (search-Among xs s₁ s' (ground (arith, e, b)))
  ]

  -- If no element has a find or changes the state, the loop does neither.
  pub search-All :
      (xs : List A) (s : S)
      → All (λ x. (s₀ : S) → body x s₀ ≡ some (false, s₀)) xs
      → search body xs s ≡ some (false, s)
  unfolding search
  search-All [] s h = refl
  search-All (x ∷ xs) s (h, hs) = rw (h s) (search-All xs s hs)
