-- ===== src/Prelude/Runs.antt =====
-- The outcome of code that may leave a buffer, or loop for ever.
use mathlib.Core.Path.{◌≡◌, refl, ap, subst}
use mathlib.Core.Logic.{◌⊎◌, inl, inr}
use native.Mathlib.Omega.{arith}

-- `fault` is an access outside a buffer or through NULL, `stuck` a loop that ran out of fuel.
pub data Run {ℓ} (A : Type ℓ) : Type ℓ where
  done : A → Run A
  fault stuck : Run A

abbrev pub after {ℓ κ} : {A : Type ℓ} {B : Type κ} → Run A → (A → Run B) → Run B
after (done a) f = f a
after fault f = fault
after stuck f = stuck

-- Every result of a run has the property.
abbrev pub Gives : {A : Type 0} → (A → Type 0) → Run A → Type 0
Gives {A = A} P r = (a : A) → r ≡ done a → P a

result_or : {A : Type 0} → A → Run A → A
result_or a (done b) = b
result_or a _ = a

pub Gives-done : {A : Type 0} (P : A → Type 0) (a : A) → P a → Gives P (done a)
unfolding result_or
Gives-done P a p b e = subst P (ap (result_or a) e) p

pub Gives-fault : {A : Type 0} (P : A → Type 0) → Gives P fault
Gives-fault P a e = absurd (ground (arith, e))

pub Gives-stuck : {A : Type 0} (P : A → Type 0) → Gives P stuck
Gives-stuck P a e = absurd (ground (arith, e))

pub Gives-after :
    {A B : Type 0} (P : B → Type 0) (r : Run A) (f : A → Run B)
    → ((a : A) → Gives P (f a))
    → Gives P (after r f)
Gives-after P (done a) f h = h a
Gives-after P fault f h = Gives-fault P
Gives-after P stuck f h = Gives-stuck P

pub Run-cases {ℓ} :
    {A : Type ℓ} (r : Run A) → ((a : A) × (r ≡ done a)) ⊎ ((r ≡ fault) ⊎ (r ≡ stuck))
Run-cases (done a) = inl (a, refl)
Run-cases fault = inr (inl refl)
Run-cases stuck = inr (inr refl)
