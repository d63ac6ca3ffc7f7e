-- ===== src/Prelude/Lists.antt =====
-- Lists measured and indexed by native numbers, under the library's names, and memory written
-- in place: `write_at buf off bytes` is `memcpy(buf + off, bytes, n)` on a buffer of fixed length.
use Prim.Native.Nat.{ℕ, zero, suc, ◌+◌, ◌-◌, ◌≤◌, min}
use mathlib.Core.Path.{◌≡◌, refl, sym, ap, ◌∙◌}
use mathlib.Core.List.{List, [], ◌∷◌, ◌++◌, map, append-nil}
use mathlib.Core.Option.{Option, none, some}
use native.Mathlib.Omega.{arith}

module _ {ℓ} {A : Type ℓ} where
  abbrev pub length : List A → ℕ
  length [] = 0
  length (x ∷ xs) = suc (length xs)

  abbrev pub get_elem? : List A → ℕ → Option A
  get_elem? [] i = none
  get_elem? (x ∷ xs) zero = some x
  get_elem? (x ∷ xs) (suc i) = get_elem? xs i

  abbrev pub get_or : List A → ℕ → A → A
  get_or [] i d = d
  get_or (x ∷ xs) zero d = x
  get_or (x ∷ xs) (suc i) d = get_or xs i d

  abbrev pub set : List A → ℕ → A → List A
  set [] i v = []
  set (x ∷ xs) zero v = v ∷ xs
  set (x ∷ xs) (suc i) v = x ∷ set xs i v

  abbrev pub take : ℕ → List A → List A
  take zero xs = []
  take (suc n) [] = []
  take (suc n) (x ∷ xs) = x ∷ take n xs

  abbrev pub drop : ℕ → List A → List A
  drop zero xs = xs
  drop (suc n) [] = []
  drop (suc n) (x ∷ xs) = drop n xs

  abbrev pub replicate : ℕ → A → List A
  replicate zero a = []
  replicate (suc n) a = a ∷ replicate n a

  pub write_at : List A → ℕ → List A → List A
  write_at buf off bytes = take off buf ++ (bytes ++ drop (off + length bytes) buf)

  pub length-append : (xs ys : List A) → length (xs ++ ys) ≡ length xs + length ys
  length-append [] ys = omega arith
  length-append (x ∷ xs) ys = omega (arith, length-append xs ys)

  pub length-take : (n : ℕ) (xs : List A) → length (take n xs) ≡ min n (length xs)
  length-take zero xs = omega arith
  length-take (suc n) [] = omega arith
  length-take (suc n) (x ∷ xs) = omega (arith, length-take n xs)

  pub length-drop : (n : ℕ) (xs : List A) → length (drop n xs) ≡ length xs - n
  length-drop zero xs = omega arith
  length-drop (suc n) [] = omega arith
  length-drop (suc n) (x ∷ xs) = omega (arith, length-drop n xs)

  drop-nil : (n : ℕ) → drop n [] ≡ []
  drop-nil zero = refl
  drop-nil (suc n) = refl

  pub drop-drop : (m n : ℕ) (xs : List A) → drop n (drop m xs) ≡ drop (m + n) xs
  drop-drop zero n xs = ap (λ k. drop k xs) (omega arith)
  drop-drop (suc m) n [] = drop-nil n ∙ sym (drop-nil (suc m + n))
  drop-drop (suc m) n (x ∷ xs) = drop-drop m n xs ∙ ap (λ k. drop k (x ∷ xs)) shift
    where
      shift : suc (m + n) ≡ suc m + n
      shift = omega arith

  pub length-replicate : (n : ℕ) (a : A) → length (replicate n a) ≡ n
  length-replicate zero a = refl
  length-replicate (suc n) a = ap suc (length-replicate n a)

  pub length-set : (xs : List A) (i : ℕ) (v : A) → length (set xs i v) ≡ length xs
  length-set [] i v = refl
  length-set (x ∷ xs) zero v = refl
  length-set (x ∷ xs) (suc i) v = ap suc (length-set xs i v)

  pub take-length : (xs : List A) → take (length xs) xs ≡ xs
  take-length [] = refl
  take-length (x ∷ xs) = ap (◌∷◌ x) (take-length xs)

  -- A prefix of a concatenation that takes in the whole of the first part.
  pub take-append : (xs ys : List A) (n : ℕ) → take (length xs + n) (xs ++ ys) ≡ xs ++ take n ys
  take-append [] ys n = let e : 0 + n ≡ n = omega arith in ap (λ k. take k ys) e
  take-append (x ∷ xs) ys n =
      let e : suc (length xs) + n ≡ suc (length xs + n) = omega arith in
      ap (λ k. take k (x ∷ (xs ++ ys))) e ∙ ap (◌∷◌ x) (take-append xs ys n)

  pub length-write_at :
      (buf bytes : List A) (off : ℕ)
      → off + length bytes ≤ length buf
      → length (write_at buf off bytes) ≡ length buf
  unfolding write_at
  length-write_at buf bytes off h = omega (
    arith,
    length-append (take off buf) (bytes ++ drop (off + length bytes) buf),
    length-append bytes (drop (off + length bytes) buf),
    length-take off buf,
    length-drop (off + length bytes) buf,
  )

  -- What stands before the end of a write: what stood before it began, then the bytes written.
  pub take-write_at :
      (buf bytes : List A) (off : ℕ)
      → off ≤ length buf
      → take (off + length bytes) (write_at buf off bytes) ≡ take off buf ++ bytes
  unfolding write_at
  take-write_at buf bytes off h =
      ap (λ k. take k (take off buf ++ (bytes ++ rest))) split
      ∙ take-append (take off buf) (bytes ++ rest) (length bytes)
      ∙ ap (◌++◌ (take off buf)) (whole bytes rest)
    where
      rest : List A
      rest = drop (off + length bytes) buf

      split : off + length bytes ≡ length (take off buf) + length bytes
      split = omega (arith, length-take off buf)

      whole : (xs ys : List A) → take (length xs) (xs ++ ys) ≡ xs
      whole [] ys = refl
      whole (x ∷ xs) ys = ap (◌∷◌ x) (whole xs ys)

  take_front : (xs ys : List A) → take (length xs) (xs ++ ys) ≡ xs
  take_front [] ys = refl
  take_front (x ∷ xs) ys = ap (◌∷◌ x) (take_front xs ys)

  drop_front : (xs ys : List A) (n : ℕ) → drop (length xs + n) (xs ++ ys) ≡ drop n ys
  drop_front [] ys n = let e : 0 + n ≡ n = omega arith in ap (λ k. drop k ys) e
  drop_front (x ∷ xs) ys n =
      let e : suc (length xs) + n ≡ suc (length xs + n) = omega arith in
      ap (λ k. drop k (x ∷ (xs ++ ys))) e ∙ drop_front xs ys n

  drop_all : (xs : List A) (n : ℕ) → length xs ≤ n → drop n xs ≡ []
  drop_all [] zero h = refl
  drop_all [] (suc n) h = refl
  drop_all (x ∷ xs) zero h = absurd (omega (arith, h))
  drop_all (x ∷ xs) (suc n) h = drop_all xs n (omega (arith, h))

  -- A write between what stands before and what is at least as long behind.
  pub write_at_middle :
      (p old rest b : List A)
      → length old ≡ length b
      → write_at (p ++ (old ++ rest)) (length p) b ≡ p ++ (b ++ rest)
  unfolding write_at
  write_at_middle p old rest b h =
      ap (λ z. z ++ (b ++ drop (length p + length b) (p ++ (old ++ rest))))
        (take_front p (old ++ rest))
      ∙ ap (λ z. p ++ (b ++ z))
          (drop_front p (old ++ rest) (length b)
            ∙ ap (λ k. drop k (old ++ rest)) (omega (arith, h))
            ∙ drop_front old rest 0)

  pub write_at_end : (xs b : List A) → write_at xs (length xs) b ≡ xs ++ b
  unfolding write_at
  write_at_end xs b =
      ap (λ z. take (length xs) z ++ (b ++ drop (length xs + length b) xs)) (sym (append-nil xs))
      ∙ ap (λ z. z ++ (b ++ drop (length xs + length b) xs)) (take_front xs [])
      ∙ ap (λ z. xs ++ (b ++ z)) (drop_all xs (length xs + length b) (omega arith))
      ∙ ap (λ z. xs ++ z) (append-nil b)

pub length-map {ℓ κ} :
    {A : Type ℓ} {B : Type κ} (f : A → B) (xs : List A) → length (map f xs) ≡ length xs
length-map f [] = refl
length-map f (x ∷ xs) = ap suc (length-map f xs)
