-- ===== src/Parse/Scan/Laws.antt =====
-- When the scan of an interface ends, when it never does, and what a block contributes.
use tcluvc.Prelude.{
  ℕ, zero, suc, ◌≤◌, ◌<◌, ◌≡◌, ◌≢◌, refl, true, false, List, [], ◌∷◌, ◌++◌, length, drop, ltb, leb,
  Run, done, fault, stuck, arith, length-drop, length-append,
}
use tcluvc.Prelude.Int.{ℤ, pos}
use tcluvc.Bytes.{byte_at}
use tcluvc.Parse.Scan.{scan}

-- Every block that is reached takes a byte at least.
pub data HasProgress : List ℕ → Type 0 where
  rest_short : {p : List ℕ} → length p < 3 → HasProgress p
  outside : {p : List ℕ} → length p < byte_at p 0 → HasProgress p
  next_block :
      {p : List ℕ}
      → 3 ≤ length p
      → 0 < byte_at p 0
      → HasProgress (drop (byte_at p 0) p)
      → HasProgress p

-- How a run ends.
data Ends {A : Type 0} (r : Run A) : Type 0 where
  a_done : (a : A) → r ≡ done a → Ends r
  a_fault : r ≡ fault → Ends r
  a_stuck : r ≡ stuck → Ends r

Run-cases : {A : Type 0} (r : Run A) → Ends r
Run-cases (done a) = a_done a refl
Run-cases fault = a_fault refl
Run-cases stuck = a_stuck refl

drop-append : {A : Type 0} (xs ys : List A) → drop (length xs) (xs ++ ys) ≡ ys
drop-append [] ys = refl
drop-append (x ∷ xs) ys = drop-append xs ys

module _ {S : Type 0} (parse : S → List ℕ → Run (ℤ × S)) where
  -- Without an empty block the loop ends.
  pub scan-HasProgress :
      ((s : S) (p : List ℕ) → parse s p ≢ stuck)
      → (fuel : ℕ) (s : S) (p : List ℕ) → HasProgress p
      → length p < fuel
      → scan parse fuel s p ≢ stuck
  unfolding scan
  scan-HasProgress ends zero s p h f = absurd (omega arith)
  scan-HasProgress ends (suc fuel) s p (rest_short few) f = ground (arith, few)
  scan-HasProgress ends (suc fuel) s p (outside far) f = elim (Run-cases (parse s p)) [
    | a_done r e ↦ ground (arith, far, e)
    | a_fault e ↦ ground (arith, far, e)
    | a_stuck e ↦ absurd (ends s p e)
  ]
  scan-HasProgress ends (suc fuel) s p (next_block enough some h) f = elim (Run-cases (parse s p)) [
    | a_done r e ↦ ground (
      arith,
      e,
      scan-HasProgress ends fuel r.1 (drop (byte_at p 0) p) h
          (omega (arith, length-drop (byte_at p 0) p)),
    )
    | a_fault e ↦ ground (arith, e)
    | a_stuck e ↦ absurd (ends s p e)
  ]

  -- The scan yields a result, whatever fuel beyond the bytes it has.
  abbrev pub Reads : S → List ℕ → ℤ × S → Type 0
  Reads s p r = (fuel : ℕ) → length p < fuel → scan parse fuel s p ≡ done r

  pub Reads-end : (s : S) → Reads s [] (pos 0, s)
  unfolding scan
  Reads-end s zero f = refl
  Reads-end s (suc fuel) f = refl

  -- A block that is parsed, with all of it there, is one turn of the loop.
  pub Reads-block :
      (s s' : S) (block rest : List ℕ) (r : ℤ × S)
      → parse s (block ++ rest) ≡ done (pos 0, s')
      → byte_at (block ++ rest) 0 ≡ length block
      → 3 ≤ length block
      → Reads s' rest r
      → Reads s (block ++ rest) r
  unfolding scan
  Reads-block s s' block rest r e size some reads zero f = absurd (omega arith)
  Reads-block s s' block rest r e size some reads (suc fuel) f =
      rw (enough, e, inside, size, drop-append block rest)
        (reads fuel (omega (arith, length-append block rest)))
    where
      enough : leb 3 (length (block ++ rest)) ≡ true
      enough = ground (arith, length-append block rest)

      inside : ltb (length (block ++ rest)) (byte_at (block ++ rest) 0) ≡ false
      inside = ground (arith, length-append block rest)

  -- On an empty block that is parsed and changes nothing the loop never ends.
  pub scan_hangs :
      (fuel : ℕ) (s : S) (p : List ℕ)
      → parse s p ≡ done (pos 0, s)
      → byte_at p 0 ≡ 0
      → 3 ≤ length p
      → scan parse fuel s p ≡ stuck
  unfolding scan
  scan_hangs zero s p e size some = ground arith
  scan_hangs (suc fuel) s p e size some =
      rw (enough, e, inside, size) (scan_hangs fuel s p e size some)
    where
      enough : leb 3 (length p) ≡ true
      enough = ground arith

      inside : ltb (length p) (byte_at p 0) ≡ false
      inside = ground arith
