-- ===== src/Parse/Streaming/RoundTrip/Words.antt =====
-- The lists of words behind the head of a frame block.
use tcluvc.Prelude.{
  ℕ, zero, suc, ◌+◌, ◌*◌, ◌≡◌, refl, ◌∙◌, ap, sym, List, [], ◌∷◌, ◌++◌, length, arith, ap₂,
}
use tcluvc.Bytes.{byte_at, dw_to_int, int_to_dw}
use tcluvc.Bytes.RoundTrip.{get_or-append, dw_to_int-int_to_dw}
use tcluvc.Parse.Streaming.{read_intervals}
use tcluvc.Parse.Streaming.Encode.{words, AllWords, no_words, word_then}

module _ (xs ys : List ℕ) where
  pub byte_at-append : (n i : ℕ) → length xs + i ≡ n → byte_at (xs ++ ys) n ≡ byte_at ys i
  unfolding byte_at
  byte_at-append n i e = ap (λ m. byte_at (xs ++ ys) m) (sym e) ∙ get_or-append xs ys i 0

  dw_to_int-append : (n i : ℕ) → length xs + i ≡ n → dw_to_int (xs ++ ys) n ≡ dw_to_int ys i
  unfolding dw_to_int
  dw_to_int-append n i e = omega (
    arith,
    byte_at-append n i e,
    byte_at-append (n + 1) (i + 1) (omega arith),
    byte_at-append (n + 2) (i + 2) (omega arith),
    byte_at-append (n + 3) (i + 3) (omega arith),
  )

  -- Reading behind a prefix.
  pub read_intervals-append :
      (k n i : ℕ) → length xs + i ≡ n → read_intervals (xs ++ ys) n k ≡ read_intervals ys i k
  unfolding read_intervals
  read_intervals-append zero n i e = refl
  read_intervals-append (suc k) n i e =
      ap₂ ◌∷◌ (dw_to_int-append n i e) (read_intervals-append k (n + 4) (i + 4) (omega arith))

pub read_intervals-words :
    (is rest : List ℕ) → AllWords is → read_intervals (words is ++ rest) 0 (length is) ≡ is
unfolding read_intervals words int_to_dw
read_intervals-words [] rest no_words = refl
read_intervals-words (x ∷ is) rest (word_then fits all) =
    ap₂ ◌∷◌ (dw_to_int-int_to_dw x (words is ++ rest) fits) (
      read_intervals-append (int_to_dw x) (words is ++ rest) (length is) 4 0 refl
      ∙ read_intervals-words is rest all)

pub length-words : (is : List ℕ) → length (words is) ≡ length is * 4
unfolding words int_to_dw
length-words [] = omega arith
length-words (x ∷ is) = omega (arith, length-words is)
