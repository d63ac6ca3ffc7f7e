-- ===== src/Bytes/RoundTrip.antt =====
-- Reading back what the macros wrote, wherever in a buffer it stands.
use tcluvc.Prelude.{ℕ, suc, ◌+◌, ◌<◌, ◌^◌, ◌≡◌, List, [], ◌∷◌, ◌++◌, arith, get_or, length}
use tcluvc.Bytes.{byte_at, sw_to_short, dw_to_int, short_to_sw, int_to_dw}

-- Reading behind a prefix.
pub get_or-append : (xs ys : List ℕ) (i d : ℕ) → get_or (xs ++ ys) (length xs + i) d ≡ get_or ys i d
get_or-append [] ys i d = let e : 0 + i ≡ i = omega arith in rw e
get_or-append (x ∷ xs) ys i d =
    let e : suc (length xs) + i ≡ suc (length xs + i) = omega arith in
    rw e (get_or-append xs ys i d)

pub sw_to_short-short_to_sw :
    (s : ℕ) (rest : List ℕ) → s < 2 ^ 16 → sw_to_short (short_to_sw s ++ rest) 0 ≡ s
unfolding sw_to_short short_to_sw byte_at
sw_to_short-short_to_sw s rest h = omega arith

pub dw_to_int-int_to_dw :
    (i : ℕ) (rest : List ℕ) → i < 2 ^ 32 → dw_to_int (int_to_dw i ++ rest) 0 ≡ i
unfolding dw_to_int int_to_dw byte_at
dw_to_int-int_to_dw i rest h = omega arith
