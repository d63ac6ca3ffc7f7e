-- ===== src/Bytes.antt =====
-- The byte-order macros of libuvc/include/libuvc/libuvc_internal.h, on a buffer and an offset.
-- A byte is a number below 256; `p[0] | p[1] << 8` is a sum, since the bytes do not overlap.
pub mod RoundTrip
use tcluvc.Prelude.{ℕ, ◌+◌, ◌*◌, ◌/◌, ◌%◌, ◌^◌, Bool, List, [], ◌∷◌, ◌==◌, get_or}

-- A read past the end of the list is 0 here; the callers that can read there test the bound.
unfoldable pub byte_at : List ℕ → ℕ → ℕ
byte_at p i = get_or p i 0

unfoldable pub sw_to_short : List ℕ → ℕ → ℕ
unfolding byte_at
sw_to_short p i = byte_at p i + byte_at p (i + 1) * 256

unfoldable pub dw_to_int : List ℕ → ℕ → ℕ
unfolding byte_at
dw_to_int p i =
    byte_at p i + byte_at p (i + 1) * 256 + byte_at p (i + 2) * 65536 + byte_at p (i + 3) * 16777216

unfoldable pub short_to_sw : ℕ → List ℕ
short_to_sw s = s % 256 ∷ s / 256 % 256 ∷ []

unfoldable pub int_to_dw : ℕ → List ℕ
int_to_dw i = i % 256 ∷ i / 256 % 256 ∷ i / 65536 % 256 ∷ i / 16777216 % 256 ∷ []

-- `x & (1 << k)` as a test.
abbrev pub test_bit : ℕ → ℕ → Bool
test_bit x k = x / 2 ^ k % 2 == 1
