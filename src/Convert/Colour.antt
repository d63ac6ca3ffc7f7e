-- ===== src/Convert/Colour.antt =====
-- The colours that the conversions of libuvc/src/frame.c aim at: ITU-R BT.601 with the factors
-- 1.403, 0.344, 0.714 and 1.773 in units of 2 ^ -14, rounded down and limited to a byte.
use tcluvc.Prelude.{ℕ, ◌+◌, ◌-◌, ◌*◌, ◌/◌, ◌≡◌, refl, ◌∙◌, List, [], ◌∷◌, ltb, if◌then◌else◌, arith}
use tcluvc.Prelude.Int.{ℤ, pos, negsuc, pos_part, neg_part, sub_ℕ, ◌+ℤ◌, ◌*ℤ◌, shr_ℤ}
use tcluvc.Convert.Pixels
use tcluvc.Convert.Pixels.{sat, red, green, blue}

-- The value (plus - minus) / 16384 as a byte.
unfoldable pub channel : ℕ → ℕ → ℕ
channel plus minus =
    if ltb plus minus
    then 0
    else if ltb ((plus - minus) / 16384) 255
    then (plus - minus) / 16384
    else 255

-- Y + 1.403 (V - 128), Y - 0.344 (U - 128) - 0.714 (V - 128) and Y + 1.773 (U - 128).
abbrev pub red_of : ℕ → ℕ → ℕ
red_of y v = channel (16384 * y + 22987 * v) (22987 * 128)

abbrev pub green_of : ℕ → ℕ → ℕ → ℕ
green_of y u v = channel (16384 * y + (5636 + 11698) * 128) (5636 * u + 11698 * v)

abbrev pub blue_of : ℕ → ℕ → ℕ
blue_of y u = channel (16384 * y + 29049 * u) (29049 * 128)

abbrev pub rgb_of : ℕ → ℕ → ℕ → List ℕ
rgb_of y u v = red_of y v ∷ green_of y u v ∷ blue_of y u ∷ []

abbrev pub bgr_of : ℕ → ℕ → ℕ → List ℕ
bgr_of y u v = blue_of y u ∷ green_of y u v ∷ red_of y v ∷ []

-- A luminance with a shifted difference is the channel of the two.
sat_shift :
    (y : ℕ) (z : ℤ) → sat (pos y +ℤ shr_ℤ z 14) ≡ channel (16384 * y + pos_part z) (neg_part z)
unfolding sat channel shr_ℤ ◌+ℤ◌
sat_shift y (pos n) = ground arith
sat_shift y (negsuc n) = ground arith

-- A channel depends on the difference only.
channel_shift : (a b c d : ℕ) → a + d ≡ c + b → channel a b ≡ channel c d
unfolding channel
channel_shift a b c d e = ground (arith, e)

sat-red : (y v : ℕ) → sat (pos y +ℤ red v) ≡ red_of y v
unfolding red
sat-red y v = sat_shift y (pos 22987 *ℤ sub_ℕ v 128) ∙ channel_shift _ _ _ _ parts
  where
    parts :
        16384 * y + pos_part (pos 22987 *ℤ sub_ℕ v 128) + 22987 * 128
        ≡ 16384 * y + 22987 * v + neg_part (pos 22987 *ℤ sub_ℕ v 128)
    parts = unfold ◌*ℤ◌ in ground arith

sat-blue : (y u : ℕ) → sat (pos y +ℤ blue u) ≡ blue_of y u
unfolding blue
sat-blue y u = sat_shift y (pos 29049 *ℤ sub_ℕ u 128) ∙ channel_shift _ _ _ _ parts
  where
    parts :
        16384 * y + pos_part (pos 29049 *ℤ sub_ℕ u 128) + 29049 * 128
        ≡ 16384 * y + 29049 * u + neg_part (pos 29049 *ℤ sub_ℕ u 128)
    parts = unfold ◌*ℤ◌ in ground arith

sat-green : (y u v : ℕ) → sat (pos y +ℤ green u v) ≡ green_of y u v
unfolding green
sat-green y u v =
    sat_shift y (negsuc 5635 *ℤ sub_ℕ u 128 +ℤ negsuc 11697 *ℤ sub_ℕ v 128)
    ∙ channel_shift _ _ _ _ parts
  where
    parts :
        16384 * y
          + pos_part (negsuc 5635 *ℤ sub_ℕ u 128 +ℤ negsuc 11697 *ℤ sub_ℕ v 128)
          + (5636 * u + 11698 * v)
        ≡ 16384 * y
          + (5636 + 11698) * 128
          + neg_part (negsuc 5635 *ℤ sub_ℕ u 128 +ℤ negsuc 11697 *ℤ sub_ℕ v 128)
    parts = unfold ◌*ℤ◌ in unfold ◌+ℤ◌ in ground arith

-- The macros write the colours in the order of their names.
pub rgb-rgb_of : (y u v : ℕ) → Pixels.rgb y u v ≡ rgb_of y u v
unfolding Pixels.rgb
rgb-rgb_of y u v = rw (sat-red y v, sat-green y u v, sat-blue y u) refl

pub bgr-bgr_of : (y u v : ℕ) → Pixels.bgr y u v ≡ bgr_of y u v
unfolding Pixels.bgr
bgr-bgr_of y u v = rw (sat-red y v, sat-green y u v, sat-blue y u) refl
