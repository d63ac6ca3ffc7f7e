-- ===== src/Convert/Pixels.antt =====
-- The pixel macros of libuvc/src/frame.c. A pointer to the source is the list of the bytes from
-- there; a macro yields the bytes that it writes.
use tcluvc.Prelude.{ℕ, List, [], ◌∷◌, ◌++◌, drop, ltb, if◌then◌else◌}
use tcluvc.Prelude.Int.{ℤ, pos, negsuc, sub_ℕ, ◌+ℤ◌, ◌*ℤ◌, shr_ℤ}
use tcluvc.Bytes.{byte_at}

-- `sat`, whose negative argument is 0.
unfoldable pub sat : ℤ → ℕ
sat (pos n) = if ltb n 255 then n else 255
sat (negsuc n) = 0

-- `r`, `g` and `b` of the macros, from the bytes U and V.
unfoldable pub red : ℕ → ℤ
red v = shr_ℤ (pos 22987 *ℤ sub_ℕ v 128) 14

unfoldable pub green : ℕ → ℕ → ℤ
green u v = shr_ℤ (negsuc 5635 *ℤ sub_ℕ u 128 +ℤ negsuc 11697 *ℤ sub_ℕ v 128) 14

unfoldable pub blue : ℕ → ℤ
blue u = shr_ℤ (pos 29049 *ℤ sub_ℕ u 128) 14

-- One pixel of luminance `y`, red first or blue first.
unfoldable pub rgb : ℕ → ℕ → ℕ → List ℕ
unfolding sat red green blue
rgb y u v = sat (pos y +ℤ red v) ∷ sat (pos y +ℤ green u v) ∷ sat (pos y +ℤ blue u) ∷ []

unfoldable pub bgr : ℕ → ℕ → ℕ → List ℕ
unfolding sat red green blue
bgr y u v = sat (pos y +ℤ blue u) ∷ sat (pos y +ℤ green u v) ∷ sat (pos y +ℤ red v) ∷ []

-- IYUYV2RGB_2, IYUYV2BGR_2, IUYVY2RGB_2 and IUYVY2BGR_2: two pixels.
unfoldable pub yuyv2rgb_2 : List ℕ → List ℕ
unfolding byte_at rgb
yuyv2rgb_2 p =
    rgb (byte_at p 0) (byte_at p 1) (byte_at p 3) ++ rgb (byte_at p 2) (byte_at p 1) (byte_at p 3)

unfoldable pub yuyv2bgr_2 : List ℕ → List ℕ
unfolding byte_at bgr
yuyv2bgr_2 p =
    bgr (byte_at p 0) (byte_at p 1) (byte_at p 3) ++ bgr (byte_at p 2) (byte_at p 1) (byte_at p 3)

unfoldable pub uyvy2rgb_2 : List ℕ → List ℕ
unfolding byte_at rgb
uyvy2rgb_2 p =
    rgb (byte_at p 1) (byte_at p 0) (byte_at p 2) ++ rgb (byte_at p 3) (byte_at p 0) (byte_at p 2)

unfoldable pub uyvy2bgr_2 : List ℕ → List ℕ
unfolding byte_at bgr
uyvy2bgr_2 p =
    bgr (byte_at p 1) (byte_at p 0) (byte_at p 2) ++ bgr (byte_at p 3) (byte_at p 0) (byte_at p 2)

-- The macros for four and for eight pixels over one for two.
unfoldable pub four : (List ℕ → List ℕ) → List ℕ → List ℕ
four two p = two p ++ two (drop 4 p)

unfoldable pub eight : (List ℕ → List ℕ) → List ℕ → List ℕ
unfolding four
eight two p = four two p ++ four two (drop 8 p)
