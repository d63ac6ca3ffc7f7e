-- ===== src/Avi/Clock.antt =====
-- The arithmetic of `struct timeval` in `WriteFrame` and `StartRecording` of tcluvc.c.
use tcluvc.Prelude.{suc, ◌+◌, ◌/◌, Bool, true, false, ◌&&◌, ◌||◌, if◌then◌else◌}
use tcluvc.Usb.{is_zero}
use tcluvc.Prelude.Int.{ℤ, pos, negsuc, ◌+ℤ◌, ◌*ℤ◌, sub_ℕ, ltb_ℤ, pos_part, neg_part}

pub record Timeval : Type 0 where
  pub tv_sec : ℤ
  pub tv_usec : ℤ

infixl 65 ◌-ℤ◌
unfoldable pub ◌-ℤ◌ : ℤ → ℤ → ℤ
a -ℤ b = sub_ℕ (pos_part a + neg_part b) (neg_part a + pos_part b)

abbrev pub is_negative : ℤ → Bool
is_negative (pos n) = false
is_negative (negsuc n) = true

unfoldable pub borrow : Timeval → Timeval
unfolding ◌-ℤ◌ ◌+ℤ◌
borrow t =
    if is_negative t.tv_usec
    then record { tv_sec = t.tv_sec -ℤ pos 1; tv_usec = t.tv_usec +ℤ pos 1000000 }
    else t

unfoldable pub difference : Timeval → Timeval → Timeval
unfolding ◌-ℤ◌ borrow
difference a b = borrow (record { tv_sec = a.tv_sec -ℤ b.tv_sec; tv_usec = a.tv_usec -ℤ b.tv_usec })

unfoldable pub is_after : Timeval → Bool
is_after d = ltb_ℤ (pos 0) d.tv_sec || (is_zero d.tv_sec && ltb_ℤ (pos 0) d.tv_usec)

-- The carry is taken above a million, not at it.
unfoldable pub advance : Timeval → Timeval → Timeval
unfolding ◌-ℤ◌ ◌+ℤ◌
advance t rate =
    let sec = t.tv_sec +ℤ rate.tv_sec in
    let usec = t.tv_usec +ℤ rate.tv_usec in
    if ltb_ℤ (pos 1000000) usec
    then record { tv_sec = sec +ℤ pos 1; tv_usec = usec -ℤ pos 1000000 }
    else record { tv_sec = sec; tv_usec = usec }

-- `/= 2`, which rounds towards 0.
abbrev pub half : ℤ → ℤ
half (pos n) = pos (n / 2)
half (negsuc n) = sub_ℕ 0 (suc n / 2)

unfoldable pub average : Timeval → Timeval → Timeval
unfolding ◌+ℤ◌
average r d = record {
  tv_sec = half (r.tv_sec +ℤ d.tv_sec);
  tv_usec = half (r.tv_usec +ℤ d.tv_usec);
}

-- `tv_sec * 1000000 + tv_usec`.
unfoldable pub micros : Timeval → ℤ
unfolding ◌+ℤ◌ ◌*ℤ◌
micros t = (t.tv_sec *ℤ pos 1000000) +ℤ t.tv_usec
