-- ===== src/Parse/Streaming/Hang.antt =====
-- The loop of `uvc_scan_streaming` on a block without a length.
use tcluvc.Prelude.{ℕ, ◌≤◌, ◌≡◌, ◌⊎◌, inl, inr, List, length, done, stuck, arith}
use tcluvc.Prelude.Int.{pos}
use tcluvc.Bytes.{byte_at}
use tcluvc.Descriptors.{StreamingInterface}
use tcluvc.Parse.Scan.{scan}
use tcluvc.Parse.Scan.Laws.{scan_hangs}
use tcluvc.Parse.Streaming.{parse_block, parse_vs}

-- UVC_VS_UNDEFINED, a header of output, a still image, or a subtype above those that the program
-- knows.
abbrev pub IsSkipped : ℕ → Type 0
IsSkipped t = (t ≡ 0x00) ⊎ (t ≡ 0x02) ⊎ (t ≡ 0x03) ⊎ (0x12 ≤ t)

skips :
    (s : StreamingInterface) (p : List ℕ) → IsSkipped (byte_at p 2) → parse_vs s p ≡ done (pos 0, s)
unfolding parse_vs parse_block
skips s p (inl e) = ground (arith, e)
skips s p (inr (inl e)) = ground (arith, e)
skips s p (inr (inr (inl e))) = ground (arith, e)
skips s p (inr (inr (inr e))) = ground (arith, e)

-- Where three bytes or more are left, the first of them 0, and the third a subtype that the program
-- skips, the loop of `uvc_scan_streaming` goes on for ever: however many rounds it is given, it
-- needs more.
pub scan-IsSkipped :
    (fuel : ℕ) (s : StreamingInterface) (p : List ℕ)
    → byte_at p 0 ≡ 0
    → IsSkipped (byte_at p 2)
    → 3 ≤ length p
    → scan parse_vs fuel s p ≡ stuck
scan-IsSkipped fuel s p empty skipped some =
    scan_hangs parse_vs fuel s p (skips s p skipped) empty some
