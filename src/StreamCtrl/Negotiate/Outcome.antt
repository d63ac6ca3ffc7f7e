-- ===== src/StreamCtrl/Negotiate/Outcome.antt =====
-- What `uvc_get_stream_ctrl_format_size` finds, and what it does with it.
use tcluvc.Prelude.{
  ℕ, ◌≡◌, ◌≢◌, ◌⊎◌, inl, inr, refl, Bool, true, false, ◌&&◌, none, some, List, ◌∷◌, ◌==◌, arith,
  Bool-cases, Option-cases,
}
use tcluvc.Prelude.Int.{pos}
use tcluvc.Usb
use tcluvc.Usb.{Usb, is_zero}
use tcluvc.Descriptors.{FrameDesc, FormatDesc, StreamingInterface, DeviceInfo}
use tcluvc.StreamCtrl.Wire.{StreamCtrl}
use tcluvc.StreamCtrl.Formats.{matches_guid}
use tcluvc.StreamCtrl.Probe.{Probed, probe_stream_ctrl}
use tcluvc.StreamCtrl.Negotiate.{
  Wanted, search, try_range, try_frame, try_format, find_ctrl, get_stream_ctrl_format_size,
}
use tcluvc.StreamCtrl.Negotiate.Search.{Among, Among-map, All, All-map, search-Among, search-All}
use tcluvc.StreamCtrl.Negotiate.Fits.{IsFrameFound, try_format_found}

-- The block names an interface of the device, a format of it that is a wanted one, and a frame of
-- that with the wanted size and rate.
abbrev pub IsFound : DeviceInfo → Wanted → StreamCtrl → Type 0
IsFound info q c =
    Among
      (λ i.
        Among
          (λ f.
            (matches_guid q.format f.guid ≡ true)
            × Among (λ d. IsFrameFound q i f d c) f.frame_descs)
          i.format_descs)
      info.stream_ifs

find_ctrl-IsFound :
    (usb : Usb) (info : DeviceInfo) (q : Wanted) (s s' : StreamCtrl × usb.World)
    → find_ctrl usb info q s ≡ some (true, s')
    → IsFound info q s'.0
unfolding find_ctrl
find_ctrl-IsFound usb info q s s' e =
    Among-map info.stream_ifs
      (λ i (s₀, g).
        Among-map i.format_descs (λ f (s₁, h). try_format_found usb info q i f s₁ s' h)
          (search-Among (try_format usb info q i) i.format_descs s₀ s' g))
      (search-Among (λ i. search (try_format usb info q i) i.format_descs) info.stream_ifs s s' e)

-- If the negotiation runs to its end, the search found no frame and the result is "invalid mode",
-- or the search found a block for a frame of the wanted format, size and rate, and the results are
-- those of a probe of it, or, where that fails, of a second one that may negotiate the interval.
pub format_size_outcome :
    (usb : Usb) (info : DeviceInfo) (w : usb.World) (m : ℕ → Bool) (c : StreamCtrl) (q : Wanted)
    (r : Probed usb)
    → get_stream_ctrl_format_size usb info w m c q ≡ some r
    → ((r.0 ≡ Usb.Error.invalid_mode) × (r.2 ≡ m))
      ⊎ ((found : StreamCtrl) × (w₁ : usb.World) × IsFound info q found
          × ((r ≡ probe_stream_ctrl usb w₁ m info found)
              ⊎ (let (ret, c₂, m₂, w₂) = probe_stream_ctrl usb w₁ m info found in
                  (ret ≢ pos 0) × (r ≡ probe_stream_ctrl usb w₂ m₂ info (record c₂ { hint = 0 })))))
unfolding get_stream_ctrl_format_size
format_size_outcome usb info w m c q r e = elim (Option-cases (find_ctrl usb info q (c, w))) [
  | inl n ↦ ground (arith, e, n)
  | inr ((false, (c₁, w₁)), f) ↦ inl (ground (arith, e, f), ground (arith, e, f))
  | inr ((true, (c₁, w₁)), f) ↦
      inr (c₁, w₁, find_ctrl-IsFound usb info q (c, w) (c₁, w₁) f, ground (arith, e, f))
]

-- No frame of the format is wanted.
abbrev pub HasNone : Wanted → FormatDesc → Type 0
HasNone q f =
    (matches_guid q.format f.guid ≡ false)
    ⊎ All (λ d. (d.width == q.width && d.height == q.height) ≡ false) f.frame_descs

format_refuses :
    (usb : Usb) (info : DeviceInfo) (q : Wanted) (i : StreamingInterface) (f : FormatDesc)
    → HasNone q f
    → (s : StreamCtrl × usb.World) → try_format usb info q i f s ≡ some (false, s)
unfolding try_format try_frame
format_refuses usb info q i f (inl other) s = rw other refl
format_refuses usb info q i f (inr sizes) s = elim (Bool-cases (matches_guid q.format f.guid)) [
  | inr other ↦ rw other refl
  | inl m ↦ rw m (
      search-All (try_frame usb info q i f) f.frame_descs s
        (All-map f.frame_descs (λ d other s₀. rw other refl) sizes))
]

-- If no frame of a wanted format has the wanted size, the result is "invalid mode", nothing is
-- sent to the device, and the control block stays.
pub format_size_refuses :
    (usb : Usb) (info : DeviceInfo) (w : usb.World) (m : ℕ → Bool) (c : StreamCtrl) (q : Wanted)
    → All (λ i. All (HasNone q) i.format_descs) info.stream_ifs
    → get_stream_ctrl_format_size usb info w m c q ≡ some (Usb.Error.invalid_mode, c, m, w)
unfolding get_stream_ctrl_format_size find_ctrl
format_size_refuses usb info w m c q h = rw none_found refl
  where
    interface_refuses :
        (i : StreamingInterface)
        → All (HasNone q) i.format_descs
        → (s : StreamCtrl × usb.World)
        → search (try_format usb info q i) i.format_descs s ≡ some (false, s)
    interface_refuses i g s =
        search-All (try_format usb info q i) i.format_descs s
          (All-map i.format_descs (format_refuses usb info q i) g)

    none_found :
        search (λ i. search (try_format usb info q i) i.format_descs) info.stream_ifs (c, w)
        ≡ some (false, (c, w))
    none_found =
        search-All (λ i. search (try_format usb info q i) i.format_descs) info.stream_ifs (c, w)
          (All-map info.stream_ifs interface_refuses h)

-- With a rate of zero the negotiation divides by zero, if the first frame of the device has the
-- wanted format and size and a range of intervals in place of a list.
pub zero_rate_divides :
    (usb : Usb) (info : DeviceInfo) (w : usb.World) (m : ℕ → Bool) (c : StreamCtrl) (q : Wanted)
    (i : StreamingInterface) (f : FormatDesc) (d : FrameDesc) (is : List StreamingInterface)
    (fs : List FormatDesc) (ds : List FrameDesc)
    → info.stream_ifs ≡ i ∷ is
    → i.format_descs ≡ f ∷ fs
    → f.frame_descs ≡ d ∷ ds
    → matches_guid q.format f.guid ≡ true
    → d.width ≡ q.width
    → d.height ≡ q.height
    → d.intervals ≡ none
    → q.fps ≡ 0
    → get_stream_ctrl_format_size usb info w m c q ≡ none
unfolding get_stream_ctrl_format_size find_ctrl try_format try_frame try_range search
zero_rate_divides usb info w m c q i f d is fs ds is_i is_f is_d fits wide high range zero =
    rw (is_i, is_f, fits, is_d, size, range, zero)
  where
    size : (d.width == q.width && d.height == q.height) ≡ true
    size = ground arith
