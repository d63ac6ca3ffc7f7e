-- ===== src/StreamCtrl/Formats.antt =====
-- The format table of libuvc/src/stream.c: `_get_format_entry`, `_uvc_frame_format_matches_guid`
-- and `uvc_frame_format_for_guid`.
pub mod Laws
use tcluvc.Prelude.{
  ℕ, zero, suc, ◌≡◌, refl, ◌+◌, Bool, true, false, not, ◌&&◌, ◌||◌, Option, none, some, List, [],
  ◌∷◌, ◌++◌, replicate, ◌==◌, if◌then◌else◌,
}
use tcluvc.Stream.Payload.{same_bytes}

-- `enum uvc_frame_format`; UVC_FRAME_FORMAT_UNKNOWN is `any` too.
pub data FrameFormat : Type 0 where
  any uncompressed compressed yuyv uyvy rgb bgr mjpeg gray8 gray16 by8 ba81 sgrbg8 sgbrg8 srggb8
        sbggr8 :
      FrameFormat

pub record FormatEntry : Type 0 where
  pub abstract_fmt : Bool
  pub guid : List ℕ
  pub children : List FrameFormat

-- ABS_FMT, which sets `abstract_fmt` to 0 like FMT, and FMT.
abbrev pub abs_fmt : List FrameFormat → Option FormatEntry
abs_fmt cs = some (record { abstract_fmt = false; guid = replicate 16 0; children = cs })

abbrev pub fmt : List ℕ → Option FormatEntry
fmt g = some (record { abstract_fmt = false; guid = g; children = [] })

-- The twelve bytes that the GUIDs of most formats share.
abbrev pub guid_tail : List ℕ
guid_tail = 0 ∷ 0 ∷ 0x10 ∷ 0 ∷ 0x80 ∷ 0 ∷ 0 ∷ 0xaa ∷ 0 ∷ 0x38 ∷ 0x9b ∷ 0x71 ∷ []

unfoldable pub get_format_entry : FrameFormat → Option FormatEntry
get_format_entry any = abs_fmt (uncompressed ∷ compressed ∷ [])
get_format_entry uncompressed = abs_fmt (yuyv ∷ uyvy ∷ gray8 ∷ gray16 ∷ [])
get_format_entry yuyv = fmt (0x59 ∷ 0x55 ∷ 0x59 ∷ 0x32 ∷ guid_tail)
get_format_entry uyvy = fmt (0x55 ∷ 0x59 ∷ 0x56 ∷ 0x59 ∷ guid_tail)
get_format_entry gray8 = fmt (0x59 ∷ 0x38 ∷ 0x30 ∷ 0x30 ∷ guid_tail)
get_format_entry gray16 = fmt (0x59 ∷ 0x31 ∷ 0x36 ∷ 0x20 ∷ guid_tail)
get_format_entry by8 = fmt (0x42 ∷ 0x59 ∷ 0x38 ∷ 0x20 ∷ guid_tail)
get_format_entry ba81 = fmt (0x42 ∷ 0x41 ∷ 0x38 ∷ 0x31 ∷ guid_tail)
get_format_entry sgrbg8 = fmt (0x47 ∷ 0x52 ∷ 0x42 ∷ 0x47 ∷ guid_tail)
get_format_entry sgbrg8 = fmt (0x47 ∷ 0x42 ∷ 0x52 ∷ 0x47 ∷ guid_tail)
get_format_entry srggb8 = fmt (0x52 ∷ 0x47 ∷ 0x47 ∷ 0x42 ∷ guid_tail)
get_format_entry sbggr8 = fmt (0x42 ∷ 0x47 ∷ 0x47 ∷ 0x52 ∷ guid_tail)
get_format_entry compressed = abs_fmt (mjpeg ∷ [])
get_format_entry mjpeg = fmt (0x4d ∷ 0x4a ∷ 0x50 ∷ 0x47 ∷ replicate 12 0)
get_format_entry rgb = none
get_format_entry bgr = none

abbrev pub any_of {ℓ} : {A : Type ℓ} → (A → Bool) → List A → Bool
any_of p [] = false
any_of p (x ∷ xs) = p x || any_of p xs

-- The recursion of `_uvc_frame_format_matches_guid` on fuel, the number of levels that it may go
-- down.
unfoldable pub matches_on : ℕ → FrameFormat → List ℕ → Bool
unfolding get_format_entry
matches_on zero f guid = false
matches_on (suc n) f guid = elim (get_format_entry f) [
  | none ↦ false
  | some e ↦
      (not e.abstract_fmt && same_bytes guid e.guid) || any_of (λ c. matches_on n c guid) e.children
]

-- The table has three levels.
unfoldable pub matches_guid : FrameFormat → List ℕ → Bool
matches_guid = matches_on 3

unfoldable pub first_with : List FrameFormat → List ℕ → FrameFormat
unfolding get_format_entry
first_with [] guid = any
first_with (f ∷ fs) guid =
    let rest = first_with fs guid in
    elim (get_format_entry f) [
      | none ↦ rest
      | some e ↦ if not e.abstract_fmt && same_bytes e.guid guid then f else rest
    ]

-- The formats in the order of the enumeration.
abbrev pub all_formats : List FrameFormat
all_formats =
    any ∷ uncompressed ∷ compressed ∷ yuyv ∷ uyvy ∷ rgb ∷ bgr ∷ mjpeg ∷ gray8 ∷ gray16 ∷ by8 ∷ ba81
    ∷ sgrbg8 ∷ sgbrg8 ∷ srggb8 ∷ sbggr8 ∷ []

unfoldable pub frame_format_for_guid : List ℕ → FrameFormat
frame_format_for_guid = first_with all_formats
