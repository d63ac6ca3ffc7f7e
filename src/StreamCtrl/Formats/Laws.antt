-- ===== src/StreamCtrl/Formats/Laws.antt =====
-- The two directions of the format table agree, and its recursion has fuel enough.
use tcluvc.Prelude.{
  ℕ, suc, ◌≡◌, refl, true, not, ◌&&◌, some, List, [], ◌∷◌, ◌⊎◌, inl, inr, arith, Bool-cases,
  Option-cases,
}
use mathlib.Core.Option
use tcluvc.Stream.Payload.{same_bytes}
use tcluvc.StreamCtrl.Formats.{
  FrameFormat, any, uncompressed, compressed, yuyv, rgb, bgr, get_format_entry, matches_on,
  matches_guid, first_with, all_formats, frame_format_for_guid,
}

-- Three levels are enough: more fuel finds the same.
pub matches_on-enough :
    (n : ℕ) (f : FrameFormat) (guid : List ℕ)
    → matches_on (suc (suc (suc n))) f guid ≡ matches_guid f guid
unfolding matches_guid matches_on get_format_entry
matches_on-enough n any guid = refl
matches_on-enough n _ guid = refl

same_bytes_sym : (xs ys : List ℕ) → same_bytes xs ys ≡ same_bytes ys xs
unfolding same_bytes
same_bytes_sym [] [] = refl
same_bytes_sym [] (y ∷ ys) = refl
same_bytes_sym (x ∷ xs) [] = refl
same_bytes_sym (x ∷ xs) (y ∷ ys) = ground (arith, same_bytes_sym xs ys)

first_with_step :
    (f : FrameFormat) (fs : List FrameFormat) (guid : List ℕ)
    → (first_with (f ∷ fs) guid ≡ first_with fs guid)
      ⊎ ((first_with (f ∷ fs) guid ≡ f) × (matches_guid f guid ≡ true))
unfolding first_with matches_guid matches_on
first_with_step f fs guid = elim (Option-cases (get_format_entry f)) [
  | inl n ↦ inl (ground (arith, n))
  | inr (e, h) ↦ elim (Bool-cases (not e.abstract_fmt && same_bytes e.guid guid)) [
    | inr other ↦ inl (ground (arith, h, other))
    | inl same ↦ inr (ground (arith, h, same), ground (arith, h, same, same_bytes_sym e.guid guid))
  ]
]

first_with-matches :
    (fs : List FrameFormat) (guid : List ℕ)
    → (first_with fs guid ≡ any) ⊎ (matches_guid (first_with fs guid) guid ≡ true)
unfolding first_with
first_with-matches [] guid = inl refl
first_with-matches (f ∷ fs) guid = elim (first_with_step f fs guid) [
  | inl skip ↦ rw skip (first_with-matches fs guid)
  | inr (take, m) ↦ rw take (inr m)
]

-- The format that is found for a GUID is one that the GUID matches, or it is "unknown".
pub format_for_guid-matches :
    (guid : List ℕ)
    → (frame_format_for_guid guid ≡ any) ⊎ (matches_guid (frame_format_for_guid guid) guid ≡ true)
unfolding frame_format_for_guid
format_for_guid-matches guid = first_with-matches all_formats guid

-- The GUID of every format of the table that stands for no others leads back to the format.
pub format_for_guid-entry :
    (f : FrameFormat)
    → Option.map (λ e. e.children) (get_format_entry f) ≡ some []
    → Option.map (λ e. frame_format_for_guid e.guid) (get_format_entry f) ≡ some f
unfolding get_format_entry frame_format_for_guid first_with same_bytes
format_for_guid-entry any h = ground arith
format_for_guid-entry uncompressed h = ground arith
format_for_guid-entry compressed h = ground arith
format_for_guid-entry rgb h = ground arith
format_for_guid-entry bgr h = ground arith
format_for_guid-entry yuyv h = refl
format_for_guid-entry _ h = refl
