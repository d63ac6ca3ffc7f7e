-- ===== src/Parse/Termination.antt =====
-- The scans of the descriptors end where no block is empty.
use tcluvc.Prelude.{
  ℕ, suc, ◌+◌, ◌≡◌, ◌≢◌, refl, Bool, true, false, not, Option, none, some, List, [], ◌∷◌, ◌++◌,
  length, ◌==◌, if◌then◌else◌, Run, done, fault, stuck, after, arith, get_elem?, Bool-cases, inl,
  inr,
}
use tcluvc.Prelude.Int.{pos}
use tcluvc.Bytes.{byte_at}
use tcluvc.Descriptors.{FrameDesc, FormatDesc, StreamingInterface, DeviceInfo}
use tcluvc.Usb
use tcluvc.Usb.{is_zero}
use tcluvc.Usb.Config.{AltSetting}
use tcluvc.Parse.Scan.{reading}
use tcluvc.Parse.Scan.Laws.{HasProgress, scan-HasProgress}
use tcluvc.Parse.Streaming.{
  add_frame, with_intervals, append_frame, parse_vs_input_header, parse_vs_format_uncompressed,
  parse_vs_frame_format, parse_vs_format_mjpeg, parse_vs_frame_frame, parse_vs_frame_uncompressed,
  parse_block, parse_vs, scan_streaming,
}
use tcluvc.Parse.Control.{
  parse_vc_input_terminal, parse_vc_processing_unit, parse_vc_selector_unit,
  parse_vc_extension_unit, scan_interfaces, parse_vc_header, parse_vc, find_control, scan_control,
  is_video_control, have_tis_camera,
}

after_ends :
    {A B : Type 0} (f : A → Run B) (r : Run A)
    → r ≢ stuck
    → ((a : A) → f a ≢ stuck)
    → after r f ≢ stuck
after_ends f (done a) h g = g a
after_ends f fault h g = ground arith
after_ends f stuck h g = absurd (h refl)

if_ends :
    {A : Type 0} (b : Bool) (r r' : Run A) → r ≢ stuck → r' ≢ stuck → (if b then r else r') ≢ stuck
if_ends true r r' h h' = h
if_ends false r r' h h' = h'

fault_ends : {A : Type 0} → ◌≢◌ {A = Run A} fault stuck
fault_ends = ground arith

done_ends : {A : Type 0} (a : A) → done a ≢ stuck
done_ends a = ground arith

reading_ends : {A : Type 0} (p : List ℕ) (n : ℕ) (a : A) → reading p n a ≢ stuck
reading_ends p n a = ground arith

add_frame_ends : (f : FrameDesc) (gs : List FormatDesc) → add_frame f gs ≢ stuck
unfolding add_frame
add_frame_ends f [] = ground arith
add_frame_ends f (g ∷ []) = ground arith
add_frame_ends f (g ∷ h ∷ gs) =
    after_ends _ (add_frame f (h ∷ gs)) (add_frame_ends f (h ∷ gs)) (λ rest. ground arith)

append_frame_ends :
    (s : StreamingInterface) (r : Run FrameDesc) → r ≢ stuck → after r (append_frame s) ≢ stuck
append_frame_ends s r h = after_ends _ r h (λ f.
    after_ends _ (add_frame f s.format_descs) (add_frame_ends f s.format_descs)
      (λ fs. ground arith))

with_intervals_ends : (p : List ℕ) (kind : ℕ) (f : FrameDesc) → with_intervals p kind f ≢ stuck
unfolding with_intervals
with_intervals_ends p kind f = ground arith

parse_block_ends : (s : StreamingInterface) (p : List ℕ) → parse_block s p ≢ stuck
unfolding parse_block
parse_block_ends s p =
    ground (arith, header, uncompressed, format, mjpeg, frame_uncompressed, frame_frame)
  where
    header : parse_vs_input_header s p ≢ stuck
    header = reading_ends p 9 _

    uncompressed : parse_vs_format_uncompressed s p ≢ stuck
    uncompressed = reading_ends p 27 _

    format : parse_vs_frame_format s p ≢ stuck
    format = reading_ends p 28 _

    mjpeg : parse_vs_format_mjpeg s p ≢ stuck
    mjpeg = reading_ends p 11 _

    frame_uncompressed : parse_vs_frame_uncompressed s p ≢ stuck
    frame_uncompressed = append_frame_ends s _ (with_intervals_ends p (byte_at p 25) _)

    frame_frame : parse_vs_frame_frame s p ≢ stuck
    frame_frame = append_frame_ends s _ (with_intervals_ends p (byte_at p 21) _)

parse_vs_ends : (s : StreamingInterface) (p : List ℕ) → parse_vs s p ≢ stuck
unfolding parse_vs
parse_vs_ends s p = after_ends _ (parse_block s p) (parse_block_ends s p) (λ s'. ground arith)

-- No interface of a configuration has an empty block in its first setting.
abbrev pub NoEmptyBlock : List (List AltSetting) → Type 0
NoEmptyBlock config =
    (i : ℕ) (alt : AltSetting) (alts : List AltSetting)
    → get_elem? config i ≡ some (alt ∷ alts)
    → HasProgress alt.extra

scan_streaming_ends :
    (config : List (List AltSetting)) (i : ℕ)
    → NoEmptyBlock config
    → scan_streaming config i ≢ stuck
unfolding scan_streaming
scan_streaming_ends config i h = go (get_elem? config i) refl
  where
    go : (o : Option (List AltSetting)) → get_elem? config i ≡ o → scan_streaming config i ≢ stuck
    go none e = rw (scan_streaming, e) (ground arith)
    go (some []) e = rw (scan_streaming, e) (ground arith)
    go (some (alt ∷ alts)) e =
        rw (scan_streaming, e)
          (scan-HasProgress parse_vs parse_vs_ends (suc (length alt.extra)) _ alt.extra
            (h i alt alts e) (omega arith))

module _ (config : List (List AltSetting)) (no_empty : NoEmptyBlock config) where
  scan_interfaces_ends :
      (info : DeviceInfo) (is : List ℕ) (inside : Bool)
      → scan_interfaces config info is inside ≢ stuck
  unfolding scan_interfaces
  scan_interfaces_ends info [] inside = ground arith
  scan_interfaces_ends info (i ∷ is) inside =
      after_ends _ (scan_streaming config i) (scan_streaming_ends config i no_empty) (λ r. ground (
        arith,
        scan_interfaces_ends (record info { stream_ifs = info.stream_ifs ++ (r.1 ∷ []) }) is inside,
      ))

  parse_vc_header_ends :
      (info : DeviceInfo) (p : List ℕ) (n : ℕ) → parse_vc_header config info p n ≢ stuck
  unfolding parse_vc_header
  parse_vc_header_ends info p n = search (if_ends, fault_ends, done_ends, scan_interfaces_ends)

  input_terminal_ends : (info : DeviceInfo) (p : List ℕ) → parse_vc_input_terminal info p ≢ stuck
  unfolding parse_vc_input_terminal
  input_terminal_ends info p = search (if_ends, fault_ends, done_ends, reading_ends)

  processing_unit_ends : (info : DeviceInfo) (p : List ℕ) → parse_vc_processing_unit info p ≢ stuck
  unfolding parse_vc_processing_unit
  processing_unit_ends info p = search (if_ends, fault_ends, reading_ends)

  selector_unit_ends : (info : DeviceInfo) (p : List ℕ) → parse_vc_selector_unit info p ≢ stuck
  unfolding parse_vc_selector_unit
  selector_unit_ends info p = reading_ends p 4 _

  extension_unit_ends : (info : DeviceInfo) (p : List ℕ) → parse_vc_extension_unit info p ≢ stuck
  unfolding parse_vc_extension_unit
  extension_unit_ends info p = search (if_ends, fault_ends, reading_ends)

  parse_vc_ends : (info : DeviceInfo) (p : List ℕ) → parse_vc config info p ≢ stuck
  unfolding parse_vc
  parse_vc_ends info p = if_ends (not (byte_at p 1 == 36)) _ _ (done_ends _) (
      if_ends (byte_at p 2 == 0x01) _ _ (parse_vc_header_ends info p (byte_at p 0)) (
        if_ends (byte_at p 2 == 0x02) _ _ (input_terminal_ends info p) (
          if_ends (byte_at p 2 == 0x03) _ _ (done_ends (pos 0, info)) (
            if_ends (byte_at p 2 == 0x04) _ _ (selector_unit_ends info p) (
              if_ends (byte_at p 2 == 0x05) _ _ (processing_unit_ends info p) (
                if_ends (byte_at p 2 == 0x06) _ _ (extension_unit_ends info p)
                  (done_ends (Usb.Error.invalid_device, info))))))))

-- What follows the search for the VideoControl interface ends if it does on every interface that
-- the configuration has.
find_control_ends :
    {A : Type 0} (tis : Bool) (f : Option (ℕ × AltSetting) → Run A)
    → f none ≢ stuck
    → (idx : ℕ) (is : List (List AltSetting))
    → ((k i : ℕ) (alt : AltSetting) (alts : List AltSetting)
        → get_elem? is i ≡ some (alt ∷ alts)
        → f (some (k, alt)) ≢ stuck)
    → after (find_control tis idx is) f ≢ stuck
unfolding find_control
find_control_ends tis f h_none idx [] h = h_none
find_control_ends tis f h_none idx ([] ∷ is) h = fault_ends
find_control_ends tis f h_none idx ((alt ∷ alts) ∷ is) h =
    elim (Bool-cases (is_video_control tis alt)) [
      | inl e ↦ rw e (h idx 0 alt alts refl)
      | inr e ↦ rw e (find_control_ends tis f h_none (idx + 1) is (λ k i. h k (suc i)))
    ]

-- Where no interface of the configuration has an empty block, the scan of the device's descriptors
-- ends: with a result, or by an access outside the descriptors or through NULL.
pub scan_control-NoEmptyBlock :
    (config : List (List AltSetting)) (vendor product : ℕ) (info : DeviceInfo)
    → NoEmptyBlock config
    → scan_control config vendor product info ≢ stuck
unfolding scan_control
scan_control-NoEmptyBlock config vendor product info h =
    find_control_ends (have_tis_camera vendor product) _ (done_ends _) 0 config (λ k i alt alts e.
      scan-HasProgress (parse_vc config) (parse_vc_ends config h) _ _ alt.extra (h i alt alts e)
        (omega arith))
