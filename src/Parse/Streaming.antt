-- ===== src/Parse/Streaming.antt =====
-- The blocks of a VideoStreaming interface: `uvc_parse_vs`, the functions that it calls, and
-- `uvc_scan_streaming` (libuvc/src/device.c). `block_size` is not read, so it is left out.
pub mod Encode
pub mod RoundTrip
pub mod Hang
use tcluvc.Prelude.{
  ℕ, zero, suc, ◌+◌, ◌*◌, ◌/◌, ◌%◌, ◌^◌, Bool, Option, none, some, List, [], ◌∷◌, ◌++◌, length,
  take, drop, replicate, leb, ◌||◌, ◌==◌, if◌then◌else◌, Run, done, fault, stuck, after, get_elem?,
}
use tcluvc.Prelude.Int.{ℤ, pos}
use tcluvc.Bytes.{byte_at, sw_to_short, dw_to_int}
use tcluvc.Descriptors.{FrameDesc, FormatDesc, StreamingInterface}
use tcluvc.Usb.Config.{AltSetting}
use tcluvc.Parse.Scan.{scan, reading}

-- `x & 0x8f`.
abbrev pub endpoint_bits : ℕ → ℕ
endpoint_bits x = x / 128 % 2 * 128 + x % 16

unfoldable pub parse_vs_input_header : StreamingInterface → List ℕ → Run StreamingInterface
parse_vs_input_header s p =
    reading p 9
      (record s { endpoint_address = endpoint_bits (byte_at p 6); terminal_link = byte_at p 8 })

-- DL_APPEND to the formats.
abbrev pub add_format : StreamingInterface → FormatDesc → StreamingInterface
add_format s f = record s { format_descs = s.format_descs ++ (f ∷ []) }

unfoldable pub parse_vs_format_uncompressed : StreamingInterface → List ℕ → Run StreamingInterface
parse_vs_format_uncompressed s p = reading p 27 (
    add_format s (record {
      subtype = byte_at p 2;
      format_index = byte_at p 3;
      num_frame_descriptors = 0;
      guid = take 16 (drop 5 p);
      bits_per_pixel = byte_at p 21;
      default_frame_index = byte_at p 22;
      aspect_ratio_x = byte_at p 23;
      aspect_ratio_y = byte_at p 24;
      interlace_flags = byte_at p 25;
      copy_protect = byte_at p 26;
      variable_size = 0;
      frame_descs = [];
    }))

unfoldable pub parse_vs_frame_format : StreamingInterface → List ℕ → Run StreamingInterface
parse_vs_frame_format s p = reading p 28 (
    add_format s (record {
      subtype = byte_at p 2;
      format_index = byte_at p 3;
      num_frame_descriptors = byte_at p 4;
      guid = take 16 (drop 5 p);
      bits_per_pixel = byte_at p 21;
      default_frame_index = byte_at p 22;
      aspect_ratio_x = byte_at p 23;
      aspect_ratio_y = byte_at p 24;
      interlace_flags = byte_at p 25;
      copy_protect = byte_at p 26;
      variable_size = byte_at p 27;
      frame_descs = [];
    }))

-- `bmFlags` shares its byte with `bBitsPerPixel`, which is set to 0 behind it.
unfoldable pub parse_vs_format_mjpeg : StreamingInterface → List ℕ → Run StreamingInterface
parse_vs_format_mjpeg s p = reading p 11 (
    add_format s (record {
      subtype = byte_at p 2;
      format_index = byte_at p 3;
      num_frame_descriptors = 0;
      guid = 0x4d ∷ 0x4a ∷ 0x50 ∷ 0x47 ∷ replicate 12 0;
      bits_per_pixel = 0;
      default_frame_index = byte_at p 6;
      aspect_ratio_x = byte_at p 7;
      aspect_ratio_y = byte_at p 8;
      interlace_flags = byte_at p 9;
      copy_protect = byte_at p 10;
      variable_size = 0;
      frame_descs = [];
    }))

-- DL_APPEND to the frames of the last format; without a format, `format_descs` is NULL.
unfoldable pub add_frame : FrameDesc → List FormatDesc → Run (List FormatDesc)
add_frame f [] = fault
add_frame f (g ∷ []) = done (record g { frame_descs = g.frame_descs ++ (f ∷ []) } ∷ [])
add_frame f (g ∷ h ∷ gs) = after (add_frame f (h ∷ gs)) (λ rest. done (g ∷ rest))

-- So many intervals from an offset.
unfoldable pub read_intervals : List ℕ → ℕ → ℕ → List ℕ
unfolding dw_to_int
read_intervals p off zero = []
read_intervals p off (suc n) = dw_to_int p off ∷ read_intervals p (off + 4) n

-- The intervals of a frame, `kind` of them, or a range if that is 0.
unfoldable pub with_intervals : List ℕ → ℕ → FrameDesc → Run FrameDesc
with_intervals p kind f =
    if kind == 0
    then reading p 38 (record f {
      min_frame_interval = dw_to_int p 26;
      max_frame_interval = dw_to_int p 30;
      frame_interval_step = dw_to_int p 34;
    })
    else reading p (26 + kind * 4) (record f { intervals = some (read_intervals p 26 kind) })

-- What the two kinds of frame blocks have in common.
abbrev pub frame_head : List ℕ → FrameDesc
frame_head p = record {
  subtype = byte_at p 2;
  frame_index = byte_at p 3;
  capabilities = byte_at p 4;
  width = byte_at p 5 + byte_at p 6 * 256;
  height = byte_at p 7 + byte_at p 8 * 256;
  min_bit_rate = dw_to_int p 9;
  max_bit_rate = dw_to_int p 13;
  max_video_frame_buffer_size = 0;
  default_frame_interval = 0;
  min_frame_interval = 0;
  max_frame_interval = 0;
  frame_interval_step = 0;
  frame_interval_type = 0;
  bytes_per_line = 0;
  intervals = none;
}

abbrev pub append_frame : StreamingInterface → FrameDesc → Run StreamingInterface
append_frame s f = after (add_frame f s.format_descs) (λ fs. done (record s { format_descs = fs }))

unfoldable pub read_frame_frame : List ℕ → Run FrameDesc
read_frame_frame p = with_intervals p (byte_at p 21) (record (frame_head p) {
  default_frame_interval = dw_to_int p 17;
  frame_interval_type = byte_at p 21;
  bytes_per_line = dw_to_int p 22;
})

unfoldable pub read_frame_uncompressed : List ℕ → Run FrameDesc
read_frame_uncompressed p = with_intervals p (byte_at p 25) (record (frame_head p) {
  max_video_frame_buffer_size = dw_to_int p 17;
  default_frame_interval = dw_to_int p 21;
  frame_interval_type = byte_at p 25;
})

unfoldable pub parse_vs_frame_frame : StreamingInterface → List ℕ → Run StreamingInterface
unfolding read_frame_frame
parse_vs_frame_frame s p = after (read_frame_frame p) (append_frame s)

unfoldable pub parse_vs_frame_uncompressed : StreamingInterface → List ℕ → Run StreamingInterface
unfolding read_frame_uncompressed
parse_vs_frame_uncompressed s p = after (read_frame_uncompressed p) (append_frame s)

-- The block by its subtype; the others are skipped.
unfoldable pub parse_block : StreamingInterface → List ℕ → Run StreamingInterface
unfolding parse_vs_input_header parse_vs_format_uncompressed parse_vs_format_mjpeg
    parse_vs_frame_uncompressed parse_vs_frame_format parse_vs_frame_frame
parse_block s p =
    let subtype = byte_at p 2 in
    if subtype == 0x01
    then parse_vs_input_header s p
    else if subtype == 0x04
    then parse_vs_format_uncompressed s p
    else if subtype == 0x06
    then parse_vs_format_mjpeg s p
    else if subtype == 0x05 || subtype == 0x07
    then parse_vs_frame_uncompressed s p
    else if subtype == 0x10
    then parse_vs_frame_format s p
    else if subtype == 0x11
    then parse_vs_frame_frame s p
    else done s

-- The functions for a block have no failure to return.
unfoldable pub parse_vs : StreamingInterface → List ℕ → Run (ℤ × StreamingInterface)
unfolding parse_block
parse_vs s p = after (parse_block s p) (λ s'. done (pos 0, s'))

abbrev pub new_interface : ℕ → StreamingInterface
new_interface number = record {
  interface_number = number;
  endpoint_address = 0;
  terminal_link = 0;
  format_descs = [];
}

-- Every block takes a byte at least, or the loop never ends.
abbrev pub scan_blocks : StreamingInterface → List ℕ → Run (ℤ × StreamingInterface)
scan_blocks s p = scan parse_vs (suc (length p)) s p

-- The interface that the scan appends to the device's; with an interface outside the
-- configuration, or without a setting, the access is outside.
unfoldable pub scan_streaming : List (List AltSetting) → ℕ → Run (ℤ × StreamingInterface)
scan_streaming config interface_idx = elim (get_elem? config interface_idx) [
  | some (alt ∷ alts) ↦ scan_blocks (new_interface alt.interface_number) alt.extra
  | _ ↦ fault
]
