-- ===== src/Parse/Tests.antt =====
-- A camera's descriptors: a selector unit, and a streaming interface with one MJPEG format.
use mathlib.Core.Path.{subst}
use tcluvc.Prelude.{
  ℕ, zero, suc, ◌≡◌, ◌≢◌, refl, ap, inl, Option, some, List, [], ◌∷◌, replicate, arith, done, stuck,
}
use tcluvc.Prelude.Int.{pos}
use tcluvc.Bytes.{byte_at, int_to_dw, short_to_sw}
use tcluvc.Descriptors.{FrameDesc, FormatDesc, DeviceInfo}
use tcluvc.Usb.Config.{AltSetting}
use tcluvc.Parse.Scan.{scan}
use tcluvc.Parse.Scan.Laws.{HasProgress, next_block, rest_short}
use tcluvc.Parse.Streaming.{parse_vs, new_interface, scan_streaming}
use tcluvc.Parse.Streaming.Encode.{
  Payload, mjpeg, encode_interface, encode_formats, encode_frames, encode_others, words, OtherBlock,
  colour_matching, InputHeader, IsHeader, formats_of, AllFormats, no_formats, format_then,
  no_frames, frame_then, no_words, word_then,
}
use tcluvc.Parse.Streaming.RoundTrip.Interface.{scan_streaming-encode_interface}
use tcluvc.Parse.Streaming.Hang.{scan-IsSkipped}
use tcluvc.Parse.Control.{scan_control, find_control, parse_vc, parse_vc_selector_unit}
use tcluvc.Parse.Termination.{NoEmptyBlock, scan_control-NoEmptyBlock}

abbrev vga : FrameDesc
vga = record {
  subtype = 7;
  frame_index = 1;
  capabilities = 0;
  width = 640;
  height = 480;
  min_bit_rate = 1000000;
  max_bit_rate = 90000000;
  max_video_frame_buffer_size = 614400;
  default_frame_interval = 333333;
  min_frame_interval = 0;
  max_frame_interval = 0;
  frame_interval_step = 0;
  frame_interval_type = 2;
  bytes_per_line = 0;
  intervals = some (333333 ∷ 666666 ∷ []);
}

abbrev mjpeg_format : FormatDesc
mjpeg_format = record {
  subtype = 6;
  format_index = 1;
  num_frame_descriptors = 0;
  guid = 0x4d ∷ 0x4a ∷ 0x50 ∷ 0x47 ∷ replicate 12 0;
  bits_per_pixel = 0;
  default_frame_index = 1;
  aspect_ratio_x = 4;
  aspect_ratio_y = 3;
  interlace_flags = 0;
  copy_protect = 0;
  variable_size = 0;
  frame_descs = vga ∷ [];
}

abbrev formats : List (Payload × FormatDesc × List OtherBlock)
formats = (mjpeg 1, mjpeg_format, colour_matching (1 ∷ 1 ∷ 4 ∷ []) ∷ []) ∷ []

-- One control byte for the one format.
abbrev header : InputHeader
header = record {
  address = 0x81;
  info = 0;
  terminal = 3;
  still_capture = 0;
  trigger_support = 0;
  trigger_usage = 0;
  control_size = 1;
  controls = 4 ∷ [];
}

abbrev setting : ℕ → ℕ → List ℕ → AltSetting
setting number subclass extra = record {
  interface_number = number;
  alternate_setting = 0;
  interface_class = 14;
  interface_subclass = subclass;
  endpoints = [];
  extra = extra;
}

abbrev camera : List (List AltSetting)
camera =
    (setting 0 1 (4 ∷ 36 ∷ 4 ∷ 9 ∷ []) ∷ [])
    ∷ (setting 1 2 (encode_interface header formats) ∷ [])
    ∷ []

header_fits : IsHeader header formats
unfolding encode_interface encode_formats encode_frames encode_others words int_to_dw short_to_sw
header_fits = record { for_each_format = refl; one_byte = omega arith; two_bytes = omega arith }

formats_fit : AllFormats formats
formats_fit =
    format_then
      (record {
        subtype = refl;
        payload = (refl, refl, refl, refl);
        frames =
            frame_then
              (record {
                subtype = refl;
                width = omega arith;
                height = omega arith;
                min_bit_rate = omega arith;
                max_bit_rate = omega arith;
                buffer_size = omega arith;
                default_interval = omega arith;
                bytes_per_line = omega arith;
                unused = refl;
                intervals = (
                  refl,
                  omega arith,
                  refl,
                  refl,
                  refl,
                  word_then (omega arith) (word_then (omega arith) no_words),
                );
              })
              no_frames;
      })
      no_formats

scan_streaming-encode_interface_example :
    scan_streaming camera 1
    ≡ done (
      pos 0,
      record {
        interface_number = 1;
        endpoint_address = 0x81;
        terminal_link = 3;
        format_descs = mjpeg_format ∷ [];
      },
    )
unfolding formats_of
scan_streaming-encode_interface_example =
    scan_streaming-encode_interface camera 1 header _ [] formats refl refl header_fits refl
      formats_fit

-- A camera with a selector unit only.
abbrev selector_camera : List (List AltSetting)
selector_camera = (setting 0 1 (4 ∷ 36 ∷ 4 ∷ 9 ∷ []) ∷ []) ∷ []

abbrev first_extra : Option (List AltSetting) → List ℕ
first_extra (some (alt ∷ alts)) = alt.extra
first_extra _ = []

selector_progress : NoEmptyBlock selector_camera
unfolding byte_at
selector_progress zero alt alts e =
    subst HasProgress (ap first_extra e)
      (next_block (omega arith) (omega arith) (rest_short (omega arith)))
selector_progress (suc i) alt alts e = absurd (ground (arith, e))

abbrev no_info : DeviceInfo
no_info = record {
  ctrl_if = record {
    input_terms = [];
    selector_units = [];
    processing_units = [];
    extension_units = [];
    bcd_uvc = 0;
    clock_frequency = 0;
    endpoint_address = 0;
    interface_number = 0;
  };
  stream_ifs = [];
}

scan_control-NoEmptyBlock_example : scan_control selector_camera 0x046d 0x0825 no_info ≢ stuck
scan_control-NoEmptyBlock_example =
    scan_control-NoEmptyBlock selector_camera 0x046d 0x0825 no_info selector_progress

-- Padding behind the last block of an interface.
scan-IsSkipped_example : scan parse_vs 1000 (new_interface 1) (0 ∷ 0 ∷ 0 ∷ []) ≡ stuck
unfolding byte_at
scan-IsSkipped_example =
    scan-IsSkipped 1000 (new_interface 1) (0 ∷ 0 ∷ 0 ∷ []) refl (inl refl) (omega arith)

-- The selector unit is found.
unit_found :
    scan_control selector_camera 0x046d 0x0825 no_info
    ≡ done (
      pos 0,
      record no_info {
        ctrl_if = record no_info.ctrl_if { selector_units = record { unit_id = 9 } ∷ [] };
      },
    )
unfolding scan_control find_control parse_vc parse_vc_selector_unit scan byte_at
unit_found = refl
