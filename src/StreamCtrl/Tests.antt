-- ===== src/StreamCtrl/Tests.antt =====
-- Each theorem on the control block at a device that keeps one block.
use tcluvc.Prelude.{
  ℕ, ◌≡◌, ◌≢◌, ◌⊎◌, refl, false, some, List, [], ◌∷◌, replicate, ◌==◌, if◌then◌else◌, arith,
}
use tcluvc.Prelude.Int.{pos, negsuc}
use tcluvc.Usb
use tcluvc.Usb.{Usb, Setup}
use tcluvc.Descriptors.{FrameDesc, DeviceInfo}
use tcluvc.StreamCtrl.Wire.{StreamCtrl, encode}
use tcluvc.StreamCtrl.Query.{commit, query_stream_ctrl, stream_ctrl}
use tcluvc.StreamCtrl.Query.Laws.{IsWord, HasFrameSize, query_reads_back, stream_ctrl_outcome}

-- A device that keeps the bytes of the last SET_CUR and answers all else with them.
abbrev pub echo : Usb
echo = record {
  World = List ℕ;
  control_transfer =
      λ w s buf n. if s.request == Usb.Request.set_cur then (pos n, buf, buf) else (pos n, w, w);
  detach_kernel_driver = λ w i. (pos 0, w);
  attach_kernel_driver = λ w i. (pos 0, w);
  claim_interface = λ w i. (pos 0, w);
  release_interface = λ w i. (pos 0, w);
  set_interface_alt_setting = λ w i a. (pos 0, w);
}

-- The same, but every transfer is stalled.
abbrev stalled : Usb
stalled = record echo { control_transfer = λ w s buf n. (negsuc 8, buf, w) }

abbrev pub vga : FrameDesc
vga = record {
  subtype = 7;
  frame_index = 1;
  capabilities = 0;
  width = 640;
  height = 480;
  min_bit_rate = 0;
  max_bit_rate = 0;
  max_video_frame_buffer_size = 614400;
  default_frame_interval = 333333;
  min_frame_interval = 0;
  max_frame_interval = 0;
  frame_interval_step = 0;
  frame_interval_type = 0;
  bytes_per_line = 0;
  intervals = some (333333 ∷ []);
}

abbrev pub camera : DeviceInfo
camera = record {
  ctrl_if = record {
    input_terms = [];
    selector_units = [];
    processing_units = [];
    extension_units = [];
    bcd_uvc = 0x0110;
    clock_frequency = 48000000;
    endpoint_address = 0;
    interface_number = 0;
  };
  stream_ifs =
      record {
        interface_number = 1;
        endpoint_address = 0x81;
        terminal_link = 3;
        format_descs =
            record {
              subtype = 6;
              format_index = 1;
              num_frame_descriptors = 1;
              guid = 0x4d ∷ 0x4a ∷ 0x50 ∷ 0x47 ∷ replicate 12 0;
              bits_per_pixel = 0;
              default_frame_index = 1;
              aspect_ratio_x = 0;
              aspect_ratio_y = 0;
              interlace_flags = 0;
              copy_protect = 0;
              variable_size = 1;
              frame_descs = vga ∷ [];
            }
            ∷ [];
      }
      ∷ [];
}

abbrev pub empty_block : StreamCtrl
empty_block = record {
  hint = 0;
  format_index = 1;
  frame_index = 1;
  frame_interval = 0;
  key_frame_rate = 0;
  p_frame_rate = 0;
  comp_quality = 0;
  comp_window_size = 0;
  delay = 0;
  max_video_frame_size = 0;
  max_payload_transfer_size = 0;
  clock_frequency = 0;
  framing_info = 0;
  preferred_version = 0;
  min_version = 0;
  max_version = 0;
  interface_number = 1;
}

abbrev wanted : StreamCtrl
wanted = record empty_block {
  frame_interval = 333333;
  max_video_frame_size = 614400;
  max_payload_transfer_size = 3072;
}

wanted-IsWord : IsWord wanted
wanted-IsWord = omega arith

wanted-HasFrameSize : HasFrameSize wanted
wanted-HasFrameSize = (omega arith, omega arith)

query_reads_back_example :
    query_stream_ctrl echo (encode wanted 34) camera empty_block commit Usb.Request.get_cur
    ≡ (pos 0, wanted, encode wanted 34)
query_reads_back_example =
    query_reads_back echo (encode wanted 34) (encode wanted 34) camera wanted empty_block commit 33
      (omega arith) wanted-IsWord wanted-HasFrameSize refl

stream_ctrl_outcome_example :
    ((pos 0 ≡ pos 0) × (wanted ≡ wanted)) ⊎ ((pos 0 ≢ pos 0) × (wanted ≡ empty_block))
unfolding stream_ctrl query_stream_ctrl
stream_ctrl_outcome_example = stream_ctrl_outcome echo [] camera 1 false empty_block wanted
