-- ===== src/Start/Tests.antt =====
-- A camera with one streaming interface of three settings, opened and started.
use tcluvc.Prelude.{ℕ, ◌+◌, ◌≡◌, false, none, some, List, [], ◌∷◌, arith, done}
use tcluvc.Prelude.Int.{pos}
use tcluvc.Usb.{Usb}
use tcluvc.Usb.Config.{AltSetting}
use tcluvc.Descriptors.{FrameDesc, FormatDesc, StreamingInterface}
use tcluvc.StreamCtrl.Formats
use tcluvc.StreamCtrl.Wire.{StreamCtrl}
use tcluvc.Start.Plan.{Plan, choose, endpoint_bytes}
use tcluvc.Start.Plan.Laws.{no_settings, below_then, IsPlan, choose_first}
use tcluvc.Start.Begin.{Handle}
use tcluvc.Start.Handles.{DeviceHandle, no_ctrl, stream_open_ctrl}
use tcluvc.Start.Handles.Invariant.{IsConsistent, no_streams, start, opens, Reachable-IsConsistent}

-- No bandwidth, 512 bytes a packet, and 3 times 1024.
abbrev setting : ℕ → ℕ → AltSetting
setting number size = record {
  interface_number = 1;
  alternate_setting = number;
  interface_class = 14;
  interface_subclass = 2;
  endpoints = record { endpoint_address = 0x81; max_packet_size = size } ∷ [];
  extra = [];
}

abbrev settings : List AltSetting
settings = setting 0 0 ∷ setting 1 512 ∷ setting 2 5120 ∷ []

choose_first_example :
    (p : Plan) × (choose 0x81 614400 1024 none 0 settings ≡ done (some p))
    × (p.setting ≡ setting 2 5120)
    × IsPlan 0x81 614400 p
unfolding endpoint_bytes
choose_first_example =
    choose_first 0x81 614400 1024 (setting 0 0 ∷ setting 1 512 ∷ []) (setting 2 5120) []
      (omega arith) (below_then (omega arith) (below_then (omega arith) no_settings)) (omega arith)
      (omega arith)

abbrev vga : FrameDesc
vga = record {
  subtype = 5;
  frame_index = 1;
  capabilities = 0;
  width = 640;
  height = 480;
  min_bit_rate = 0;
  max_bit_rate = 0;
  max_video_frame_buffer_size = 614400;
  default_frame_interval = 333333;
  min_frame_interval = 0;
  max_frame_interval = 0;
  frame_interval_step = 0;
  frame_interval_type = 1;
  bytes_per_line = 0;
  intervals = some (333333 ∷ []);
}

abbrev yuyv_format : FormatDesc
yuyv_format = record {
  subtype = 4;
  format_index = 1;
  num_frame_descriptors = 0;
  guid = 0x59 ∷ 0x55 ∷ 0x59 ∷ 0x32 ∷ Formats.guid_tail;
  bits_per_pixel = 16;
  default_frame_index = 1;
  aspect_ratio_x = 0;
  aspect_ratio_y = 0;
  interlace_flags = 0;
  copy_protect = 0;
  variable_size = 0;
  frame_descs = vga ∷ [];
}

abbrev interface : StreamingInterface
interface = record {
  interface_number = 1;
  endpoint_address = 0x81;
  terminal_link = 3;
  format_descs = yuyv_format ∷ [];
}

abbrev ctrl : StreamCtrl
ctrl = record no_ctrl {
  format_index = 1;
  frame_index = 1;
  frame_interval = 333333;
  max_video_frame_size = 614400;
  max_payload_transfer_size = 3072;
  interface_number = 1;
}

-- A libusb that grants everything.
abbrev granting : Usb
granting = record {
  World = ℕ;
  control_transfer = λ w s buf n. (pos n, buf, w);
  detach_kernel_driver = λ w i. (pos 0, w);
  attach_kernel_driver = λ w i. (pos 0, w);
  claim_interface = λ w i. (pos 0, w + 1);
  release_interface = λ w i. (pos 0, w);
  set_interface_alt_setting = λ w i a. (pos 0, w);
}

abbrev fresh : Handle
fresh = record {
  stream = record {
    asm = record {
      is_isight = false;
      fid = 1;
      seq = 9;
      hold_seq = 8;
      pts = 0;
      hold_pts = 0;
      last_scr = 0;
      hold_last_scr = 0;
      got_bytes = 0;
      hold_bytes = 0;
      outbuf = [];
      holdbuf = [];
      clear_halts = 0;
      broadcasts = 0;
    };
    running = false;
    slots = [];
  };
  frame_format = Formats.any;
  filled = none;
}

abbrev config : List (List AltSetting)
config = (setting 0 0 ∷ []) ∷ settings ∷ []

abbrev device : DeviceHandle
device = record {
  info = record {
    ctrl_if = record {
      input_terms = [];
      selector_units = [];
      processing_units = [];
      extension_units = [];
      bcd_uvc = 0x0110;
      clock_frequency = 48000000;
      endpoint_address = 0;
      interface_number = 0;
    };
    stream_ifs = interface ∷ [];
  };
  claimed = λ i. false;
  streams = [];
}

Reachable-IsConsistent_example :
    IsConsistent
      (stream_open_ctrl granting 0 device ctrl).1.claimed
      (stream_open_ctrl granting 0 device ctrl).1.streams
Reachable-IsConsistent_example =
    Reachable-IsConsistent granting device (stream_open_ctrl granting 0 device ctrl).1
      (stream_open_ctrl granting 0 device ctrl).2 no_streams (opens ctrl start)
