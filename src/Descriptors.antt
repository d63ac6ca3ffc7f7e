-- ===== src/Descriptors.antt =====
-- The descriptor structures of libuvc/include/libuvc/libuvc.h and libuvc_internal.h. A linked
-- list is a list; a structure's pointer to its parent is the place where it stands.
use tcluvc.Prelude.{ℕ, Option, List}

pub record FrameDesc : Type 0 where
  pub subtype : ℕ
  pub frame_index : ℕ
  pub capabilities : ℕ
  pub width : ℕ
  pub height : ℕ
  pub min_bit_rate : ℕ
  pub max_bit_rate : ℕ
  pub max_video_frame_buffer_size : ℕ
  pub default_frame_interval : ℕ
  pub min_frame_interval : ℕ
  pub max_frame_interval : ℕ
  pub frame_interval_step : ℕ
  pub frame_interval_type : ℕ
  pub bytes_per_line : ℕ
  -- without the zero at its end; `none` is NULL
  pub intervals : Option (List ℕ)

pub record FormatDesc : Type 0 where
  pub subtype : ℕ
  pub format_index : ℕ
  pub num_frame_descriptors : ℕ
  pub guid : List ℕ
  pub bits_per_pixel : ℕ
  pub default_frame_index : ℕ
  pub aspect_ratio_x : ℕ
  pub aspect_ratio_y : ℕ
  pub interlace_flags : ℕ
  pub copy_protect : ℕ
  pub variable_size : ℕ
  pub frame_descs : List FrameDesc

pub record StreamingInterface : Type 0 where
  pub interface_number : ℕ
  pub endpoint_address : ℕ
  pub terminal_link : ℕ
  pub format_descs : List FormatDesc

pub record InputTerminal : Type 0 where
  pub terminal_id : ℕ
  pub terminal_type : ℕ
  pub objective_focal_length_min : ℕ
  pub objective_focal_length_max : ℕ
  pub ocular_focal_length : ℕ
  pub controls : ℕ

pub record ProcessingUnit : Type 0 where
  pub unit_id : ℕ
  pub source_id : ℕ
  pub controls : ℕ

pub record SelectorUnit : Type 0 where
  pub unit_id : ℕ

pub record ExtensionUnit : Type 0 where
  pub unit_id : ℕ
  pub guid : List ℕ
  pub controls : ℕ

pub record ControlInterface : Type 0 where
  pub input_terms : List InputTerminal
  pub selector_units : List SelectorUnit
  pub processing_units : List ProcessingUnit
  pub extension_units : List ExtensionUnit
  pub bcd_uvc : ℕ
  pub clock_frequency : ℕ
  pub endpoint_address : ℕ
  pub interface_number : ℕ

pub record DeviceInfo : Type 0 where
  pub ctrl_if : ControlInterface
  pub stream_ifs : List StreamingInterface
