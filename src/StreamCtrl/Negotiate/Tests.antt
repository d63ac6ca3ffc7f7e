-- ===== src/StreamCtrl/Negotiate/Tests.antt =====
-- The theorems on formats and on the negotiation at the camera of StreamCtrl/Tests.
use tcluvc.Prelude.{ℕ, Bool, false, ◌≡◌, ◌≢◌, ◌⊎◌, refl, none, some, List, [], ◌∷◌, replicate}
use tcluvc.Prelude.Int.{pos}
use tcluvc.Usb
use tcluvc.Usb.{Usb}
use tcluvc.Bytes.{byte_at, sw_to_short, dw_to_int, short_to_sw, int_to_dw}
use tcluvc.Stream.Payload.{same_bytes}
use tcluvc.Claims.{claim_if}
use tcluvc.Descriptors.{FrameDesc, FormatDesc, StreamingInterface}
use tcluvc.StreamCtrl.Wire.{StreamCtrl, encode, decode}
use tcluvc.StreamCtrl.Formats.{mjpeg, get_format_entry, matches_guid, matches_on}
use tcluvc.StreamCtrl.Tests.{echo, vga, camera, empty_block}
use tcluvc.StreamCtrl.Probe.{Probed, probe_stream_ctrl}
use tcluvc.StreamCtrl.Negotiate.{
  Wanted, search, propose, try_interval, try_frame, try_format, find_ctrl,
  get_stream_ctrl_format_size,
}
use tcluvc.StreamCtrl.Find.{find_frame_desc}
use tcluvc.StreamCtrl.Query.{finish_query, fix_frame_size, query_stream_ctrl}
use tcluvc.StreamCtrl.Negotiate.Outcome.{IsFound, format_size_outcome, zero_rate_divides}

abbrev nothing_claimed : ℕ → Bool
nothing_claimed i = false

abbrev thirty : Wanted
thirty = record { format = mjpeg; width = 640; height = 480; fps = 30 }

abbrev large : Wanted
large = record thirty { width = 1920 }

abbrev zero_rate : Wanted
zero_rate = record thirty { fps = 0 }

negotiated :
    (r : Probed echo) × (get_stream_ctrl_format_size echo camera [] nothing_claimed empty_block
        thirty
      ≡ some r)
unfolding get_stream_ctrl_format_size find_ctrl search try_format try_frame try_interval propose
    query_stream_ctrl finish_query fix_frame_size decode encode probe_stream_ctrl claim_if
    matches_guid matches_on get_format_entry same_bytes byte_at sw_to_short dw_to_int short_to_sw
    int_to_dw find_frame_desc
negotiated = (_, refl)

format_size_outcome_example :
    ((negotiated.0.0 ≡ Usb.Error.invalid_mode) × (negotiated.0.2 ≡ nothing_claimed))
    ⊎ ((found : StreamCtrl) × (w₁ : List ℕ) × IsFound camera thirty found
        × ((negotiated.0 ≡ probe_stream_ctrl echo w₁ nothing_claimed camera found)
            ⊎ (let (ret, c₂, m₂, w₂) = probe_stream_ctrl echo w₁ nothing_claimed camera found in
                (ret ≢ pos 0)
                × (negotiated.0 ≡ probe_stream_ctrl echo w₂ m₂ camera (record c₂ { hint = 0 })))))
format_size_outcome_example =
    format_size_outcome echo camera [] nothing_claimed empty_block thirty negotiated.0 negotiated.1

-- The camera with a range of intervals for its frame.
abbrev ranged : FrameDesc
ranged = record vga { intervals = none }

abbrev ranged_format : FormatDesc
ranged_format = record {
  subtype = 6;
  format_index = 1;
  num_frame_descriptors = 1;
  guid = 0x4d ∷ 0x4a ∷ 0x50 ∷ 0x47 ∷ replicate 12 0;
  bits_per_pixel = 0;
  default_frame_index = 1;
  aspect_ratio_x = 0;
  aspect_ratio_y = 0;
  interlace_flags = 0;
  copy_protect = 0;
  variable_size = 1;
  frame_descs = ranged ∷ [];
}

abbrev ranged_interface : StreamingInterface
ranged_interface = record {
  interface_number = 1;
  endpoint_address = 0x81;
  terminal_link = 3;
  format_descs = ranged_format ∷ [];
}

zero_rate_divides_example :
    get_stream_ctrl_format_size echo
      (record camera { stream_ifs = ranged_interface ∷ [] })
      []
      nothing_claimed
      empty_block
      zero_rate
    ≡ none
unfolding matches_guid matches_on get_format_entry same_bytes
zero_rate_divides_example =
    zero_rate_divides echo (record camera { stream_ifs = ranged_interface ∷ [] }) [] nothing_claimed
      empty_block zero_rate ranged_interface ranged_format ranged [] [] [] refl refl refl refl refl
      refl refl refl
