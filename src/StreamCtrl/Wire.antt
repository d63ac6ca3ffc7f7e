-- ===== src/StreamCtrl/Wire.antt =====
-- The two halves of `uvc_query_stream_ctrl` around its transfer: the 34 bytes that a SET_CUR
-- sends, and what a GET request reads from them. 26 of them are used before version 1.1.
use tcluvc.Prelude.{ℕ, List, [], ◌∷◌, ◌++◌, ◌==◌, if◌then◌else◌, replicate}
use tcluvc.Bytes.{byte_at, sw_to_short, dw_to_int, short_to_sw, int_to_dw}

-- `uvc_stream_ctrl_t`.
pub record StreamCtrl : Type 0 where
  pub hint : ℕ
  pub format_index : ℕ
  pub frame_index : ℕ
  pub frame_interval : ℕ
  pub key_frame_rate : ℕ
  pub p_frame_rate : ℕ
  pub comp_quality : ℕ
  pub comp_window_size : ℕ
  pub delay : ℕ
  pub max_video_frame_size : ℕ
  pub max_payload_transfer_size : ℕ
  pub clock_frequency : ℕ
  pub framing_info : ℕ
  pub preferred_version : ℕ
  pub min_version : ℕ
  pub max_version : ℕ
  pub interface_number : ℕ

-- `buf[0]` to `buf[25]`.
unfoldable pub encode_common : StreamCtrl → List ℕ
unfolding short_to_sw int_to_dw
encode_common c =
    short_to_sw c.hint
    ++ ((c.format_index ∷ c.frame_index ∷ [])
        ++ (int_to_dw c.frame_interval
            ++ (short_to_sw c.key_frame_rate
                ++ (short_to_sw c.p_frame_rate
                    ++ (short_to_sw c.comp_quality
                        ++ (short_to_sw c.comp_window_size
                            ++ (short_to_sw c.delay
                                ++ (int_to_dw c.max_video_frame_size
                                    ++ int_to_dw c.max_payload_transfer_size))))))))

-- `buf[26]` to `buf[33]`.
unfoldable pub encode_version : StreamCtrl → List ℕ
unfolding int_to_dw
encode_version c =
    int_to_dw c.clock_frequency
    ++ (c.framing_info ∷ c.preferred_version ∷ c.min_version ∷ c.max_version ∷ [])

unfoldable pub encode : StreamCtrl → ℕ → List ℕ
unfolding encode_common encode_version
encode c len = encode_common c ++ (if len == 34 then encode_version c else replicate 8 0)

-- What a GET request writes into the control block; `clock` is the clock frequency of the device.
unfoldable pub decode : StreamCtrl → List ℕ → ℕ → ℕ → StreamCtrl
unfolding byte_at sw_to_short dw_to_int
decode c buf len clock =
    let common = record c {
      hint = sw_to_short buf 0;
      format_index = byte_at buf 2;
      frame_index = byte_at buf 3;
      frame_interval = dw_to_int buf 4;
      key_frame_rate = sw_to_short buf 8;
      p_frame_rate = sw_to_short buf 10;
      comp_quality = sw_to_short buf 12;
      comp_window_size = sw_to_short buf 14;
      delay = sw_to_short buf 16;
      max_video_frame_size = dw_to_int buf 18;
      max_payload_transfer_size = dw_to_int buf 22;
    } in
    if len == 34
    then record common {
      clock_frequency = dw_to_int buf 26;
      framing_info = byte_at buf 30;
      preferred_version = byte_at buf 31;
      min_version = byte_at buf 32;
      max_version = byte_at buf 33;
    }
    else record common { clock_frequency = clock }
