-- ===== src/Avi/Tests.antt =====
-- A file in memory, and one frame of two pixels.
use tcluvc.Prelude.{
  ℕ, ◌≡◌, refl, ap, ◌+◌, false, true, Option, none, some, List, [], ◌∷◌, ◌++◌, length, write_at,
  Run, done, fault, stuck, arith,
}
use tcluvc.Prelude.Int.{ℤ, pos, negsuc, ◌+ℤ◌, ◌*ℤ◌}
use tcluvc.StreamCtrl.Formats.{yuyv}
use tcluvc.Delivery.Populate.{Frame}
use tcluvc.Avi.Channels.{Channel}
use tcluvc.Avi.Headers.{
  chunk_hdr, idx1, idx_bytes, avi_hdr_bytes, avi_hdrv_bytes, avi_hdro_bytes, dwords, put32le,
  put16le, avih_bytes, strh_bytes, strf_bytes,
}
use tcluvc.Avi.Clock.{Timeval, difference, is_after, advance, borrow, ◌-ℤ◌, micros, average}
use tcluvc.Avi.{Writer, stop, write_avi_header, update_headers, rewrite_headers, close_avi_segment}
use tcluvc.Avi.Write.{
  Recorder, write_frame, write_timed, time_of, timed, write_due, avi_payload, write_avi_frame,
  write_chunk, average_rate, after_chunk, append_index, grow_index,
}
use tcluvc.Avi.Whole.{payload_of}
use tcluvc.Stream.Payload.{same_bytes}
use tcluvc.Avi.Fresh.{CameraFormat, no_time, no_writer, period_of, fresh_headers}
use tcluvc.Avi.Session.{Wish, start_recording, finish_recording, begin_avi}
use tcluvc.Avi.File.{IsFile}
use tcluvc.Avi.Recording.{body, body_longer, index_from}
use tcluvc.Avi.Finish.{IsFinished}
use tcluvc.Avi.Sizes.{headers}
use tcluvc.Avi.Complete.{Calls, none_yet, wrote}
use tcluvc.Avi.Recorded.{recorded_file, riff_size_short}

abbrev seek_to : List ℕ × ℕ → ℤ → ℤ × (List ℕ × ℕ)
seek_to (c, p) (pos q) = (pos q, (c, q))
seek_to (c, p) (negsuc q) = (negsuc 0, (c, p))

abbrev memory_file : Channel
memory_file = record {
  State = List ℕ × ℕ;
  write_raw = λ s bs. (pos (length bs), (write_at s.0 s.1 bs, s.1 + length bs));
  seek = seek_to;
  tell = λ s. (pos s.1, s);
}

memory_file-IsFile : IsFile memory_file (λ s. s.0) (λ s. s.1)
memory_file-IsFile = record {
  writes_all = λ s bs h. refl;
  writes_at = λ s bs h. refl;
  writes_on = λ s bs h. refl;
  seeks = λ s p h. (refl, refl, refl);
  tells = λ s. (refl, refl, refl);
}

abbrev second : ℕ → Timeval
second n = record { tv_sec = pos n; tv_usec = pos 0 }

abbrev no_jpeg : Frame → Option Frame
no_jpeg f = none

abbrev idle : Recorder memory_file.State
idle = record {
  rstate = stop;
  ruser = false;
  rchan = none;
  boundary = [];
  rrate = no_time;
  rtv = no_time;
  ltv = no_time;
  avi = no_writer;
}

abbrev tiny : CameraFormat
tiny = record {
  width = 2;
  height = 1;
  fps = 30;
  iscomp = false;
  bpp = 16;
  fourcc = 89 ∷ 85 ∷ 89 ∷ 50 ∷ [];
}

abbrev plain : Wish
plain = record { mjpeg = false; user = false; boundary = []; period = none }

abbrev two_pixels : Frame
two_pixels = record {
  memory = 10 ∷ 20 ∷ 30 ∷ 40 ∷ [];
  data_bytes = 4;
  width = 2;
  height = 1;
  frame_format = yuyv;
  step = 4;
  sequence = 1;
  tv_sec = 8;
  tv_usec = 0;
  library_owns_data = true;
}

abbrev opened : Recorder memory_file.State
opened = start_recording memory_file idle tiny plain ([], 0) (pos 0) (second 5) true false 30

abbrev recorder_of : Run (ℤ × Recorder memory_file.State) → Recorder memory_file.State
recorder_of (done (ret, y)) = y
recorder_of fault = idle
recorder_of stuck = idle

abbrev one_frame : Recorder memory_file.State
one_frame = recorder_of (write_frame memory_file no_jpeg true (second 9) opened two_pixels)

taken : write_frame memory_file no_jpeg true (second 9) opened two_pixels ≡ done (pos 1, one_frame)
unfolding write_frame write_timed time_of timed difference is_after advance start_recording
    finish_recording period_of borrow begin_avi ◌-ℤ◌ ◌+ℤ◌ ◌*ℤ◌ micros fresh_headers write_avi_header
    update_headers rewrite_headers avi_hdr_bytes avi_hdrv_bytes avi_hdro_bytes chunk_hdr dwords
    put32le put16le avih_bytes strh_bytes strf_bytes same_bytes write_due avi_payload
    write_avi_frame write_chunk average_rate average after_chunk append_index grow_index
    close_avi_segment
taken = refl

pixels : payload_of memory_file no_jpeg opened.avi two_pixels ≡ two_pixels.memory
unfolding payload_of avi_payload start_recording period_of begin_avi write_avi_header update_headers
    rewrite_headers fresh_headers finish_recording same_bytes
pixels = refl

abbrev one_call :
    Calls memory_file
      (λ s. s.0)
      (λ s. s.1)
      memory_file-IsFile
      no_jpeg
      opened
      (payload_of memory_file no_jpeg opened.avi two_pixels ∷ [])
      one_frame
one_call = wrote (second 9) two_pixels none_yet taken

abbrev one_payload : List (List ℕ)
one_payload = payload_of memory_file no_jpeg opened.avi two_pixels ∷ []

short : length (body one_payload) ≡ 12
unfolding body
short =
    omega (
      arith,
      body_longer [] (payload_of memory_file no_jpeg opened.avi two_pixels),
      ap length pixels,
    )

recorded_file_example :
    (a : Writer) × (s : memory_file.State) × ((finish_recording memory_file one_frame).0 ≡ some s)
    × IsFinished one_payload a
    × (s.0
        ≡ headers a
          ++ (body one_payload ++ (chunk_hdr idx1 16 ++ idx_bytes (index_from 4 one_payload))))
recorded_file_example =
    recorded_file memory_file (λ s. s.0) (λ s. s.1) memory_file-IsFile no_jpeg ([], 0) idle
      one_frame tiny plain (second 5) true false 30 one_payload
      (record { holds = refl; at_end = refl }) refl refl refl refl one_call (omega arith)
      (omega (arith, short))

riff_size_short_example :
    (a : Writer) × (s : memory_file.State) × (rest : List ℕ) × ((finish_recording memory_file
        one_frame).0
      ≡ some s)
    × (s.0 ≡ headers a ++ rest)
    × (a.avi_hdr.riff_size + 12 ≡ length s.0)
riff_size_short_example =
    riff_size_short memory_file (λ s. s.0) (λ s. s.1) memory_file-IsFile no_jpeg ([], 0) idle
      one_frame tiny plain (second 5) true false 30 one_payload
      (record { holds = refl; at_end = refl }) refl refl refl refl one_call (omega arith)
      (omega (arith, short)) (omega (arith, short))
