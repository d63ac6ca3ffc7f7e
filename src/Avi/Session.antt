-- ===== src/Avi/Session.antt =====
-- `StartRecording` after its options are read, `FinishRecording` and `RecordFrameFromData` of
-- tcluvc.c. The channel's checks and its detachment belong to Tcl.
use tcluvc.Prelude.{
  ℕ, ◌*◌, Bool, true, false, not, ◌&&◌, ◌||◌, Option, none, some, List, [], length, ltb, ◌==◌,
  if◌then◌else◌, Run, done, after,
}
use tcluvc.Prelude.Int.{ℤ, pos, ◌+ℤ◌}
use tcluvc.StreamCtrl.Formats.{FrameFormat, gray8, gray16, rgb}
use tcluvc.Delivery.Populate.{Frame}
use tcluvc.Avi.Channels.{Channel}
use tcluvc.Avi.Headers.{unsigned, avi_hdr_bytes, avi_hdrv_bytes, avi_hdro_bytes, avi_data_bytes}
use tcluvc.Avi.Clock.{Timeval, borrow, micros, ◌-ℤ◌}
use tcluvc.Avi.{
  RecState, stop, recpri, recording, pausepri, pause, Writer, Output, write_avi_header,
  close_avi_segment,
}
use tcluvc.Avi.Write.{Recorder, write_frame}
use tcluvc.Avi.Fresh.{CameraFormat, no_writer, period_of, fresh_headers}

-- What the options of `uvc record start` ask for.
pub record Wish : Type 0 where
  pub mjpeg : Bool
  pub user : Bool
  pub boundary : List ℕ
  pub period : Option Timeval

-- What the user is refused by `RecordFrameFromData`.
pub data Refusal : Type 0 where
  unsupported_format incompatible_data wrong_state : Refusal

pub data FromData (S : Type 0) : Type 0 where
  refused : Refusal → FromData S
  wrote : ℤ → Recorder S → FromData S

abbrev pub takes_frames : RecState → Bool
takes_frames recording = true
takes_frames pause = true
takes_frames _ = false

abbrev pub format_for_bpp : ℕ → FrameFormat
format_for_bpp bpp = if bpp == 1 then gray8 else if bpp == 2 then gray16 else rgb

module _ (chan : Channel) where
  open chan use {State, write_raw}

  -- The headers are written as they are, counted, and written again with their sizes.
  unfoldable pub begin_avi : State → Writer → CameraFormat → Bool → Timeval → ℤ → Output State
  unfolding fresh_headers ◌+ℤ◌ micros
  begin_avi s a format jpeg period pos0 =
      let a₁ = fresh_headers a format jpeg (unsigned (micros period)) in
      let (w₁, s₁) = write_raw s (avi_hdr_bytes a₁.avi_hdr) in
      let (w₂, s₂) = write_raw s₁ (avi_hdrv_bytes a₁.avi_hdrv) in
      let (w₃, s₃) = write_raw s₂ (avi_hdro_bytes a₁.avi_hdro) in
      let (_, s₄) = write_raw s₃ (avi_data_bytes 0) in
      let t =
        write_avi_header chan
          (record {
            out = s₄;
            rstate = stop;
            avi = record a₁ { pos0 = pos0; hdrsize = w₁ +ℤ w₂ +ℤ w₃; segsize0 = 4 };
          })
          false in
      record t { avi = record t.avi { curr_idx = 0; num_idx = 0; idx_off = 4; idx = none } }

  -- What is left in the file that is closed, and the recorder.
  unfoldable pub finish_recording : Recorder State → Option State × Recorder State
  finish_recording r = elim r.rchan [
    | none ↦ (none, record r { boundary = [] })
    | some s ↦
        let t : Output State = record { out = s; rstate = r.rstate; avi = r.avi } in
        let t' = write_avi_header chan (close_avi_segment chan t true) true in
        let closed = record r { boundary = []; rchan = none; avi = no_writer } in
        if length r.boundary == 0
        then (some t'.out, record closed { rstate = t'.rstate })
        else (some s, closed)
  ]

  -- 500 microseconds of the period are kept for the processing.
  unfoldable pub start_recording :
      Recorder State → CameraFormat → Wish → State → ℤ → Timeval → Bool → Bool → ℕ → Recorder State
  unfolding period_of begin_avi borrow ◌-ℤ◌
  start_recording r format wish s pos0 clock running conv fps =
      let (_, r₁) = finish_recording r in
      let period = period_of wish.period fps in
      let t = begin_avi s r₁.avi format (wish.mjpeg || wish.user) period pos0 in
      let is_avi = length wish.boundary == 0 in
      record {
        rstate =
            if wish.user
            then (if running then recording else pause)
            else if running
            then (if conv then recpri else recording)
            else (if conv then pausepri else pause);
        ruser = wish.user;
        rchan = some (if is_avi then t.out else s);
        boundary = wish.boundary;
        rrate = borrow (record period { tv_usec = period.tv_usec -ℤ pos 500 });
        rtv = clock;
        ltv = clock;
        avi = if is_avi then t.avi else r₁.avi;
      }

  unfoldable pub record_frame_from_data :
      (Frame → Option Frame)
      → Bool
      → Timeval
      → Option CameraFormat
      → Recorder State
      → ℕ
      → ℕ
      → ℕ
      → List ℕ
      → ℕ
      → ℕ
      → Run (FromData State)
  record_frame_from_data to_jpeg memory clock format r width height bpp bytes sec usec =
      elim format [
        | none ↦ done (refused unsupported_format)
        | some f ↦
            let frame : Frame = record {
              memory = bytes;
              data_bytes = length bytes;
              width = width;
              height = height;
              frame_format = format_for_bpp bpp;
              step = width * bpp;
              sequence = 0;
              tv_sec = sec;
              tv_usec = usec;
              library_owns_data = false;
            } in
            if ltb (length bytes) (width * height * bpp)
              || (not (width == f.width) || not (height == f.height))
            then done (refused incompatible_data)
            else if not (r.ruser && takes_frames r.rstate)
            then done (refused wrong_state)
            else after (write_frame chan to_jpeg memory clock r frame)
                (λ (ret, r'). done (wrote ret r'))
      ]
