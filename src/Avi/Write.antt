-- ===== src/Avi/Write.antt =====
-- `WriteFrame` of tcluvc.c, in a build with libjpeg: one frame is written to an AVI file, or to a
-- channel that streams JPEG images between boundaries. The time, the conversion to JPEG by
-- libjpeg, and whether the index can grow are arguments.
use tcluvc.Prelude.{
  ℕ, zero, suc, ◌+◌, ◌-◌, ◌*◌, ◌/◌, ◌%◌, Bool, true, false, not, Option, none, some, List, [], ◌∷◌,
  ◌++◌, length, take, replicate, ltb, leb, ◌==◌, if◌then◌else◌, Run, done, fault, after,
}
use tcluvc.Prelude.Int.{ℤ, pos, negsuc}
use tcluvc.Usb.{is_count}
use tcluvc.Stream.Payload.{same_bytes}
use tcluvc.Delivery.Populate.{Frame, is_mjpeg}
use tcluvc.Avi.Channels.{Channel}
use tcluvc.Avi.Headers.{AviIdx, chunk_hdr, frame_id, mjpg}
use tcluvc.Avi.Clock.{Timeval, difference, is_after, advance, average}
use tcluvc.Avi.{RecState, failed, is_failed, Writer, Output, close_avi_segment}

-- The fields of TUVC that a recording uses. `boundary` is empty for an AVI file.
pub record Recorder (S : Type 0) : Type 0 where
  pub rstate : RecState
  pub ruser : Bool
  pub rchan : Option S
  pub boundary : List ℕ
  pub rrate : Timeval
  pub rtv : Timeval
  pub ltv : Timeval
  pub avi : Writer

-- `(size + 3) & ~3`.
abbrev pub aligned : ℕ → ℕ
aligned size = (size + 3) / 4 * 4

-- Decimal digits; the fuel is the number itself, which has fewer.
unfoldable pub digits : ℕ → ℕ → List ℕ → List ℕ
digits zero n rest = (48 + n % 10) ∷ rest
digits (suc f) n rest =
    let more = digits f (n / 10) ((48 + n % 10) ∷ rest) in
    if ltb n 10 then (48 + n) ∷ rest else more

abbrev pub content_type : List ℕ
content_type =
    13 ∷ 10 ∷ b'C' ∷ b'o' ∷ b'n' ∷ b't' ∷ b'e' ∷ b'n' ∷ b't' ∷ b'-' ∷ b't' ∷ b'y' ∷ b'p' ∷ b'e'
    ∷ b':' ∷ b' ' ∷ b'i' ∷ b'm' ∷ b'a' ∷ b'g' ∷ b'e' ∷ b'/' ∷ b'j' ∷ b'p' ∷ b'e' ∷ b'g' ∷ 13 ∷ 10
    ∷ b'C' ∷ b'o' ∷ b'n' ∷ b't' ∷ b'e' ∷ b'n' ∷ b't' ∷ b'-' ∷ b'l' ∷ b'e' ∷ b'n' ∷ b'g' ∷ b't'
    ∷ b'h' ∷ b':' ∷ b' ' ∷ []

unfoldable pub content_header : ℕ → List ℕ
unfolding digits
content_header n = content_type ++ (digits n n [] ++ (13 ∷ 10 ∷ 13 ∷ 10 ∷ []))

-- An entry behind the last one; the table grows by 512 entries.
unfoldable pub grow_index : Bool → Writer → Writer
grow_index memory a =
    if ltb a.curr_idx a.num_idx
    then a
    else if memory
    then record a {
      num_idx = a.num_idx + 512;
      idx = elim a.idx [ none ↦ some [] | some es ↦ some es ];
    }
    else record a { curr_idx = 0; num_idx = 0; idx = none }

unfoldable pub append_index : Writer → ℕ → Writer
append_index a sizea = elim a.idx [
  | none ↦ a
  | some es ↦
      let entry : AviIdx = record {
        flags = 0;
        offset = a.idx_off % 4294967296;
        size = sizea % 4294967296;
      } in
      record a {
        idx = some (take a.curr_idx es ++ (entry ∷ []));
        curr_idx = a.curr_idx + 1;
        idx_off = a.idx_off + (sizea + 8);
      }
]

abbrev pub count_frame : Writer → ℕ → Writer
count_frame a sizea = record a {
  nframes = a.nframes + 1;
  totsize = a.totsize + (sizea + 8);
  segsize = a.segsize + (sizea + 8);
}

-- The first frame has been counted before the test.
unfoldable pub average_rate : Writer → Timeval → Writer
unfolding average
average_rate a diff = record a { rate = if a.nframes == 0 then diff else average a.rate diff }

module _ (chan : Channel) (to_jpeg : Frame → Option Frame) where
  open chan use {State, write_raw}

  -- A chunk: whether the last write was whole, and whether the frame's data were written.
  unfoldable pub write_chunk : State → List ℕ → ℕ → ℕ → Bool × Bool × State
  write_chunk s payload size sizea =
      let (w₁, s₁) = write_raw s (chunk_hdr frame_id sizea) in
      let (w₂, s₂) = write_raw s₁ payload in
      let (w₃, s₃) = write_raw s₂ (replicate (sizea - size) 0) in
      if not (is_count w₁ 8)
      then (false, size == 0, s₁)
      else if not (is_count w₂ size)
      then (false, false, s₂)
      else if ltb size sizea
      then (is_count w₃ (sizea - size), true, s₃)
      else (true, true, s₂)

  -- Past 0x7F000000 bytes a new segment is begun; the first segment is indexed.
  unfoldable pub after_chunk : Bool → Output State → ℕ → Output State
  unfolding grow_index append_index
  after_chunk memory t sizea =
      if ltb 0x7F000000 t.avi.segsize
      then (let t' = close_avi_segment chan t false in
          record t' { avi = record t'.avi { curr_idx = 0; num_idx = 0; idx = none } })
      else if t.avi.totsize == t.avi.segsize
      then record t { avi = append_index (grow_index memory t.avi) sizea }
      else t

  unfoldable pub write_avi_frame : Bool → Output State → Timeval → Frame → ℕ → Run (Output State)
  unfolding write_chunk after_chunk average_rate
  write_avi_frame memory t diff frame size =
      let sizea = aligned size in
      let (whole, full, s) = write_chunk t.out (take size frame.memory) size sizea in
      let t₁ = record t { out = s; avi = count_frame t.avi sizea } in
      let t₂ = if full then after_chunk memory t₁ sizea else t₁ in
      let t₃ = record t₂ { avi = average_rate t₂.avi diff } in
      if leb size (length frame.memory)
      then done (if whole then t₃ else record t₃ { rstate = failed })
      else fault

  -- The frame that goes into the file with its size; `none` where libjpeg fails.
  unfoldable pub avi_payload : Writer → Frame → Option (Frame × ℕ)
  avi_payload a frame =
      if is_mjpeg frame.frame_format
      then some (frame, frame.data_bytes)
      else if same_bytes a.avi_hdrv.strh.handler mjpg
      then elim (to_jpeg frame) [ none ↦ none | some f ↦ some (f, f.data_bytes) ]
      else some (frame, frame.height * frame.step)

  unfoldable pub write_part : State → List ℕ → Frame → Run (Bool × State)
  unfolding content_header
  write_part s boundary frame =
      let head = boundary ++ content_header frame.data_bytes in
      let (w₁, s₁) = write_raw s head in
      let (w₂, s₂) = write_raw s₁ (take frame.data_bytes frame.memory) in
      if not (is_count w₁ (length head))
      then done (false, s₁)
      else if leb frame.data_bytes (length frame.memory)
      then done (is_count w₂ frame.data_bytes, s₂)
      else fault

  abbrev pub outcome : Recorder State → ℤ × Recorder State
  outcome r = ((if is_failed r.rstate then negsuc 0 else pos 1), r)

  unfoldable pub write_due :
      Bool → Recorder State → State → Timeval → Frame → Run (ℤ × Recorder State)
  unfolding write_avi_frame avi_payload write_part
  write_due memory r s diff frame =
      if length r.boundary == 0
      then elim (avi_payload r.avi frame) [
        | none ↦ done (negsuc 0, record r { rstate = failed })
        | some (f, size) ↦
            let t : Output State = record { out = s; rstate = r.rstate; avi = r.avi } in
            after (write_avi_frame memory t diff f size) (λ t'.
              done (outcome (record r { rchan = some t'.out; rstate = t'.rstate; avi = t'.avi })))
      ]
      else elim (if is_mjpeg frame.frame_format then some frame else to_jpeg frame) [
        | none ↦ done (negsuc 0, record r { rstate = failed })
        | some f ↦ after (write_part s r.boundary f) (λ (whole, s').
            done
              (outcome (record r { rchan = some s'; rstate = if whole then r.rstate else failed })))
      ]

  -- A channel that is gone is an error.
  abbrev pub state_now : Recorder State → RecState
  state_now r = elim r.rchan [ none ↦ failed | some s ↦ r.rstate ]

  -- The time of the next frame is set from this one.
  unfoldable pub timed : Recorder State → Timeval → Recorder State
  unfolding advance
  timed r now = record r { rstate = state_now r; rtv = advance now r.rrate; ltv = now }

  unfoldable pub write_timed : Bool → Timeval → Recorder State → Frame → Run (ℤ × Recorder State)
  unfolding write_due difference is_after timed
  write_timed memory now r frame =
      if is_after (difference r.rtv now)
      then done
          ((if is_failed (state_now r) then negsuc 0 else pos 0), record r { rstate = state_now r })
      else if frame.data_bytes == 0
      then done (pos 0, timed r now)
      else if is_failed (state_now r)
      then done (negsuc 0, timed r now)
      else elim r.rchan [
        | none ↦ done (negsuc 0, timed r now)
        | some s ↦ write_due memory (timed r now) s (difference now r.ltv) frame
      ]

  -- The capture time counts unless it lies ahead of the clock.
  unfoldable pub time_of : Timeval → Frame → Timeval
  unfolding difference is_after
  time_of clock frame =
      let captured : Timeval = record { tv_sec = pos frame.tv_sec; tv_usec = pos frame.tv_usec } in
      if is_after (difference clock captured) then captured else clock

  unfoldable pub write_frame : Bool → Timeval → Recorder State → Frame → Run (ℤ × Recorder State)
  unfolding write_timed time_of
  write_frame memory clock r frame = write_timed memory (time_of clock frame) r frame
