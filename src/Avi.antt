-- ===== src/Avi.antt =====
-- The AVI recorder of the Tcl extension (tcluvc.c): the state of a recording, `WriteAVIHeader` and
-- `CloseAVISegment`. A file of more than about 2 GB is a chain of segments, the first of which has
-- the headers and, if it is the only one, an index.
pub mod Channels
pub mod Headers
pub mod Clock
pub mod Write
pub mod Fresh
pub mod Session
pub mod File
pub mod Recording
pub mod Frames
pub mod Sizes
pub mod Rewrite
pub mod Finish
pub mod Whole
pub mod Complete
pub mod Begin
pub mod Started
pub mod Recorded
mod Tests
use tcluvc.Prelude.{
  ℕ, ◌+◌, ◌*◌, ◌%◌, Bool, true, false, not, ◌&&◌, Option, none, some, List, [], ◌∷◌, ltb, ◌==◌,
  if◌then◌else◌, take,
}
use tcluvc.Prelude.Int.{ℤ, pos, negsuc, ◌+ℤ◌}
use tcluvc.Usb.{is_count}
use tcluvc.Stream.Payload.{same_bytes}
use tcluvc.Avi.Channels.{Channel}
use tcluvc.Avi.Headers.{
  AviHdr, AviHdrVideo, AviHdrOdml, AviIdx, unsigned, chunk_hdr, idx1, mjpg, idx_bytes,
  avi_hdr_bytes, avi_hdrv_bytes, avi_hdro_bytes, avi_data_bytes, avix_bytes,
}
use tcluvc.Avi.Clock.{Timeval, ◌-ℤ◌, micros}

-- REC_STOP, REC_RECPRI and so on.
pub data RecState : Type 0 where
  stop recpri recording pausepri pause failed : RecState

abbrev pub is_failed : RecState → Bool
is_failed failed = true
is_failed _ = false

-- The AVI writer. Of the index, `curr_idx` entries are filled and `num_idx` are allocated.
pub record Writer : Type 0 where
  pub nframes : ℕ
  pub nframes0 : ℕ
  pub totsize : ℕ
  pub segsize : ℕ
  pub segsize0 : ℕ
  pub segstart : ℤ
  pub hdrsize : ℤ
  pub pos0 : ℤ
  pub rate : Timeval
  pub avi_hdr : AviHdr
  pub avi_hdrv : AviHdrVideo
  pub avi_hdro : AviHdrOdml
  pub avi_data : ℕ
  pub idx_off : ℕ
  pub curr_idx : ℕ
  pub num_idx : ℕ
  pub idx : Option (List AviIdx)

-- What a recording changes: the channel's state, the recording state and the writer.
pub record Output (S : Type 0) : Type 0 where
  pub out : S
  pub rstate : RecState
  pub avi : Writer

-- The headers with all numbers brought up to date; `idx_size` counts the index with its header.
unfoldable pub update_headers : Writer → ℕ → ℕ → Writer
unfolding ◌+ℤ◌ ◌-ℤ◌ micros
update_headers a flags idx_size =
    let average_us = unsigned (micros a.rate) in
    let is_mjpg = same_bytes a.avi_hdrv.strh.handler mjpg in
    record a {
      avi_hdr = record {
        riff_size = unsigned (a.hdrsize +ℤ pos (a.segsize0 + idx_size));
        hdrl_size = unsigned (a.hdrsize -ℤ pos 20);
        avih_size = a.avi_hdr.avih_size;
        avih = record a.avi_hdr.avih {
          flags = flags;
          uspf = if is_mjpg then average_us else a.avi_hdr.avih.uspf;
          nframes = a.nframes0 % 4294967296;
        };
      };
      avi_hdrv = record a.avi_hdrv {
        strh = record a.avi_hdrv.strh {
          scale = if is_mjpg then average_us else a.avi_hdrv.strh.scale;
          length = a.nframes0 % 4294967296;
        };
      };
      avi_data = (a.segsize0 + 4) % 4294967296;
      avi_hdro = record a.avi_hdro { nframes = a.nframes % 4294967296 };
    }

-- `== (Tcl_WideInt) -1`.
abbrev pub is_minus_one : ℤ → Bool
is_minus_one (pos n) = false
is_minus_one (negsuc n) = n == 0

abbrev pub index_at_end : Bool → Writer → Option (List AviIdx)
index_at_end true a = a.idx
index_at_end false a = none

module _ (chan : Channel) where
  open chan use {State, write_raw, seek, tell}

  -- The headers are written over the old ones, and the position is restored.
  unfoldable pub rewrite_headers : Output State → Output State
  rewrite_headers t =
      let a = t.avi in
      let (here, s₀) = tell t.out in
      let (_, s₁) = seek s₀ a.pos0 in
      let (_, s₂) = write_raw s₁ (avi_hdr_bytes a.avi_hdr) in
      let (_, s₃) = write_raw s₂ (avi_hdrv_bytes a.avi_hdrv) in
      let (_, s₄) = write_raw s₃ (avi_hdro_bytes a.avi_hdro) in
      let (_, s₅) = write_raw s₄ (avi_data_bytes a.avi_data) in
      let (back, s₆) = seek s₅ here in
      record t { out = s₆; rstate = if is_minus_one back then failed else t.rstate }

  unfoldable pub write_avi_header : Output State → Bool → Output State
  unfolding update_headers rewrite_headers
  write_avi_header t last = elim (index_at_end last t.avi) [
    | some entries ↦
        let idx_size = t.avi.curr_idx * 16 in
        let (_, s₁) = write_raw t.out (chunk_hdr idx1 idx_size) in
        let (_, s₂) = write_raw s₁ (idx_bytes (take t.avi.curr_idx entries)) in
        let t' =
          rewrite_headers (record t { out = s₂; avi = update_headers t.avi 16 (idx_size + 8) }) in
        record t' { avi = record t'.avi { curr_idx = 0; num_idx = 0; idx = none } }
    | none ↦
        let t' = rewrite_headers (record t { avi = update_headers t.avi 0 0 }) in
        if last
        then record t' { avi = record t'.avi { curr_idx = 0; num_idx = 0; idx = none } }
        else t'
  ]

  -- `fits` says whether what was written before was written whole.
  unfoldable pub next_segment : Output State → ℤ → Bool → Bool → Output State
  next_segment t here last fits =
      let a = record t.avi { segsize = 0; segstart = here } in
      let (written, s) = write_raw t.out (avix_bytes 0 0) in
      if not last && fits
      then record { out = s; avi = a; rstate = if is_count written 24 then t.rstate else failed }
      else record t { avi = a; rstate = if fits then t.rstate else failed }

  unfoldable pub close_avi_segment : Output State → Bool → Output State
  unfolding write_avi_header next_segment
  close_avi_segment t last =
      let (here, s₀) = tell t.out in
      let a = t.avi in
      if ltb a.segsize a.totsize
      then (let (_, s₁) = seek s₀ a.segstart in
          let (written, s₂) = write_raw s₁ (avix_bytes (a.segsize + 16) (a.segsize + 4)) in
          let (_, s₃) = seek s₂ here in
          next_segment (record t { out = s₃ }) here last (is_count written 24))
      else (let t' =
            write_avi_header
              (record t { out = s₀; avi = record a { nframes0 = a.nframes; segsize0 = a.segsize } })
              false in
          if is_failed t'.rstate then t' else next_segment t' here last true)
