-- ===== src/Avi/Recorded.antt =====
-- The AVI file that `StartRecording`, calls of `WriteFrame` and `FinishRecording` of tcluvc.c leave.
use tcluvc.Prelude.{
  ℕ, ◌≡◌, refl, ap, ◌+◌, ◌*◌, ◌≤◌, ◌<◌, Bool, Option, none, some, List, [], ◌∷◌, ◌++◌, length,
  length-append, arith,
}
use tcluvc.Prelude.Int.{pos}
use tcluvc.Delivery.Populate.{Frame}
use tcluvc.Avi.Channels.{Channel}
use tcluvc.Avi.Headers.{AviIdx, chunk_hdr, idx1, idx_bytes, dwords, put32le}
use tcluvc.Avi.Clock.{Timeval}
use tcluvc.Avi.{Writer}
use tcluvc.Avi.Write.{Recorder}
use tcluvc.Avi.Fresh.{CameraFormat, no_writer}
use tcluvc.Avi.Session.{Wish, finish_recording, start_recording}
use tcluvc.Avi.File.{IsFile, AtEnd}
use tcluvc.Avi.Recording.{body, index_from, length-index_from}
use tcluvc.Avi.Finish.{IsFinished, close_avi_segment-IsFinished}
use tcluvc.Avi.Sizes.{headers, length-headers}
use tcluvc.Avi.Whole.{output_of}
use tcluvc.Avi.Complete.{Calls}
use tcluvc.Avi.Started.{has_index, calls_kept, started, finished}

-- A recording to an AVI file with nothing written before, on an empty file that takes every write,
-- with an index that can always grow: start it, make any calls of `write_frame` that report a
-- written or a skipped frame, at least one of them written, and finish it. The file is then the
-- headers, which count the frames and the bytes of their chunks, the chunk of each written frame in
-- order, and an index entry for each with its offset, if all is in one segment.
pub recorded_file :
    (chan : Channel) (contents : chan.State → List ℕ) (position : chan.State → ℕ)
    (file : IsFile chan contents position) (to_jpeg : Frame → Option Frame) (s : chan.State)
    (r x : Recorder chan.State) (format : CameraFormat) (wish : Wish) (clock : Timeval)
    (running conv : Bool) (fps : ℕ) (ps : List (List ℕ))
    → AtEnd contents position s []
    → length format.fourcc ≡ 4
    → wish.boundary ≡ []
    → r.rchan ≡ none
    → r.avi ≡ no_writer
    → Calls chan contents position file to_jpeg
        (start_recording chan r format wish s (pos 0) clock running conv fps)
        ps
        x
    → 0 < length ps
    → length (body ps) ≤ 0x7F000000
    → (a : Writer) × (s' : chan.State) × ((finish_recording chan x).0 ≡ some s')
      × IsFinished ps a
      × (contents s'
          ≡ headers a
            ++ (body ps ++ (chunk_hdr idx1 (length ps * 16) ++ idx_bytes (index_from 4 ps))))
recorded_file chan contents position file to_jpeg s r x format wish clock running conv fps ps empty
      four avi closed fresh calls some_frame small =
    let (old, sized, start) =
      started chan contents position file to_jpeg s r format wish clock running conv fps empty four
        avi closed fresh in
    let rec =
      calls_kept chan contents position file to_jpeg (headers old) _ x ps start calls small in
    let (es, indexed) = has_index ps x.avi rec.so_far.writer some_frame in
    let (a, finish, written) =
      close_avi_segment-IsFinished chan contents position file (output_of chan to_jpeg x rec.out)
        old ps es sized rec.so_far indexed in
    (
      a,
      _,
      finished chan contents position file to_jpeg (headers old) ps x rec,
      finish,
      written.holds,
    )

length-idx_bytes : (es : List AviIdx) → length (idx_bytes es) ≡ length es * 16
unfolding idx_bytes dwords put32le
length-idx_bytes [] = refl
length-idx_bytes (e ∷ es) = omega (arith, length-idx_bytes es)

-- In a file recorded as for `recorded_file`, of less than 4294967000 bytes of chunks and index
-- entries, the RIFF size in the headers that the file begins with is twelve less than the file's
-- length; it should be eight less.
pub riff_size_short :
    (chan : Channel) (contents : chan.State → List ℕ) (position : chan.State → ℕ)
    (file : IsFile chan contents position) (to_jpeg : Frame → Option Frame) (s : chan.State)
    (r x : Recorder chan.State) (format : CameraFormat) (wish : Wish) (clock : Timeval)
    (running conv : Bool) (fps : ℕ) (ps : List (List ℕ))
    → AtEnd contents position s []
    → length format.fourcc ≡ 4
    → wish.boundary ≡ []
    → r.rchan ≡ none
    → r.avi ≡ no_writer
    → Calls chan contents position file to_jpeg
        (start_recording chan r format wish s (pos 0) clock running conv fps)
        ps
        x
    → 0 < length ps
    → length (body ps) ≤ 0x7F000000
    → length (body ps) + length ps * 16 < 4294967000
    → (a : Writer) × (s' : chan.State) × (rest : List ℕ) × ((finish_recording chan x).0 ≡ some s')
      × (contents s' ≡ headers a ++ rest)
      × (a.avi_hdr.riff_size + 12 ≡ length (contents s'))
unfolding chunk_hdr put32le
riff_size_short chan contents position file to_jpeg s r x format wish clock running conv fps ps
      empty four avi closed fresh calls some_frame small small' =
    let (a, s', e, finish, whole) =
      recorded_file chan contents position file to_jpeg s r x format wish clock running conv fps ps
        empty four avi closed fresh calls some_frame small in
    let index : List ℕ = idx_bytes (index_from 4 ps) in
    let rest : List ℕ = body ps ++ (chunk_hdr idx1 (length ps * 16) ++ index) in
    (
      a,
      s',
      rest,
      e,
      whole,
      omega (
        arith,
        finish.riff_size,
        small',
        ap length whole,
        length-append (headers a) rest,
        length-headers a finish.sized,
        length-append (body ps) (chunk_hdr idx1 (length ps * 16) ++ index),
        length-append (chunk_hdr idx1 (length ps * 16)) index,
        length-idx_bytes (index_from 4 ps),
        length-index_from ps 4,
      ),
    )
