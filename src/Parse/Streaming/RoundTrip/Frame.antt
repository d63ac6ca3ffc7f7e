-- ===== src/Parse/Streaming/RoundTrip/Frame.antt =====
-- A frame block is read back as the frame, behind the last format.
use tcluvc.Prelude.{
  ℕ, ◌+◌, ◌*◌, ◌≤◌, ◌≡◌, refl, ◌∙◌, ap, sym, Option, none, some, List, [], ◌∷◌, ◌++◌, length, arith,
  append-nil, append_assoc, length-append, done, after,
}
use mathlib.Core.Path.{subst}
use tcluvc.Prelude.Int.{ℤ, pos}
use tcluvc.Bytes.{byte_at, dw_to_int, int_to_dw, short_to_sw}
use tcluvc.Descriptors.{FrameDesc, FormatDesc, StreamingInterface}
use tcluvc.Parse.Scan.Laws.{Reads, Reads-block}
use tcluvc.Parse.Streaming.{
  add_frame, with_intervals, append_frame, read_frame_frame, read_frame_uncompressed,
  parse_vs_frame_frame, parse_vs_frame_uncompressed, parse_block, parse_vs, read_intervals,
}
use tcluvc.Parse.Streaming.Encode.{
  Payload, uncompressed, mjpeg, frame_based, IsFrame, FitsIntervals, AllWords, frame_front,
  frame_size, encode_with, encode_frame, encode_frames, AllFrames, frame_then, words,
}
use tcluvc.Parse.Streaming.RoundTrip.Words.{
  read_intervals-append, read_intervals-words, length-words,
}

-- The intervals behind the head of a block.
tail_intervals :
    (front is rest : List ℕ) (n : ℕ)
    → length front ≡ 26
    → n ≡ length is
    → AllWords is
    → (read_intervals (front ++ (words is ++ rest)) 26 n ≡ is)
      × (length (front ++ (words is ++ rest)) ≡ 26 + n * 4 + length rest)
tail_intervals front is rest n size e all = (
  ap (read_intervals (front ++ (words is ++ rest)) 26) e
      ∙ read_intervals-append front (words is ++ rest) (length is) 26 0 (omega arith)
      ∙ read_intervals-words is rest all,
  omega (
    arith,
    length-append front (words is ++ rest),
    length-append (words is) rest,
    length-words is,
  ),
)

uncompressed_frame :
    (f : FrameDesc) (o : Option (List ℕ)) (rest : List ℕ)
    → IsFrame uncompressed f
    → f.intervals ≡ o
    → FitsIntervals f o
    → read_frame_uncompressed (encode_with uncompressed f o ++ rest) ≡ done f
unfolding read_frame_uncompressed with_intervals int_to_dw short_to_sw byte_at dw_to_int
uncompressed_frame f none rest h e (t, a, b, c) = ground (arith, t, a, b, c, e)
uncompressed_frame f (some is) rest h e (t, some_left, a, b, c, all) =
    let (read, size) =
      tail_intervals (frame_front uncompressed f (frame_size (some is))) is rest
        f.frame_interval_type refl t all in
    ground (arith, t, some_left, a, b, c, e, read, size)

mjpeg_frame :
    (flags : ℕ) (f : FrameDesc) (o : Option (List ℕ)) (rest : List ℕ)
    → IsFrame (mjpeg flags) f
    → f.intervals ≡ o
    → FitsIntervals f o
    → read_frame_uncompressed (encode_with (mjpeg flags) f o ++ rest) ≡ done f
unfolding read_frame_uncompressed with_intervals int_to_dw short_to_sw byte_at dw_to_int
mjpeg_frame flags f none rest h e (t, a, b, c) = ground (arith, t, a, b, c, e)
mjpeg_frame flags f (some is) rest h e (t, some_left, a, b, c, all) =
    let (read, size) =
      tail_intervals (frame_front (mjpeg flags) f (frame_size (some is))) is rest
        f.frame_interval_type refl t all in
    ground (arith, t, some_left, a, b, c, e, read, size)

frame_based_frame :
    (f : FrameDesc) (o : Option (List ℕ)) (rest : List ℕ)
    → IsFrame frame_based f
    → f.intervals ≡ o
    → FitsIntervals f o
    → read_frame_frame (encode_with frame_based f o ++ rest) ≡ done f
unfolding read_frame_frame with_intervals int_to_dw short_to_sw byte_at dw_to_int
frame_based_frame f none rest h e (t, a, b, c) = ground (arith, t, a, b, c, e)
frame_based_frame f (some is) rest h e (t, some_left, a, b, c, all) =
    let (read, size) =
      tail_intervals (frame_front frame_based f (frame_size (some is))) is rest
        f.frame_interval_type refl t all in
    ground (arith, t, some_left, a, b, c, e, read, size)

-- A frame's block is parsed to the frame.
parse_block-encode_frame :
    (k : Payload) (s : StreamingInterface) (f : FrameDesc) (rest : List ℕ)
    → IsFrame k f
    → parse_block s (encode_frame k f ++ rest) ≡ append_frame s f
unfolding parse_block parse_vs_frame_uncompressed parse_vs_frame_frame byte_at
parse_block-encode_frame uncompressed s f rest h =
    ap (λ r. after r (append_frame s)) (uncompressed_frame f f.intervals rest h refl h.intervals)
parse_block-encode_frame (mjpeg flags) s f rest h =
    ap (λ r. after r (append_frame s)) (mjpeg_frame flags f f.intervals rest h refl h.intervals)
parse_block-encode_frame frame_based s f rest h =
    ap (λ r. after r (append_frame s)) (frame_based_frame f f.intervals rest h refl h.intervals)

add_frame_last :
    (f : FrameDesc) (gs : List FormatDesc) (g : FormatDesc)
    → add_frame f (gs ++ (g ∷ []))
      ≡ done (gs ++ (record g { frame_descs = g.frame_descs ++ (f ∷ []) } ∷ []))
unfolding add_frame
add_frame_last f [] g = refl
add_frame_last f (x ∷ []) g = refl
add_frame_last f (x ∷ y ∷ gs) g =
    ap (λ r. after r (λ rest. done (x ∷ rest))) (add_frame_last f (y ∷ gs) g)

length-encode_with :
    (k : Payload) (f : FrameDesc) (o : Option (List ℕ)) → length (encode_with k f o) ≡ frame_size o
unfolding int_to_dw short_to_sw
length-encode_with uncompressed f none = omega arith
length-encode_with (mjpeg flags) f none = omega arith
length-encode_with frame_based f none = omega arith
length-encode_with uncompressed f (some is) = omega (arith, length-words is)
length-encode_with (mjpeg flags) f (some is) = omega (arith, length-words is)
length-encode_with frame_based f (some is) = omega (arith, length-words is)

frame_size_least : (o : Option (List ℕ)) → 3 ≤ frame_size o
frame_size_least none = omega arith
frame_size_least (some is) = omega arith

-- An interface whose last format has these frames.
abbrev pub with_last :
    StreamingInterface → List FormatDesc → FormatDesc → List FrameDesc → StreamingInterface
with_last s gs g fs = record s { format_descs = gs ++ (record g { frame_descs = fs } ∷ []) }

parse_vs-encode_frame :
    (k : Payload) (s : StreamingInterface) (gs : List FormatDesc) (g : FormatDesc)
    (fs : List FrameDesc) (f : FrameDesc) (rest : List ℕ)
    → IsFrame k f
    → parse_vs (with_last s gs g fs) (encode_frame k f ++ rest)
      ≡ done (pos 0, with_last s gs g (fs ++ (f ∷ [])))
unfolding parse_vs
parse_vs-encode_frame k s gs g fs f rest h =
    ap (λ r. after r (λ s'. done (pos 0, s')))
      (parse_block-encode_frame k (with_last s gs g fs) f rest h
        ∙ ap (λ r. after r (λ l. done (record s { format_descs = l })))
            (add_frame_last f gs (record g { frame_descs = fs })))

-- The frames of the last format are read behind those that it has.
pub Reads-encode_frames :
    (k : Payload) (s : StreamingInterface) (gs : List FormatDesc) (g : FormatDesc)
    (fs new : List FrameDesc) (rest : List ℕ) (r : ℤ × StreamingInterface)
    → AllFrames k new
    → Reads parse_vs (with_last s gs g (fs ++ new)) rest r
    → Reads parse_vs (with_last s gs g fs) (encode_frames k new ++ rest) r
unfolding encode_frames byte_at
Reads-encode_frames k s gs g fs [] rest r all reads =
    subst (λ l. Reads parse_vs (with_last s gs g l) rest r) (append-nil fs) reads
Reads-encode_frames k s gs g fs (f ∷ new) rest r (frame_then h all) reads =
    subst (λ p. Reads parse_vs (with_last s gs g fs) p r)
      (sym (append_assoc (encode_frame k f) (encode_frames k new) rest))
      (Reads-block parse_vs (with_last s gs g fs) (with_last s gs g (fs ++ (f ∷ [])))
        (encode_frame k f) (encode_frames k new ++ rest) r
        (parse_vs-encode_frame k s gs g fs f (encode_frames k new ++ rest) h)
        (sym (length-encode_with k f f.intervals))
        (omega (arith, length-encode_with k f f.intervals, frame_size_least f.intervals))
        (Reads-encode_frames k s gs g (fs ++ (f ∷ [])) new rest r all (
          subst (λ l. Reads parse_vs (with_last s gs g l) rest r)
            (sym (append_assoc fs (f ∷ []) new)) reads)))
