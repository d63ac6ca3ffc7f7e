-- ===== src/Delivery/Populate/Laws.antt =====
-- `_uvc_populate_frame` never leaves the frame's memory, and what it copies.
use tcluvc.Prelude.{
  ℕ, zero, suc, ◌+◌, ◌/◌, ◌-◌, ◌≤◌, ◌<◌, ◌≡◌, refl, ◌∙◌, ap, sym, Bool, true, false, some, List, [],
  ◌∷◌, ◌++◌, length, take, replicate, write_at, ltb, ◌==◌, if◌then◌else◌, arith, Bool-cases, inl,
  inr, length-append, length-take, length-replicate, length-write_at, take-write_at, append-nil,
}
use tcluvc.Bytes.{byte_at}
use tcluvc.Descriptors.{FrameDesc}
use tcluvc.StreamCtrl.Formats.{FrameFormat}
use tcluvc.Stream.Payload.{Assembly}
use tcluvc.Stream.Payload.Validity.{IsValid}
use tcluvc.Delivery.Populate.{
  Frame, Timespec, is_mjpeg, step_of, addsize, grow, add_eoi, copy_held, populate_frame,
}

-- What the frame holds lies inside its memory.
abbrev pub IsInside : Frame → Type 0
IsInside fr = fr.data_bytes ≤ length fr.memory

abbrev pub image : Frame → List ℕ
image fr = take fr.data_bytes fr.memory

abbrev pub held : Assembly → List ℕ
held a = take a.hold_bytes a.holdbuf

-- What belongs behind an MJPEG image for it to end with the marker FF D9; an image whose last
-- byte is D9 is taken to have it.
abbrev pub eoi_tail : List ℕ → List ℕ
eoi_tail img =
    if ltb (length img) 2
    then []
    else if byte_at img (length img - 1) == 0xd9
    then []
    else if byte_at img (length img - 1) == 0xff
    then 0xd9 ∷ []
    else 0xff ∷ 0xd9 ∷ []

length-grow : (fr : Frame) (size : ℕ) → IsInside fr → size ≤ length (grow fr size)
unfolding grow
length-grow fr size v = ground (
  arith,
  length-take size (fr.memory ++ replicate size 0),
  length-append fr.memory (replicate size 0),
  length-replicate {A = ℕ} size 0,
)

byte_at-take : (xs : List ℕ) (n i : ℕ) → i < n → byte_at (take n xs) i ≡ byte_at xs i
unfolding byte_at
byte_at-take [] zero i h = refl
byte_at-take [] (suc n) i h = refl
byte_at-take (x ∷ xs) zero i h = absurd (omega arith)
byte_at-take (x ∷ xs) (suc n) zero h = refl
byte_at-take (x ∷ xs) (suc n) (suc i) h = byte_at-take xs n i (omega arith)

length-held : {cap : ℕ} {a : Assembly} → IsValid cap a → length (held a) ≡ a.hold_bytes
length-held {a = a} v = omega (arith, length-take a.hold_bytes a.holdbuf, v.hold_size, v.hold_fits)

-- The copy stays inside both buffers, and the frame's memory then begins with the held image.
copy_held-done :
    {cap : ℕ} {a : Assembly} (mem : List ℕ)
    → IsValid cap a
    → a.hold_bytes ≤ length mem
    → (mem' : List ℕ) × (copy_held mem a ≡ some mem')
      × (length mem' ≡ length mem)
      × (take a.hold_bytes mem' ≡ held a)
unfolding copy_held
copy_held-done {a = a} mem v room = (
  write_at mem 0 (held a),
  ground (arith, v.hold_size, v.hold_fits),
  length-write_at mem (held a) 0 (omega (arith, length-held v)),
  ap (λ n. take n (write_at mem 0 (held a))) (sym (length-held v))
      ∙ (let e : 0 + length (held a) ≡ length (held a) = omega arith in
          ap (λ n. take n (write_at mem 0 (held a))) (sym e)
          ∙ take-write_at mem (held a) 0 (omega arith)),
)

-- An image's end without reference to the memory that it lies in.
eoi_tail-take :
    (mem : List ℕ) (n : ℕ)
    → n + 2 ≤ length mem
    → eoi_tail (take n mem) ≡ (
        if ltb n 2
        then []
        else if byte_at mem (n - 1) == 0xd9
        then []
        else if byte_at mem (n - 1) == 0xff
        then 0xd9 ∷ []
        else 0xff ∷ 0xd9 ∷ [])
eoi_tail-take mem n room = ground (arith, length-take n mem, size, byte_at-take mem n (n - 1))
  where
    size : length (take n mem) ≡ n
    size = omega (arith, length-take n mem)

-- Bytes added behind the first `n`.
added :
    (mem : List ℕ) (n : ℕ) (tail : List ℕ)
    → n + length tail ≤ length mem
    → (n + length tail ≤ length (write_at mem n tail))
      × (take (n + length tail) (write_at mem n tail) ≡ take n mem ++ tail)
added mem n tail room =
    (omega (arith, length-write_at mem tail n room), take-write_at mem tail n (omega arith))

abbrev IsDone : List ℕ → ℕ → Type 0
IsDone mem n =
    (mem' : List ℕ) × (k : ℕ) × (add_eoi mem n ≡ some (mem', k))
    × (k ≤ length mem')
    × (take k mem' ≡ take n mem ++ eoi_tail (take n mem))

unchanged :
    (mem : List ℕ) (n : ℕ)
    → n ≤ length mem
    → add_eoi mem n ≡ some (mem, n)
    → eoi_tail (take n mem) ≡ []
    → IsDone mem n
unchanged mem n room e t =
    (mem, n, e, room, sym (ap (λ us. take n mem ++ us) t ∙ append-nil (take n mem)))

extended :
    (mem : List ℕ) (n : ℕ) (tail : List ℕ)
    → n + length tail ≤ length mem
    → add_eoi mem n ≡ some (write_at mem n tail, n + length tail)
    → eoi_tail (take n mem) ≡ tail
    → IsDone mem n
extended mem n tail room e t = (
  write_at mem n tail,
  n + length tail,
  e,
  (added mem n tail room).0,
  (added mem n tail room).1 ∙ ap (λ us. take n mem ++ us) (sym t),
)

-- The marker is added inside the memory.
add_eoi-IsDone : (mem : List ℕ) (n : ℕ) → n + 2 ≤ length mem → IsDone mem n
unfolding add_eoi
add_eoi-IsDone mem n room = elim (Bool-cases (ltb n 2)) [
  | inl short ↦
      unchanged mem n (omega arith) (ground (arith, short))
        (eoi_tail-take mem n room ∙ ground (arith, short))
  | inr two ↦ elim (Bool-cases (byte_at mem (n - 1) == 0xd9)) [
    | inl d9 ↦
        unchanged mem n (omega arith) (ground (arith, two, d9))
          (eoi_tail-take mem n room ∙ ground (arith, two, d9))
    | inr other ↦ elim (Bool-cases (byte_at mem (n - 1) == 0xff)) [
      | inl ff ↦
          extended mem n (0xd9 ∷ []) (omega arith) (ground (arith, two, other, ff))
            (eoi_tail-take mem n room ∙ ground (arith, two, other, ff))
      | inr neither ↦
          extended mem n (0xff ∷ 0xd9 ∷ []) (omega arith) (ground (arith, two, other, neither))
            (eoi_tail-take mem n room ∙ ground (arith, two, other, neither))
    ]
  ]
]

-- The image that is delivered for a held one.
abbrev pub delivered : FrameFormat → List ℕ → List ℕ
delivered format img = if is_mjpeg format then img ++ eoi_tail img else img

finished :
    (marked : Bool) (mem : List ℕ) (n : ℕ)
    → n + (if marked then 2 else 0) ≤ length mem
    → (mem' : List ℕ) × (k : ℕ) × ((if marked then add_eoi mem n else some (mem, n))
        ≡ some (mem', k))
      × (k ≤ length mem')
      × (take k mem' ≡ (if marked then take n mem ++ eoi_tail (take n mem) else take n mem))
finished true mem n room = add_eoi-IsDone mem n room
finished false mem n room = (mem, n, refl, omega arith, refl)

-- With valid buffers and a frame whose data lies in its memory, a held frame is always copied out, if
-- the device has the descriptor: no byte is read or written outside the buffers, and the frame's
-- image is the held one. Behind an MJPEG image of two bytes or more whose last byte is not D9 comes
-- what its last byte lacks of the marker FF D9; a last D9 is taken for the marker, whatever is before
-- it. The frame's size is the descriptor's, its number that of the held frame, and it can be filled
-- again.
pub populate_frame-delivers :
    {cap : ℕ} {a : Assembly} (fr : Frame) (format : FrameFormat) (desc : FrameDesc) (ts : Timespec)
    → IsValid cap a
    → IsInside fr
    → (fr' : Frame) × (populate_frame fr format (some desc) a ts ≡ some fr')
      × IsInside fr'
      × (image fr' ≡ delivered format (held a))
      × (fr'.width ≡ desc.width)
      × (fr'.height ≡ desc.height)
      × (fr'.sequence ≡ a.hold_seq)
unfolding populate_frame
populate_frame-delivers {a = a} fr format desc ts v inside =
    let (mem, copied, size, begins) =
      copy_held-done (grow fr (a.hold_bytes + addsize format)) v
        (omega (arith, length-grow fr (a.hold_bytes + addsize format) inside)) in
    let (mem', k, ended, inside', ends) =
      finished (is_mjpeg format) mem a.hold_bytes
        (omega (arith, size, length-grow fr (a.hold_bytes + addsize format) inside)) in
    (
      record {
        memory = mem';
        data_bytes = k;
        width = desc.width;
        height = desc.height;
        frame_format = format;
        step = step_of format desc.width;
        sequence = a.hold_seq;
        tv_sec = ts.tv_sec;
        tv_usec = ts.tv_nsec / 1000;
        library_owns_data = fr.library_owns_data;
      },
      rw (copied, ended) refl,
      inside',
      ends ∙ ap (delivered format) begins,
      refl,
      refl,
      refl,
    )
