-- ===== src/Avi/Recording.antt =====
-- What a recording has written of an AVI file: the chunks of its frames, and the index to them.
use tcluvc.Prelude.{
  ℕ, zero, suc, ◌≡◌, refl, sym, ap, ◌∙◌, inl, inr, ◌+◌, ◌-◌, ◌%◌, true, false, Option, none, some,
  List, [], ◌∷◌, ◌++◌, length, take, take-length, replicate, length-append, length-replicate,
  append_assoc, append-nil, ltb, arith, Bool-cases, Option-cases,
}
use tcluvc.Prelude.Int.{pos}
use tcluvc.Avi.Headers.{AviIdx, chunk_hdr, frame_id, put32le}
use tcluvc.Avi.{Writer}
use tcluvc.Avi.Write.{aligned, grow_index, append_index, count_frame}

-- The chunk of a frame: a name, a size and the data, filled up to a multiple of four.
unfoldable pub chunk : List ℕ → List ℕ
chunk p =
    (chunk_hdr frame_id (aligned (length p)) ++ p) ++ replicate (aligned (length p) - length p) 0

unfoldable pub body : List (List ℕ) → List ℕ
unfolding chunk
body [] = []
body (p ∷ ps) = chunk p ++ body ps

abbrev pub entry_at : ℕ → List ℕ → AviIdx
entry_at off p = record {
  flags = 0;
  offset = off % 4294967296;
  size = aligned (length p) % 4294967296;
}

-- Each chunk follows the one before.
unfoldable pub index_from : ℕ → List (List ℕ) → List AviIdx
index_from off [] = []
index_from off (p ∷ ps) = entry_at off p ∷ index_from (off + (aligned (length p) + 8)) ps

abbrev pub filled : Option (List AviIdx) → ℕ → List AviIdx
filled none n = []
filled (some es) n = take n es

abbrev pub allocated : Option (List AviIdx) → ℕ → ℕ
allocated none n = n
allocated (some es) n = 0

pub length-chunk : (p : List ℕ) → length (chunk p) ≡ aligned (length p) + 8
unfolding chunk chunk_hdr put32le
length-chunk p = omega (
  arith,
  length-append (chunk_hdr frame_id (aligned (length p)) ++ p)
      (replicate (aligned (length p) - length p) 0),
  length-append (chunk_hdr frame_id (aligned (length p))) p,
  length-replicate {A = ℕ} (aligned (length p) - length p) 0,
)

pub body-append : (ps : List (List ℕ)) (p : List ℕ) → body (ps ++ (p ∷ [])) ≡ body ps ++ chunk p
unfolding body
body-append [] p = append-nil (chunk p)
body-append (q ∷ ps) p =
    ap (λ z. chunk q ++ z) (body-append ps p) ∙ sym (append_assoc (chunk q) (body ps) (chunk p))

index_from-append :
    (ps : List (List ℕ)) (p : List ℕ) (off : ℕ)
    → index_from off (ps ++ (p ∷ []))
      ≡ index_from off ps ++ (entry_at (off + length (body ps)) p ∷ [])
unfolding index_from body
index_from-append [] p off = ap (λ n. entry_at n p ∷ []) (omega arith)
index_from-append (q ∷ ps) p off =
    ap (λ z. entry_at off q ∷ z)
      (index_from-append ps p (off + (aligned (length q) + 8))
        ∙ ap (λ n. index_from (off + (aligned (length q) + 8)) ps ++ (entry_at n p ∷ []))
            (omega (arith, length-append (chunk q) (body ps), length-chunk q)))

pub length-index_from : (ps : List (List ℕ)) (off : ℕ) → length (index_from off ps) ≡ length ps
unfolding index_from
length-index_from [] off = refl
length-index_from (p ∷ ps) off = ap suc (length-index_from ps (off + (aligned (length p) + 8)))

-- The counts of a writer in the first segment, and the numbers that do not change.
pub record HasWritten (ps : List (List ℕ)) (a : Writer) : Type 0 where
  pub total : a.totsize ≡ length (body ps)
  pub segment : a.segsize ≡ length (body ps)
  pub frames : a.nframes ≡ length ps
  pub indexed : filled a.idx a.curr_idx ≡ index_from 4 ps
  pub counted : a.curr_idx ≡ length ps
  pub room : allocated a.idx a.num_idx ≡ 0
  pub next_offset : a.idx_off ≡ 4 + length (body ps)
  pub from_start : a.pos0 ≡ pos 0
  pub header_size : a.hdrsize ≡ pos 228
  pub kind_size : length a.avi_hdrv.strh.kind ≡ 4
  pub handler_size : length a.avi_hdrv.strh.handler ≡ 4
  pub compr_size : length a.avi_hdrv.strf.compr ≡ 4

take_filled :
    (es : List AviIdx) (n : ℕ) (e : AviIdx) (off : ℕ) (ps : List (List ℕ))
    → take n es ≡ index_from off ps
    → n ≡ length ps
    → take (n + 1) (take n es ++ (e ∷ [])) ≡ take n es ++ (e ∷ [])
take_filled es n e off ps same count =
    ap (λ k. take k (take n es ++ (e ∷ []))) long ∙ take-length (take n es ++ (e ∷ []))
  where
    long : n + 1 ≡ length (take n es ++ (e ∷ []))
    long =
        omega (
          arith,
          length-append (take n es) (e ∷ []),
          ap length same,
          length-index_from ps off,
          count,
        )

append_entry :
    (ps : List (List ℕ)) (p : List ℕ) (a : Writer) (es : List AviIdx)
    → a.idx ≡ some es
    → take a.curr_idx es ≡ index_from 4 ps
    → a.curr_idx ≡ length ps
    → a.idx_off ≡ 4 + length (body ps)
    → (filled
          (append_index a (aligned (length p))).idx
          (append_index a (aligned (length p))).curr_idx
        ≡ index_from 4 (ps ++ (p ∷ [])))
unfolding append_index
append_entry ps p a es e same count off =
    rw (append_index, e)
      (take_filled es a.curr_idx _ 4 ps same count
        ∙ rw (same, off) (sym (index_from-append ps p 4)))

pub body_longer :
    (ps : List (List ℕ)) (p : List ℕ)
    → length (body (ps ++ (p ∷ []))) ≡ length (body ps) + (aligned (length p) + 8)
body_longer ps p =
    omega (arith, ap length (body-append ps p), length-append (body ps) (chunk p), length-chunk p)

-- A table of the writer that takes the next entry.
grown :
    (ps : List (List ℕ)) (a : Writer)
    → allocated a.idx a.num_idx ≡ 0
    → filled a.idx a.curr_idx ≡ index_from 4 ps
    → (es : List AviIdx) × ((grow_index true a).idx ≡ some es)
      × (take a.curr_idx es ≡ index_from 4 ps)
unfolding grow_index
grown ps a room indexed = elim (Option-cases a.idx) [
  | inl e ↦ (
    [],
    (let full : ltb a.curr_idx a.num_idx ≡ false = ground (arith, room, e) in
        rw (grow_index, full, e)),
    take_none a.curr_idx ∙ (rw e at indexed),
  )
  | inr (es, e) ↦ elim (Bool-cases (ltb a.curr_idx a.num_idx)) [
    | inl c ↦ (es, rw (grow_index, c, e), (rw e at indexed))
    | inr c ↦ (es, rw (grow_index, c, e), (rw e at indexed))
  ]
]
  where
    take_none : (n : ℕ) → take {A = AviIdx} n [] ≡ []
    take_none zero = refl
    take_none (suc n) = refl

-- What growing the table leaves alone.
abbrev Same : Writer → Writer → Type 0
Same b c =
    (b.totsize ≡ c.totsize)
    × (b.segsize ≡ c.segsize)
    × (b.nframes ≡ c.nframes)
    × (b.curr_idx ≡ c.curr_idx)
    × (b.idx_off ≡ c.idx_off)
    × (b.pos0 ≡ c.pos0)
    × (b.hdrsize ≡ c.hdrsize)
    × (b.avi_hdrv ≡ c.avi_hdrv)

grow_keeps : (c : Writer) → Same (grow_index true c) c
unfolding grow_index
grow_keeps c = elim (Bool-cases (ltb c.curr_idx c.num_idx)) [
  | inl t ↦ rw (grow_index, t) (refl, refl, refl, refl, refl, refl, refl, refl)
  | inr t ↦ rw (grow_index, t) (refl, refl, refl, refl, refl, refl, refl, refl)
]

indexed_frame :
    (ps : List (List ℕ)) (p : List ℕ) (a b : Writer) (es : List AviIdx)
    → HasWritten ps a
    → b.idx ≡ some es
    → take a.curr_idx es ≡ index_from 4 ps
    → Same b (count_frame a (aligned (length p)))
    → HasWritten (ps ++ (p ∷ [])) (append_index b (aligned (length p)))
unfolding append_index
indexed_frame ps p a b es h e same (tot, seg, fr, cur, off, start, size, video) = record {
  total = rw (append_index, e) (tot ∙ omega (arith, h.total, body_longer ps p));
  segment = rw (append_index, e) (seg ∙ omega (arith, h.segment, body_longer ps p));
  frames = rw (append_index, e) (fr ∙ omega (arith, h.frames, length-append ps (p ∷ [])));
  indexed =
      append_entry ps p b es e (ap (λ n. take n es) cur ∙ same) (cur ∙ h.counted)
        (off ∙ h.next_offset);
  counted = rw (append_index, e) (omega (arith, cur, h.counted, length-append ps (p ∷ [])));
  room = rw (append_index, e);
  next_offset = rw (append_index, e) (omega (arith, off, h.next_offset, body_longer ps p));
  from_start = rw (append_index, e) (start ∙ h.from_start);
  header_size = rw (append_index, e) (size ∙ h.header_size);
  kind_size = rw (append_index, e) (ap (λ v. length v.strh.kind) video ∙ h.kind_size);
  handler_size = rw (append_index, e) (ap (λ v. length v.strh.handler) video ∙ h.handler_size);
  compr_size = rw (append_index, e) (ap (λ v. length v.strf.compr) video ∙ h.compr_size);
}

-- A writer that differs from another in nothing that the counts and the index do not show.
abbrev pub next_writer : Writer → ℕ → Writer
next_writer a sizea = append_index (grow_index true (count_frame a sizea)) sizea

pub counted_frame :
    (ps : List (List ℕ)) (p : List ℕ) (a : Writer)
    → HasWritten ps a
    → HasWritten (ps ++ (p ∷ [])) (next_writer a (aligned (length p)))
counted_frame ps p a h =
    let b : Writer = grow_index true (count_frame a (aligned (length p))) in
    let (es, e, same) = grown ps (count_frame a (aligned (length p))) h.room h.indexed in
    indexed_frame ps p a b es h e same (grow_keeps (count_frame a (aligned (length p))))
