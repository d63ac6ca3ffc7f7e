-- ===== src/Avi/Finish.antt =====
-- How `CloseAVISegment` and `WriteAVIHeader` of tcluvc.c finish a file of one segment: the headers
-- are written over the first ones, and the index follows the frames.
use mathlib.Core.Path.{subst}
use tcluvc.Prelude.{
  ℕ, ◌≡◌, refl, sym, ap, ◌∙◌, ◌+◌, ◌*◌, ◌%◌, true, false, some, List, ◌++◌, length, take,
  append_assoc, arith, ltb,
}
use tcluvc.Prelude.Int.{ℤ, pos, ◌+ℤ◌}
use tcluvc.Avi.Clock.{◌-ℤ◌}
use tcluvc.Avi.Channels.{Channel}
use tcluvc.Avi.Headers.{AviIdx, chunk_hdr, idx1, idx_bytes}
use tcluvc.Avi.{
  Writer, Output, is_failed, update_headers, rewrite_headers, write_avi_header, next_segment,
  close_avi_segment,
}
use tcluvc.Avi.File.{IsFile, AtEnd, write_end, tell_end}
use tcluvc.Avi.Recording.{body, index_from, filled, HasWritten}
use tcluvc.Avi.Frames.{IsRecording}
use tcluvc.Avi.Sizes.{headers, IsSized}
use tcluvc.Avi.Rewrite.{headers_rewritten, header_update}

-- What a finished file says of itself.
pub record IsFinished (ps : List (List ℕ)) (a : Writer) : Type 0 where
  pub riff_size : a.avi_hdr.riff_size ≡ (236 + (length (body ps) + length ps * 16)) % 4294967296
  pub hdrl_size : a.avi_hdr.hdrl_size ≡ 208
  pub movi_size : a.avi_data ≡ (length (body ps) + 4) % 4294967296
  pub frames : a.avi_hdr.avih.nframes ≡ length ps % 4294967296
  pub has_index : a.avi_hdr.avih.flags ≡ 16
  pub sized : IsSized a.avi_hdrv

HasWritten-IsSized : (ps : List (List ℕ)) (a : Writer) → HasWritten ps a → IsSized a.avi_hdrv
HasWritten-IsSized ps a h = record {
  kind_size = h.kind_size;
  handler_size = h.handler_size;
  compr_size = h.compr_size;
}

pub update_headers-IsSized :
    (a : Writer) (flags idx_size : ℕ)
    → IsSized a.avi_hdrv
    → IsSized (update_headers a flags idx_size).avi_hdrv
unfolding update_headers
update_headers-IsSized a flags idx_size s = record {
  kind_size = s.kind_size;
  handler_size = s.handler_size;
  compr_size = s.compr_size;
}

-- The writer once the segment is closed, and once the index is written.
abbrev pub closed_writer : Writer → ℤ → Writer
closed_writer a here =
    record (update_headers (record a { nframes0 = a.nframes; segsize0 = a.segsize }) 0 0) {
      segsize = 0;
      segstart = here;
    }

update_headers-IsFinished :
    (ps : List (List ℕ)) (a : Writer) (here : ℤ)
    → HasWritten ps a
    → IsFinished ps (update_headers (closed_writer a here) 16 (a.curr_idx * 16 + 8))
unfolding update_headers ◌+ℤ◌ ◌-ℤ◌
update_headers-IsFinished ps a here h = record {
  riff_size = rw (h.header_size, h.segment, h.counted) (ground arith);
  hdrl_size = rw h.header_size (ground arith);
  movi_size = ap (λ n. (n + 4) % 4294967296) h.segment;
  frames = ap (λ n. n % 4294967296) h.frames;
  has_index = refl;
  sized = record {
    kind_size = h.kind_size;
    handler_size = h.handler_size;
    compr_size = h.compr_size;
  };
}

pub start_update :
    (a : Writer) (flags idx_size : ℕ) → (update_headers a flags idx_size).pos0 ≡ a.pos0
unfolding update_headers
start_update a flags idx_size = refl

pub behind : (a b c d : List ℕ) → (((a ++ b) ++ c) ++ d) ≡ a ++ (b ++ (c ++ d))
behind a b c d = simp append_assoc

module _ (chan : Channel) (contents : chan.State → List ℕ) (position : chan.State → ℕ)
    (file : IsFile chan contents position) where
  index_update :
      (t : Output chan.State) (es : List AviIdx)
      → t.avi.idx ≡ some es
      → (write_avi_header chan t true).out
        ≡ (rewrite_headers chan (record t {
          out =
              (chan.write_raw
                (chan.write_raw t.out (chunk_hdr idx1 (t.avi.curr_idx * 16))).1
                (idx_bytes (take t.avi.curr_idx es))).1;
          avi = update_headers t.avi 16 (t.avi.curr_idx * 16 + 8);
        })).out
  unfolding write_avi_header
  index_update t es has = ground (arith, has)

  close_single :
      (t w : Output chan.State)
      → ltb t.avi.segsize t.avi.totsize ≡ false
      → write_avi_header chan
          (record t {
            out = (chan.tell t.out).1;
            avi = record t.avi { nframes0 = t.avi.nframes; segsize0 = t.avi.segsize };
          })
          false
        ≡ w
      → is_failed w.rstate ≡ false
      → close_avi_segment chan t true
        ≡ record w { avi = record w.avi { segsize = 0; segstart = (chan.tell t.out).0 } }
  unfolding close_avi_segment next_segment
  close_single t w single e works = ground (arith, single, e, works)

  segment_closed :
      (t : Output chan.State) (old : Writer) (ps : List (List ℕ))
      → IsSized old.avi_hdrv
      → IsRecording contents position (headers old) ps t
      → (s : chan.State) × (here : ℤ) × (close_avi_segment chan t true
          ≡ record t { out = s; avi = closed_writer t.avi here })
        × AtEnd contents position s (headers (closed_writer t.avi here) ++ body ps)
  unfolding headers
  segment_closed t old ps sized r =
      let a : Writer = record t.avi { nframes0 = t.avi.nframes; segsize0 = t.avi.segsize } in
      let (_, told) =
        tell_end chan contents position file t.out (headers old ++ body ps) r.at_end in
      let t₁ : Output chan.State = record t {
        out = (chan.tell t.out).1;
        avi = update_headers a 0 0;
      } in
      let (s, e, end) =
        headers_rewritten chan contents position file t₁ old (body ps) told sized
          (update_headers-IsSized a 0 0 (HasWritten-IsSized ps t.avi r.writer))
          (start_update a 0 0 ∙ r.writer.from_start) in
      let single : ltb t.avi.segsize t.avi.totsize ≡ false =
        ground (arith, r.writer.segment, r.writer.total) in
      let t₀ : Output chan.State = record {
        out = (chan.tell t.out).1;
        rstate = t.rstate;
        avi = a;
      } in
      let w : write_avi_header chan t₀ false ≡ record t₁ { out = s } =
        header_update chan contents position file t₀ ∙ e in
      (s, (chan.tell t.out).0, close_single t (record t₁ { out = s }) single w r.works, end)

  index_written :
      (t : Output chan.State) (ps : List (List ℕ)) (es : List AviIdx)
      → AtEnd contents position t.out (headers t.avi ++ body ps)
      → IsSized t.avi.avi_hdrv
      → t.avi.pos0 ≡ pos 0
      → t.avi.idx ≡ some es
      → AtEnd contents position (write_avi_header chan t true).out (
          headers (update_headers t.avi 16 (t.avi.curr_idx * 16 + 8))
          ++ (body ps
              ++ (chunk_hdr idx1 (t.avi.curr_idx * 16) ++ idx_bytes (take t.avi.curr_idx es))))
  index_written t ps es e sized start has =
      let name : List ℕ = chunk_hdr idx1 (t.avi.curr_idx * 16) in
      let index : List ℕ = idx_bytes (take t.avi.curr_idx es) in
      let (_, e₁) = write_end chan contents position file t.out (headers t.avi ++ body ps) name e in
      let s₁ : chan.State = (chan.write_raw t.out name).1 in
      let (_, e₂) =
        write_end chan contents position file s₁ ((headers t.avi ++ body ps) ++ name) index e₁ in
      let a : Writer = update_headers t.avi 16 (t.avi.curr_idx * 16 + 8) in
      let t₂ : Output chan.State = record t { out = (chan.write_raw s₁ index).1; avi = a } in
      let (s, w, end) =
        headers_rewritten chan contents position file t₂ t.avi (body ps ++ (name ++ index))
          (subst (AtEnd contents position t₂.out) (behind (headers t.avi) (body ps) name index) e₂)
          sized (update_headers-IsSized t.avi 16 (t.avi.curr_idx * 16 + 8) sized)
          (start_update t.avi 16 (t.avi.curr_idx * 16 + 8) ∙ start) in
      subst (λ z. AtEnd contents position z (headers a ++ (body ps ++ (name ++ index))))
        (sym (index_update t es has ∙ ap (λ z. z.out) w)) end

  -- The segment closed and the headers and the index written: the whole file.
  pub close_avi_segment-IsFinished :
      (t : Output chan.State) (old : Writer) (ps : List (List ℕ)) (es : List AviIdx)
      → IsSized old.avi_hdrv
      → IsRecording contents position (headers old) ps t
      → t.avi.idx ≡ some es
      → (a : Writer) × IsFinished ps a
        × AtEnd contents position (write_avi_header chan (close_avi_segment chan t true) true).out (
            headers a
            ++ (body ps ++ (chunk_hdr idx1 (length ps * 16) ++ idx_bytes (index_from 4 ps))))
  unfolding update_headers
  close_avi_segment-IsFinished t old ps es sized r has =
      let (s, here, e, end) = segment_closed t old ps sized r in
      let t' : Output chan.State = record t { out = s; avi = closed_writer t.avi here } in
      let a : Writer = update_headers t'.avi 16 (t.avi.curr_idx * 16 + 8) in
      let sizes = update_headers-IsFinished ps t.avi here r.writer in
      let filled_up : take t.avi.curr_idx es ≡ index_from 4 ps =
        ap (λ o. filled o t.avi.curr_idx) (sym has) ∙ r.writer.indexed in
      let written =
        index_written t' ps es end
          (update_headers-IsSized
            (record t.avi { nframes0 = t.avi.nframes; segsize0 = t.avi.segsize }) 0 0
            (HasWritten-IsSized ps t.avi r.writer))
          r.writer.from_start has in
      (
        a,
        sizes,
        subst
            (AtEnd contents position
              (write_avi_header chan (close_avi_segment chan t true) true).out)
            (ap
                (λ n.
                  headers a
                  ++ (body ps ++ (chunk_hdr idx1 (n * 16) ++ idx_bytes (take t.avi.curr_idx es))))
                r.writer.counted
              ∙ ap (λ l. headers a ++ (body ps ++ (chunk_hdr idx1 (length ps * 16) ++ idx_bytes l)))
                  filled_up)
            (subst
              (λ z. AtEnd contents position (write_avi_header chan z true).out (
                headers a
                ++ (body ps
                    ++ (chunk_hdr idx1 (t.avi.curr_idx * 16)
                        ++ idx_bytes (take t.avi.curr_idx es)))))
              (sym e) written),
      )
