-- ===== src/Stream/Frames.antt =====
-- Whole frames: what a run of isochronous packets of one frame leaves in the held buffer.
use tcluvc.Prelude.{
  ℕ, ◌+◌, ◌%◌, ◌^◌, ◌≤◌, ◌≡◌, refl, ◌∙◌, ap, sym, true, false, some, List, [], ◌∷◌, ◌++◌, arith,
  length, length-append, inl, append-nil, append_assoc,
}
use tcluvc.Stream.Payload.{Assembly}
use tcluvc.Stream.Payload.Validity.{IsValid}
use tcluvc.Stream.Payload.Refine.{view, header_of}
use tcluvc.Stream.Callback.{IsoPacket, process_packets}
use tcluvc.Stream.Packets.{
  data_of, Carries, AllCarry, all_data, length-data_of, length-pending, packet_step, Grows,
  IsOpenFor, feed_middle, feed_last,
}

-- After a run of middle packets, with whatever packets `rest` still come.
pub record Ran (cap id : ℕ) (a : Assembly) (ks rest : List IsoPacket) (b : Assembly) : Type 0 where
  pub steps : process_packets a (ks ++ rest) ≡ process_packets b rest
  pub valid : IsValid cap b
  pub plain : b.is_isight ≡ false
  pub open_for : IsOpenFor id (view b)
  pub grows : Grows (view a) (view b) (all_data ks)

Ran-start :
    {cap id : ℕ} {a : Assembly} (rest : List IsoPacket)
    → IsValid cap a
    → a.is_isight ≡ false
    → IsOpenFor id (view a)
    → Ran cap id a [] rest a
Ran-start {a = a} rest v plain o = record {
  steps = refl;
  valid = v;
  plain = plain;
  open_for = o;
  grows = record {
    pending = sym (append-nil (view a).pending);
    held = refl;
    seq = refl;
    held_seq = refl;
  };
}

pub Ran-one :
    {cap id : ℕ} {a : Assembly} (k : IsoPacket) (rest : List IsoPacket)
    → IsValid cap a
    → a.is_isight ≡ false
    → IsOpenFor id (view a)
    → Carries id false k
    → a.got_bytes + length (data_of k) ≤ cap
    → (b : Assembly) × Ran cap id a (k ∷ []) rest b
Ran-one {id = id} {a = a} k rest v plain o c room =
    let (b, e, vb, pb, fb) = packet_step k rest v plain c room in
    let here : IsOpenFor (header_of k.memory).frame_id (view a) = ground (arith, c.same_frame) in
    let (g, f) = feed_middle (view a) (header_of k.memory) (data_of k) here c.no_error c.end_bit in
    (
      b,
      record {
        steps = e;
        valid = vb;
        plain = pb;
        open_for = inl (ap (λ w. w.fid) fb ∙ f ∙ c.same_frame);
        grows = record {
          pending =
              ap (λ w. w.pending) fb
              ∙ g.pending
              ∙ ap (◌++◌ (view a).pending) (sym (append-nil (data_of k)));
          held = ap (λ w. w.held) fb ∙ g.held;
          seq = ap (λ w. w.seq) fb ∙ g.seq;
          held_seq = ap (λ w. w.held_seq) fb ∙ g.held_seq;
        };
      },
    )

Ran-cons :
    {cap id : ℕ} {a b d : Assembly} (k : IsoPacket) (ks rest : List IsoPacket)
    → Ran cap id a (k ∷ []) (ks ++ rest) b
    → Ran cap id b ks rest d
    → Ran cap id a (k ∷ ks) rest d
Ran-cons {a = a} k ks rest r q = record {
  steps = r.steps ∙ q.steps;
  valid = q.valid;
  plain = q.plain;
  open_for = q.open_for;
  grows = record {
    pending =
        q.grows.pending
        ∙ ap (λ w. w ++ all_data ks) (r.grows.pending ∙ ap (◌++◌ (view a).pending) (append-nil _))
        ∙ append_assoc (view a).pending (data_of k) (all_data ks);
    held = q.grows.held ∙ r.grows.held;
    seq = q.grows.seq ∙ r.grows.seq;
    held_seq = q.grows.held_seq ∙ r.grows.held_seq;
  };
}

-- The pending bytes are counted by `got_bytes`.
pub got_bytes-Ran :
    {cap id : ℕ} {a b : Assembly} (ks rest : List IsoPacket)
    → IsValid cap a
    → Ran cap id a ks rest b
    → b.got_bytes ≡ a.got_bytes + length (all_data ks)
got_bytes-Ran {a = a} ks rest v r = omega (
  arith,
  length-pending v,
  length-pending r.valid,
  ap length r.grows.pending,
  length-append (view a).pending (all_data ks),
)

packets_accumulate :
    {cap id : ℕ} {a : Assembly} (ks rest : List IsoPacket)
    → IsValid cap a
    → a.is_isight ≡ false
    → IsOpenFor id (view a)
    → AllCarry id ks
    → a.got_bytes + length (all_data ks) ≤ cap
    → (b : Assembly) × Ran cap id a ks rest b
packets_accumulate {a = a} [] rest v plain o c room = (a, Ran-start rest v plain o)
packets_accumulate {a = a} (k ∷ ks) rest v plain o (c, cs) room =
    let (b, r) = Ran-one k (ks ++ rest) v plain o c (omega (arith, sizes)) in
    let (d, q) =
      packets_accumulate {a = b} ks rest r.valid r.plain r.open_for cs
        (omega (arith, sizes, got_bytes-Ran (k ∷ []) (ks ++ rest) v r, one)) in
    (d, Ran-cons k ks rest r q)
  where
    sizes : length (data_of k ++ all_data ks) ≡ length (data_of k) + length (all_data ks)
    sizes = length-append (data_of k) (all_data ks)

    one : length (data_of k ++ []) ≡ length (data_of k)
    one = ap length (append-nil (data_of k))

-- Packets of one frame that arrived whole, each with a header inside memory, without the error bit
-- and with image data, the last and only the last with the end bit: with valid buffers and nothing
-- pending of another frame, the held frame is then what was pending followed by the data of the
-- packets in order, nothing is pending, and the frame has the sequence number that was next, if all
-- of it fits the buffer and the camera is no iSight.
pub frame_delivered :
    {cap id : ℕ} {a : Assembly} (ks : List IsoPacket) (last : IsoPacket)
    → IsValid cap a
    → a.is_isight ≡ false
    → IsOpenFor id (view a)
    → AllCarry id ks
    → Carries id true last
    → a.got_bytes + length (all_data ks) + length (data_of last) ≤ cap
    → (b : Assembly) × (process_packets a (ks ++ last ∷ []) ≡ some b)
      × IsValid cap b
      × ((view b).held ≡ (view a).pending ++ (all_data ks ++ data_of last))
      × ((view b).pending ≡ [])
      × ((view b).held_seq ≡ a.seq)
      × ((view b).seq ≡ (a.seq + 1) % 2 ^ 32)
unfolding process_packets view
frame_delivered {id = id} {a = a} ks last v plain o cs c room =
    let (b, r) = packets_accumulate ks (last ∷ []) v plain o cs (omega arith) in
    let (d, e, vd, _, fd) =
      packet_step last [] r.valid r.plain c (omega (arith, got_bytes-Ran ks (last ∷ []) v r)) in
    let here : IsOpenFor (header_of last.memory).frame_id (view b) =
      ground (arith, c.same_frame, r.open_for) in
    let (h, p, hs, s) =
      feed_last (view b) (header_of last.memory) (data_of last) here c.no_error c.end_bit
        (omega (arith, length-data_of c)) in
    (
      d,
      r.steps ∙ e,
      vd,
      ap (λ w. w.held) fd
          ∙ h
          ∙ ap (λ w. w ++ data_of last) r.grows.pending
          ∙ append_assoc (view a).pending (all_data ks) (data_of last),
      ap (λ w. w.pending) fd ∙ p,
      ap (λ w. w.held_seq) fd ∙ hs ∙ r.grows.seq,
      ap (λ w. w.seq) fd ∙ s ∙ ap (λ n. (n + 1) % 2 ^ 32) r.grows.seq,
    )
