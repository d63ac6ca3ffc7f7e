-- ===== src/Stream/Packets.antt =====
-- One isochronous packet of a frame: what it carries, and what it does to the two buffers.
use tcluvc.Prelude.{
  ℕ, ◌+◌, ◌-◌, ◌%◌, ◌^◌, ◌≤◌, ◌<◌, ◌≡◌, ◌∙◌, ap, sym, Bool, true, false, some, List, [], ◌∷◌, ◌++◌,
  arith, length, length-take, ◌⊎◌, inl, inr, append-nil, Option-cases,
}
use mathlib.Core.Option
use mathlib.Core.Option.{some-injective}
use tcluvc.Bytes.{byte_at}
use tcluvc.Stream.Payload.{Assembly, process_payload}
use tcluvc.Stream.Payload.Validity.{IsValid, process_payload-IsValid, is_isight-process_payload}
use tcluvc.Stream.Payload.Assemble.{Header, View, publish, feed}
use tcluvc.Stream.Payload.Refine.{
  view, header_of, slice, fields_end, process_payload-feed, length-slice,
}
use tcluvc.Stream.Callback.{IsoPacket, process_packets}

-- The image data of a packet.
abbrev pub data_of : IsoPacket → List ℕ
data_of k = slice k.memory (byte_at k.memory 0) (k.actual_length - byte_at k.memory 0)

-- A packet that arrived whole and without the error bit, of the frame with ID `id`, with data.
pub record Carries (id : ℕ) (ends : Bool) (k : IsoPacket) : Type 0 where
  pub arrived : k.status ≡ 0
  pub has_header : 2 ≤ byte_at k.memory 0
  pub has_data : byte_at k.memory 0 < k.actual_length
  pub inside : k.actual_length ≤ length k.memory
  pub fields : fields_end (byte_at k.memory 1) ≤ length k.memory
  pub no_error : (header_of k.memory).is_error ≡ false
  pub same_frame : (header_of k.memory).frame_id ≡ id
  pub end_bit : (header_of k.memory).ends_frame ≡ ends

abbrev pub AllCarry : ℕ → List IsoPacket → Type 0
AllCarry id [] = Unit {0}
AllCarry id (k ∷ ks) = Carries id false k × AllCarry id ks

abbrev pub all_data : List IsoPacket → List ℕ
all_data [] = []
all_data (k ∷ ks) = data_of k ++ all_data ks

pub length-data_of :
    {id : ℕ} {ends : Bool} {k : IsoPacket}
    → Carries id ends k
    → length (data_of k) + byte_at k.memory 0 ≡ k.actual_length
length-data_of {k = k} c =
    omega (arith, length-slice k.memory (byte_at k.memory 0) (k.actual_length - byte_at k.memory 0))

pub length-pending :
    {cap : ℕ} {a : Assembly} → IsValid cap a → length (view a).pending ≡ a.got_bytes
unfolding view
length-pending {a = a} v = omega (arith, length-take a.got_bytes a.outbuf)

-- One such packet, stated so that the next state has a name.
pub packet_step :
    {cap id : ℕ} {ends : Bool} {a : Assembly} (k : IsoPacket) (ks : List IsoPacket)
    → IsValid cap a
    → a.is_isight ≡ false
    → Carries id ends k
    → a.got_bytes + length (data_of k) ≤ cap
    → (b : Assembly) × (process_packets a (k ∷ ks) ≡ process_packets b ks)
      × IsValid cap b
      × (b.is_isight ≡ false)
      × (view b ≡ feed (view a) (header_of k.memory) (data_of k))
unfolding process_packets
packet_step {a = a} k ks v plain c room = elim (Option-cases (process_payload a p len)) [
  | inl stop ↦ absurd (cc (stop, spec))
  | inr (b, e) ↦ (
    b,
    ground (arith, e),
    process_payload-IsValid p len v e,
    is_isight-process_payload a b p len e ∙ plain,
    some-injective _ _ (ap (Option.map view) (sym e) ∙ spec),
  )
]
  where
    p : List ℕ
    p = k.memory

    len : ℕ
    len = k.actual_length

    spec :
        Option.map view (process_payload a p len) ≡ some (feed (view a) (header_of p) (data_of k))
    spec =
        process_payload-feed p len v plain c.has_header (omega arith) c.inside c.fields
          (omega (arith, length-data_of c))

-- What a packet in the middle of a frame does: its data goes behind the pending data.
pub record Grows (v w : View) (bytes : List ℕ) : Type 0 where
  pub pending : w.pending ≡ v.pending ++ bytes
  pub held : w.held ≡ v.held
  pub seq : w.seq ≡ v.seq
  pub held_seq : w.held_seq ≡ v.held_seq

-- The frame in progress has this ID, or there is none in progress.
abbrev pub IsOpenFor : ℕ → View → Type 0
IsOpenFor id v = (v.fid ≡ id) ⊎ (v.pending ≡ [])

pub feed_middle :
    (v : View) (h : Header) (bytes : List ℕ)
    → IsOpenFor h.frame_id v
    → h.is_error ≡ false
    → h.ends_frame ≡ false
    → Grows v (feed v h bytes) bytes × ((feed v h bytes).fid ≡ h.frame_id)
unfolding feed publish
feed_middle v h bytes o ok more = ground (arith, append-nil v.pending)

pub feed_last :
    (v : View) (h : Header) (bytes : List ℕ)
    → IsOpenFor h.frame_id v
    → h.is_error ≡ false
    → h.ends_frame ≡ true
    → 0 < length bytes
    → let w = feed v h bytes in
      (w.held ≡ v.pending ++ bytes)
      × (w.pending ≡ [])
      × (w.held_seq ≡ v.seq)
      × (w.seq ≡ (v.seq + 1) % 2 ^ 32)
unfolding feed publish
feed_last v h [] o ok last some_data = absurd (omega arith)
feed_last v h (x ∷ bytes) o ok last some_data = ground arith
