-- ===== src/Stream/Overrun.antt =====
-- What `_uvc_process_payload` does not check: whether the data fits the 16 MB buffer.
use tcluvc.Prelude.{
  ℕ, ◌+◌, ◌-◌, ◌%◌, ◌<◌, ◌≡◌, ◌∙◌, ap, Bool, false, none, List, [], ◌∷◌, ◌++◌, arith, length, ◌⊎◌,
  inl, inr, length-append, append-nil, leb, Bool-cases,
}
use tcluvc.Bytes.{byte_at}
use tcluvc.Stream.Payload.{Assembly, turn_frame, store, consume, process_payload}
use tcluvc.Stream.Payload.Validity.{IsValid}
use tcluvc.Stream.Payload.Refine.{view, header_of, stamped, with_header-stamped}
use tcluvc.Stream.Callback.{IsoPacket, process_packets}
use tcluvc.Stream.Packets.{
  Carries, AllCarry, data_of, all_data, IsOpenFor, length-data_of, length-pending,
}
use tcluvc.Stream.Frames.{Ran-one, got_bytes-Ran}

no_room :
    {cap : ℕ} {a : Assembly} (p : List ℕ) (h d info : ℕ)
    → IsValid cap a
    → (a.fid ≡ info % 2) ⊎ (a.got_bytes ≡ 0)
    → cap < a.got_bytes + d
    → store (stamped (turn_frame a info) p info) p h d info ≡ none
unfolding store stamped turn_frame
no_room p h d info v o over = ground arith

packet_overruns :
    {cap id : ℕ} {ends : Bool} {a : Assembly} (k : IsoPacket) (ks : List IsoPacket)
    → IsValid cap a
    → a.is_isight ≡ false
    → IsOpenFor id (view a)
    → Carries id ends k
    → cap < a.got_bytes + length (data_of k)
    → process_packets a (k ∷ ks) ≡ none
unfolding process_packets process_payload consume header_of view
packet_overruns {a = a} k ks v plain o c over = ground (
  arith,
  with_header-stamped a p h (k.actual_length - h) (byte_at p 1) c.fields,
  no_room p h (k.actual_length - h) (byte_at p 1) v,
  length-data_of c,
  length-pending v,
)
  where
    p : List ℕ
    p = k.memory

    h : ℕ
    h = byte_at p 0

-- A camera that sends more data under one frame ID than the buffer has room for, with no end bit,
-- makes `memcpy` write outside the buffer: the fault comes at the latest with the packet whose data
-- no longer fits, whatever follows.
pub endless_frame_overruns :
    {cap id : ℕ} {a : Assembly} (ks rest : List IsoPacket)
    → IsValid cap a
    → a.is_isight ≡ false
    → IsOpenFor id (view a)
    → AllCarry id ks
    → cap < a.got_bytes + length (all_data ks)
    → process_packets a (ks ++ rest) ≡ none
endless_frame_overruns [] rest v plain o c over = absurd (omega (arith, v.got_fits))
endless_frame_overruns {cap} {a = a} (k ∷ ks) rest v plain o (c, cs) over =
    elim (Bool-cases (leb (a.got_bytes + length (data_of k)) cap)) [
      | inr full ↦ packet_overruns k (ks ++ rest) v plain o c (ground (arith, full))
      | inl fits ↦
          let (b, r) = Ran-one k (ks ++ rest) v plain o c (ground (arith, fits)) in
          r.steps
          ∙ endless_frame_overruns {a = b} ks rest r.valid r.plain r.open_for cs (
              omega (
                arith,
                length-append (data_of k) (all_data ks),
                got_bytes-Ran (k ∷ []) (ks ++ rest) v r,
                ap length (append-nil (data_of k)),
              ))
    ]
