-- ===== src/Stream/Callback.antt =====
-- `_uvc_stream_callback` of libuvc/src/stream.c: the packets of a completed transfer, and whether
-- the transfer goes back to libusb or is given up.
use tcluvc.Prelude.{
  ℕ, ◌+◌, Bool, true, false, not, Option, none, some, ◌>>=◌, List, [], ◌∷◌, ◌==◌, if◌then◌else◌,
}
use tcluvc.Prelude.Int.{ℤ, pos, negsuc}
use tcluvc.Stream.Payload.{Assembly, process_payload}

-- `strmh->transfers[i]` (a pointer is a number, NULL is `none`) and `strmh->transfer_flags[i]`.
pub record Slot : Type 0 where
  pub transfer : Option ℕ
  pub is_deleted : Bool

-- The fields of `struct uvc_stream_handle` that the transfers use.
pub record Stream : Type 0 where
  pub asm : Assembly
  pub running : Bool
  pub slots : List Slot

pub data TransferStatus : Type 0 where
  completed error cancelled timed_out stall overflow no_device : TransferStatus

pub record IsoPacket : Type 0 where
  pub status : ℕ
  pub actual_length : ℕ
  pub memory : List ℕ

pub record Transfer : Type 0 where
  pub id : ℕ
  pub status : TransferStatus
  pub buffer : List ℕ
  pub actual_length : ℕ
  pub iso_packets : List IsoPacket

-- The loop over the packets of an isochronous transfer.
unfoldable pub process_packets : Assembly → List IsoPacket → Option Assembly
process_packets a [] = some a
process_packets a (k ∷ ks) =
    (if not (k.status == 0)
      then some (record a { clear_halts = a.clear_halts + 1 })
      else if k.actual_length == 0
      then some a
      else process_payload a k.memory k.actual_length)
    >>= λ b. process_packets b ks

-- A bulk transfer is one payload.
unfoldable pub process_transfer : Assembly → Transfer → Option Assembly
process_transfer a t = elim t.iso_packets [
  | [] ↦ process_payload a t.buffer t.actual_length
  | k ∷ ks ↦ process_packets a (k ∷ ks)
]

abbrev pub holds : Slot → ℕ → Bool
holds s t = elim s.transfer [ none ↦ false | some u ↦ u == t ]

-- The first slot that holds the transfer is marked as deleted.
unfoldable pub mark_deleted : List Slot → ℕ → List Slot
mark_deleted [] t = []
mark_deleted (s ∷ ss) t =
    let rest = mark_deleted ss t in
    if holds s t then record s { is_deleted = true } ∷ ss else s ∷ rest

-- What libusb was told of the transfer: it was submitted again, which returned a result, or not.
pub data Fate : Type 0 where
  offered : ℤ → Fate
  withheld : Fate

unfoldable pub release_transfer : Stream → ℕ → Stream × Fate
release_transfer s t = (
  record s {
    slots = mark_deleted s.slots t;
    asm = record s.asm { broadcasts = s.asm.broadcasts + 1 };
  },
  withheld,
)

-- `submitted` is what `libusb_submit_transfer` returns if it is called; LIBUSB_ERROR_BUSY is -6.
unfoldable pub resubmit : Stream → ℕ → ℤ → Stream × Fate
resubmit s t (pos n) = (s, offered (pos n))
resubmit s t (negsuc n) = ((if n == 5 then s else (release_transfer s t).0), offered (negsuc n))

unfoldable pub stream_callback : Stream → Transfer → ℤ → Option (Stream × Fate)
stream_callback s t submitted = elim t.status [
  | completed ↦
      if not s.running
      then some (release_transfer s t.id)
      else (process_transfer s.asm t >>= λ a. some (resubmit (record s { asm = a }) t.id submitted))
  | no_device ↦ some (release_transfer (record s { running = false }) t.id)
  | cancelled ↦ some (release_transfer s t.id)
  | error ↦ some (release_transfer s t.id)
  | timed_out ↦ some (if not s.running then release_transfer s t.id else resubmit s t.id submitted)
  | stall ↦ some (if not s.running then release_transfer s t.id else resubmit s t.id submitted)
  | overflow ↦ some (if not s.running then release_transfer s t.id else resubmit s t.id submitted)
]
