-- ===== src/Stream/Payload/Validity.antt =====
-- The invariant of the two image buffers, and when `_uvc_process_payload` stays inside memory.
use tcluvc.Prelude.{
  ℕ, ◌+◌, ◌-◌, ◌^◌, ◌≤◌, ◌<◌, ◌≡◌, some, List, arith, length, take, drop, if◌then◌else◌,
  Option-cases, inl, inr, length-write_at, length-take,
}
use tcluvc.Bytes.{byte_at}
use tcluvc.Stream.Payload.{
  Assembly, swap_buffers, turn_frame, read_pts, read_scr, append_data, store, consume, with_header,
  process_payload,
}

-- Both buffers have the allocated size, and what they hold fits in them.
pub record IsValid (cap : ℕ) (a : Assembly) : Type 0 where
  pub out_size : length a.outbuf ≡ cap
  pub hold_size : length a.holdbuf ≡ cap
  pub got_fits : a.got_bytes ≤ cap
  pub hold_fits : a.hold_bytes ≤ cap
  pub fid_bit : a.fid < 2
  pub seq_word : a.seq < 2 ^ 32

pub swap_buffers-IsValid : {cap : ℕ} {a : Assembly} → IsValid cap a → IsValid cap (swap_buffers a)
unfolding swap_buffers
swap_buffers-IsValid v = omega arith

pub turn_frame-IsValid :
    {cap : ℕ} {a : Assembly} (info : ℕ) → IsValid cap a → IsValid cap (turn_frame a info)
unfolding turn_frame swap_buffers
turn_frame-IsValid info v = ground arith

pub append_data-IsValid :
    {cap : ℕ} {a : Assembly} (p : List ℕ) (h d : ℕ)
    → IsValid cap a
    → a.got_bytes + d ≤ cap
    → IsValid cap (append_data a p h d)
unfolding append_data
append_data-IsValid {cap} {a} p h d v fits =
    ground
      (arith, length-write_at a.outbuf (take d (drop h p)) a.got_bytes, length-take d (drop h p))

pub store-IsValid :
    {cap : ℕ} {a b : Assembly} (p : List ℕ) (h d info : ℕ)
    → IsValid cap a
    → store a p h d info ≡ some b
    → IsValid cap b
unfolding store
store-IsValid {cap} {a} p h d info v e =
    ground (
      arith,
      append_data-IsValid p h d v,
      swap_buffers-IsValid {cap = cap} {a = append_data a p h d},
    )

-- The header's optional fields neither move data nor turn the frame.
stamps-IsValid :
    {cap : ℕ} {a b c : Assembly} (p : List ℕ) (info : ℕ)
    → IsValid cap a
    → read_pts a p info ≡ some b
    → read_scr b p info ≡ some c
    → IsValid cap c
unfolding read_pts read_scr
stamps-IsValid p info v e f = ground arith

with_header-IsValid :
    {cap : ℕ} {a b : Assembly} (p : List ℕ) (h d info : ℕ)
    → IsValid cap a
    → with_header a p h d info ≡ some b
    → IsValid cap b
unfolding with_header
with_header-IsValid {cap} {a} {b} p h d info v e =
    elim (Option-cases (read_pts (turn_frame a info) p info)) [
      | inl stop ↦ ground (arith, stop)
      | inr (b₁, e₁) ↦ elim (Option-cases (read_scr b₁ p info)) [
        | inl stop ↦ ground (arith, e₁, stop)
        | inr (b₂, e₂) ↦
            store-IsValid p h d info (stamps-IsValid p info (turn_frame-IsValid info v) e₁ e₂)
              (ground (arith, e₁, e₂))
      ]
    ]

consume-IsValid :
    {cap : ℕ} {a b : Assembly} (p : List ℕ) (h d : ℕ)
    → IsValid cap a
    → consume a p h d ≡ some b
    → IsValid cap b
unfolding consume
consume-IsValid {cap} {a} {b} p h d v e =
    ground
      (arith, store-IsValid {b = b} p h d 0 v, with_header-IsValid {b = b} p h d (byte_at p 1) v)

-- Whatever the payload, a step that stays inside memory keeps both buffers at the allocated size
-- and what they hold within it.
pub process_payload-IsValid :
    {cap : ℕ} {a b : Assembly} (p : List ℕ) (len : ℕ)
    → IsValid cap a
    → process_payload a p len ≡ some b
    → IsValid cap b
unfolding process_payload
process_payload-IsValid {cap} {a} {b} p len v e = ground (
  arith,
  consume-IsValid {b = b} p 0 len v,
  consume-IsValid {b = b} p (byte_at p 0) (if a.is_isight then 0 else len - byte_at p 0) v,
)

is_isight-with_header :
    (a b : Assembly) (p : List ℕ) (h d info : ℕ)
    → with_header a p h d info ≡ some b
    → b.is_isight ≡ a.is_isight
unfolding with_header turn_frame swap_buffers read_pts read_scr store append_data
is_isight-with_header a b p h d info e = ground arith

pub is_isight-process_payload :
    (a b : Assembly) (p : List ℕ) (len : ℕ)
    → process_payload a p len ≡ some b
    → b.is_isight ≡ a.is_isight
unfolding process_payload consume store append_data swap_buffers
is_isight-process_payload a b p len e = ground (
  arith,
  is_isight-with_header a b p 0 len (byte_at p 1),
  is_isight-with_header a b p (byte_at p 0) (if a.is_isight then 0 else len - byte_at p 0)
      (byte_at p 1),
)
