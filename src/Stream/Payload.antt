-- ===== src/Stream/Payload.antt =====
-- `_uvc_swap_buffers` and `_uvc_process_payload` of libuvc/src/stream.c, on the fields of
-- `struct uvc_stream_handle` (libuvc/include/libuvc/libuvc_internal.h) that they use.
-- The two image buffers are lists of their allocated length. A payload is the memory from its
-- first byte to the end of the transfer buffer, beside its length. `none` is an access outside
-- one of these three. `clear_halts` and `broadcasts` count the calls of `libusb_clear_halt` and
-- `pthread_cond_broadcast`.
pub mod Validity
pub mod Assemble
pub mod Refine
use tcluvc.Prelude.{
  ℕ, ◌+◌, ◌-◌, ◌%◌, ◌^◌, Bool, true, false, not, ◌&&◌, ◌||◌, Option, none, some, ◌>>=◌, List, [],
  ◌∷◌, ltb, leb, ◌==◌, if◌then◌else◌, length, take, drop, write_at,
}
use tcluvc.Bytes.{byte_at, dw_to_int, test_bit}

pub record Assembly : Type 0 where
  pub is_isight : Bool
  pub fid : ℕ
  pub seq : ℕ
  pub hold_seq : ℕ
  pub pts : ℕ
  pub hold_pts : ℕ
  pub last_scr : ℕ
  pub hold_last_scr : ℕ
  pub got_bytes : ℕ
  pub hold_bytes : ℕ
  pub outbuf : List ℕ
  pub holdbuf : List ℕ
  pub clear_halts : ℕ
  pub broadcasts : ℕ

unfoldable pub swap_buffers : Assembly → Assembly
swap_buffers a = record a {
  seq = (seq + 1) % 2 ^ 32;
  hold_seq = seq;
  pts = 0;
  hold_pts = pts;
  last_scr = 0;
  hold_last_scr = last_scr;
  got_bytes = 0;
  hold_bytes = got_bytes;
  outbuf = holdbuf;
  holdbuf = outbuf;
  broadcasts = broadcasts + 1;
}
  where
    open a use {seq, pts, last_scr, got_bytes, outbuf, holdbuf, broadcasts}

abbrev pub isight_tag : List ℕ
isight_tag = 0x11 ∷ 0x22 ∷ 0x33 ∷ 0x44 ∷ 0xde ∷ 0xad ∷ 0xbe ∷ 0xef ∷ 0xde ∷ 0xad ∷ 0xfa ∷ 0xce ∷ []

-- `memcmp(xs, ys, n) == 0` on two runs of `n` bytes.
unfoldable pub same_bytes : List ℕ → List ℕ → Bool
same_bytes [] [] = true
same_bytes (x ∷ xs) (y ∷ ys) = x == y && same_bytes xs ys
same_bytes _ _ = false

-- Whether an iSight packet is all image data: the tag stands neither at offset 2 nor at 3.
unfoldable pub is_untagged : List ℕ → ℕ → Bool
is_untagged p len =
    (ltb len 14 || not (same_bytes isight_tag (take 12 (drop 2 p))))
    && (ltb len 15 || not (same_bytes isight_tag (take 12 (drop 3 p))))

-- The frame ID bit was flipped while data of the last frame is still there.
unfoldable pub turn_frame : Assembly → ℕ → Assembly
turn_frame a info =
    let b = if not (a.fid == info % 2) && not (a.got_bytes == 0) then swap_buffers a else a in
    record b { fid = info % 2 }

unfoldable pub read_pts : Assembly → List ℕ → ℕ → Option Assembly
read_pts a p info =
    if test_bit info 2
    then (if leb 6 (length p) then some (record a { pts = dw_to_int p 2 }) else none)
    else some a

-- `variable_offset` when the clock reference is read.
abbrev pub scr_offset : ℕ → ℕ
scr_offset info = if test_bit info 2 then 6 else 2

unfoldable pub read_scr : Assembly → List ℕ → ℕ → Option Assembly
read_scr a p info =
    if test_bit info 3
    then (if leb (scr_offset info + 4) (length p)
        then some (record a { last_scr = dw_to_int p (scr_offset info) })
        else none)
    else some a

-- `memcpy` of the image data behind what the frame has so far.
unfoldable pub append_data : Assembly → List ℕ → ℕ → ℕ → Assembly
append_data a p header_len data_len = record a {
  outbuf = write_at a.outbuf a.got_bytes (take data_len (drop header_len p));
  got_bytes = a.got_bytes + data_len;
}

unfoldable pub store : Assembly → List ℕ → ℕ → ℕ → ℕ → Option Assembly
store a p header_len data_len info =
    if ltb 0 data_len
    then (if leb (a.got_bytes + data_len) (length a.outbuf)
          && leb (header_len + data_len) (length p)
        then some (
            let b = append_data a p header_len data_len in
            if test_bit info 1 then swap_buffers b else b)
        else none)
    else some a

-- A payload with a header and no error bit.
unfoldable pub with_header : Assembly → List ℕ → ℕ → ℕ → ℕ → Option Assembly
with_header a p header_len data_len info = do
  b ← read_pts (turn_frame a info) p info
  c ← read_scr b p info
  store c p header_len data_len info

-- What follows once `header_len` and `data_len` are known.
unfoldable pub consume : Assembly → List ℕ → ℕ → ℕ → Option Assembly
consume a p header_len data_len =
    if ltb header_len 2
    then store a p header_len data_len 0
    else if test_bit (byte_at p 1) 6
    then some (record a { clear_halts = a.clear_halts + 1 })
    else with_header a p header_len data_len (byte_at p 1)

unfoldable pub process_payload : Assembly → List ℕ → ℕ → Option Assembly
process_payload a p payload_len =
    if payload_len == 0
    then some a
    else if a.is_isight && is_untagged p payload_len
    then consume a p 0 payload_len
    else if ltb payload_len (byte_at p 0)
    then some a
    else consume a p (byte_at p 0) (if a.is_isight then 0 else payload_len - byte_at p 0)
