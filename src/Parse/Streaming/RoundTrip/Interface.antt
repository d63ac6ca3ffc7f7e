-- ===== src/Parse/Streaming/RoundTrip/Interface.antt =====
-- The scan of an interface reads all formats and frames that its blocks carry.
use mathlib.Core.Path.{subst}
use tcluvc.Prelude.{
  ℕ, suc, ◌+◌, ◌≤◌, ◌≡◌, refl, sym, some, List, [], ◌∷◌, ◌++◌, length, arith, append-nil,
  append_assoc, done, get_elem?,
}
use tcluvc.Prelude.Int.{ℤ, pos}
use tcluvc.Bytes.{byte_at, short_to_sw}
use tcluvc.Descriptors.{FormatDesc, StreamingInterface}
use tcluvc.Usb.Config.{AltSetting}
use tcluvc.Parse.Scan.Laws.{Reads, Reads-end, Reads-block}
use tcluvc.Parse.Streaming.{
  endpoint_bits, parse_vs_input_header, parse_block, parse_vs, new_interface, scan_streaming,
}
use tcluvc.Parse.Streaming.Encode.{
  OtherBlock, still_image, colour_matching, encode_other, encode_others, InputHeader, IsHeader,
  encode_header, Payload, encode_format, encode_frames, encode_formats, AllFormats, format_then,
  formats_of, encode_interface, format_size, uncompressed, mjpeg, frame_based,
}
use tcluvc.Parse.Streaming.RoundTrip.Frame.{Reads-encode_frames}
use tcluvc.Parse.Streaming.RoundTrip.Format.{parse_vs-encode_format, length-encode_format}

format_size_least : (k : Payload) → 3 ≤ format_size k
format_size_least uncompressed = omega arith
format_size_least (mjpeg flags) = omega arith
format_size_least frame_based = omega arith

abbrev with_formats : StreamingInterface → List FormatDesc → StreamingInterface
with_formats s gs = record s { format_descs = gs }

abbrev Entry : Type 0
Entry = Payload × FormatDesc × List OtherBlock

skip_other :
    (s : StreamingInterface) (b : OtherBlock) (rest : List ℕ)
    → parse_vs s (encode_other b ++ rest) ≡ done (pos 0, s)
unfolding parse_vs parse_block byte_at
skip_other s (still_image p) rest = refl
skip_other s (colour_matching p) rest = refl

other_size_least : (b : OtherBlock) → 3 ≤ length (encode_other b)
other_size_least (still_image p) = omega arith
other_size_least (colour_matching p) = omega arith

byte_at-encode_other :
    (b : OtherBlock) (rest : List ℕ) → byte_at (encode_other b ++ rest) 0 ≡ length (encode_other b)
unfolding byte_at
byte_at-encode_other (still_image p) rest = omega arith
byte_at-encode_other (colour_matching p) rest = omega arith

-- The other blocks change nothing.
Reads-encode_others :
    (s : StreamingInterface) (bs : List OtherBlock) (rest : List ℕ) (r : ℤ × StreamingInterface)
    → Reads parse_vs s rest r
    → Reads parse_vs s (encode_others bs ++ rest) r
unfolding encode_others
Reads-encode_others s [] rest r reads = reads
Reads-encode_others s (b ∷ bs) rest r reads =
    subst (λ p. Reads parse_vs s p r) (sym (append_assoc (encode_other b) (encode_others bs) rest))
      (Reads-block parse_vs s s (encode_other b) (encode_others bs ++ rest) r
        (skip_other s b (encode_others bs ++ rest))
        (byte_at-encode_other b (encode_others bs ++ rest)) (other_size_least b)
        (Reads-encode_others s bs rest r reads))

-- Formats are read behind those that the interface has.
Reads-encode_formats :
    (s : StreamingInterface) (gs : List FormatDesc) (new : List Entry)
    → AllFormats new
    → Reads parse_vs
        (with_formats s gs)
        (encode_formats new)
        (pos 0, with_formats s (gs ++ formats_of new))
unfolding encode_formats formats_of byte_at
Reads-encode_formats s gs [] all =
    subst (λ l. Reads parse_vs (with_formats s gs) [] (pos 0, with_formats s l))
      (sym (append-nil gs)) (Reads-end parse_vs (with_formats s gs))
Reads-encode_formats s gs ((k, g, bs) ∷ new) (format_then h all) =
    Reads-block parse_vs (with_formats s gs)
      (with_formats s (gs ++ (record g { frame_descs = [] } ∷ []))) (encode_format k g)
      (encode_frames k g.frame_descs ++ (encode_others bs ++ encode_formats new)) _
      (parse_vs-encode_format k (with_formats s gs) g _ h) (sym (length-encode_format k g h))
      (omega (arith, length-encode_format k g h, format_size_least k))
      (Reads-encode_frames k s gs g [] g.frame_descs (encode_others bs ++ encode_formats new) _
        h.frames
        (Reads-encode_others (with_formats s (gs ++ (g ∷ []))) bs (encode_formats new) _ (
          subst
            (λ l.
              Reads parse_vs (with_formats s (gs ++ (g ∷ []))) (encode_formats new)
                (pos 0, with_formats s l))
            (append_assoc gs (g ∷ []) (formats_of new))
            (Reads-encode_formats s (gs ++ (g ∷ [])) new all))))

abbrev headed : ℕ → InputHeader → StreamingInterface
headed number h = record (new_interface number) {
  endpoint_address = h.address;
  terminal_link = h.terminal;
}

parse_vs-header :
    (s : StreamingInterface) (h : InputHeader) (formats total : ℕ) (rest : List ℕ)
    → endpoint_bits h.address ≡ h.address
    → parse_vs s (encode_header h formats total ++ rest)
      ≡ done (pos 0, record s { endpoint_address = h.address; terminal_link = h.terminal })
unfolding parse_vs parse_block parse_vs_input_header byte_at short_to_sw
parse_vs-header s h formats total rest bits = ground (arith, bits)

length-encode_header :
    (h : InputHeader) (formats total : ℕ)
    → length (encode_header h formats total) ≡ 13 + length h.controls
unfolding short_to_sw
length-encode_header h formats total = omega arith

-- A streaming interface that stores its input header, its formats, each format's frames and the
-- still image and colour matching blocks behind them as the USB Video Class lays them out is read
-- back whole: its first setting's number, the endpoint, the terminal, and the formats with their
-- frames and intervals in order. The endpoint's address has no other bits than a direction and a
-- number, the lengths fit their fields, and every format and frame is one that its kind of block
-- can carry.
pub scan_streaming-encode_interface :
    (config : List (List AltSetting)) (i : ℕ) (h : InputHeader) (alt : AltSetting)
    (alts : List AltSetting) (gs : List (Payload × FormatDesc × List OtherBlock))
    → get_elem? config i ≡ some (alt ∷ alts)
    → alt.extra ≡ encode_interface h gs
    → IsHeader h gs
    → endpoint_bits h.address ≡ h.address
    → AllFormats gs
    → scan_streaming config i
      ≡ done (
        pos 0,
        record {
          interface_number = alt.interface_number;
          endpoint_address = h.address;
          terminal_link = h.terminal;
          format_descs = formats_of gs;
        },
      )
unfolding scan_streaming encode_interface byte_at short_to_sw
scan_streaming-encode_interface config i h alt alts gs e stored _ bits all =
    let formats : ℕ = length gs in
    let total : ℕ = 13 + length h.controls + length (encode_formats gs) in
    rw (scan_streaming, e, stored)
      (Reads-block parse_vs (new_interface alt.interface_number) (headed alt.interface_number h)
        (encode_header h formats total) (encode_formats gs) _
        (parse_vs-header (new_interface alt.interface_number) h formats total (encode_formats gs)
          bits)
        (sym (length-encode_header h formats total))
        (omega (arith, length-encode_header h formats total))
        (Reads-encode_formats (headed alt.interface_number h) [] gs all)
        (suc (length (encode_interface h gs))) (omega arith))
