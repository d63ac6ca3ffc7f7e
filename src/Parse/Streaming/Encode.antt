-- ===== src/Parse/Streaming/Encode.antt =====
-- The descriptor blocks of a streaming interface as the USB Video Class lays them out: the bytes
-- that a device stores for a header, a format and a frame.
use tcluvc.Prelude.{
  ℕ, ◌+◌, ◌*◌, ◌<◌, ◌^◌, ◌≡◌, Option, none, some, List, [], ◌∷◌, ◌++◌, length, replicate,
}
use tcluvc.Bytes.{short_to_sw, int_to_dw}
use tcluvc.Descriptors.{FrameDesc, FormatDesc}

-- The payload formats, MJPEG with the flags of its format block, which the program drops; each with the subtypes of its format and frame blocks.
pub data Payload : Type 0 where
  uncompressed frame_based : Payload
  mjpeg : ℕ → Payload

abbrev pub format_subtype : Payload → ℕ
format_subtype uncompressed = 0x04
format_subtype (mjpeg flags) = 0x06
format_subtype frame_based = 0x10

abbrev pub frame_subtype : Payload → ℕ
frame_subtype uncompressed = 0x05
frame_subtype (mjpeg flags) = 0x07
frame_subtype frame_based = 0x11

unfoldable pub words : List ℕ → List ℕ
words [] = []
words (x ∷ xs) = int_to_dw x ++ words xs

-- What follows the head of a frame block.
abbrev pub encode_intervals : FrameDesc → Option (List ℕ) → List ℕ
encode_intervals f none =
    int_to_dw f.min_frame_interval
    ++ int_to_dw f.max_frame_interval
    ++ int_to_dw f.frame_interval_step
encode_intervals f (some is) = words is

abbrev pub frame_size : Option (List ℕ) → ℕ
frame_size none = 38
frame_size (some is) = 26 + length is * 4

abbrev pub frame_middle : Payload → FrameDesc → List ℕ
frame_middle frame_based f =
    int_to_dw f.default_frame_interval ++ (f.frame_interval_type ∷ int_to_dw f.bytes_per_line)
frame_middle _ f =
    int_to_dw f.max_video_frame_buffer_size
    ++ int_to_dw f.default_frame_interval
    ++ (f.frame_interval_type ∷ [])

abbrev pub frame_front : Payload → FrameDesc → ℕ → List ℕ
frame_front k f size =
    (size ∷ 36 ∷ frame_subtype k ∷ f.frame_index ∷ f.capabilities ∷ [])
    ++ short_to_sw f.width
    ++ short_to_sw f.height
    ++ int_to_dw f.min_bit_rate
    ++ int_to_dw f.max_bit_rate
    ++ frame_middle k f

abbrev pub encode_with : Payload → FrameDesc → Option (List ℕ) → List ℕ
encode_with k f o = frame_front k f (frame_size o) ++ encode_intervals f o

abbrev pub encode_frame : Payload → FrameDesc → List ℕ
encode_frame k f = encode_with k f f.intervals

pub data AllWords : List ℕ → Type 0 where
  no_words : AllWords []
  word_then : {x : ℕ} {xs : List ℕ} → x < 2 ^ 32 → AllWords xs → AllWords (x ∷ xs)

-- A frame with a list of intervals, or with a range of them.
abbrev pub FitsIntervals : FrameDesc → Option (List ℕ) → Type 0
FitsIntervals f none =
    (f.frame_interval_type ≡ 0)
    × (f.min_frame_interval < 2 ^ 32)
    × (f.max_frame_interval < 2 ^ 32)
    × (f.frame_interval_step < 2 ^ 32)
FitsIntervals f (some is) =
    (f.frame_interval_type ≡ length is)
    × (0 < length is)
    × (f.min_frame_interval ≡ 0)
    × (f.max_frame_interval ≡ 0)
    × (f.frame_interval_step ≡ 0)
    × AllWords is

-- The field that a frame block of the kind does not carry.
abbrev pub unused_field : Payload → FrameDesc → ℕ
unused_field frame_based f = f.max_video_frame_buffer_size
unused_field _ f = f.bytes_per_line

-- A frame that a block of the kind can carry.
pub record IsFrame (k : Payload) (f : FrameDesc) : Type 0 where
  pub subtype : f.subtype ≡ frame_subtype k
  pub width : f.width < 2 ^ 16
  pub height : f.height < 2 ^ 16
  pub min_bit_rate : f.min_bit_rate < 2 ^ 32
  pub max_bit_rate : f.max_bit_rate < 2 ^ 32
  pub buffer_size : f.max_video_frame_buffer_size < 2 ^ 32
  pub default_interval : f.default_frame_interval < 2 ^ 32
  pub bytes_per_line : f.bytes_per_line < 2 ^ 32
  pub unused : unused_field k f ≡ 0
  pub intervals : FitsIntervals f f.intervals

pub data AllFrames (k : Payload) : List FrameDesc → Type 0 where
  no_frames : AllFrames k []
  frame_then :
      {f : FrameDesc} {fs : List FrameDesc} → IsFrame k f → AllFrames k fs → AllFrames k (f ∷ fs)

unfoldable pub encode_frames : Payload → List FrameDesc → List ℕ
encode_frames k [] = []
encode_frames k (f ∷ fs) = encode_frame k f ++ encode_frames k fs

abbrev pub format_tail : Payload → FormatDesc → List ℕ
format_tail (mjpeg flags) g =
    flags ∷ g.default_frame_index ∷ g.aspect_ratio_x ∷ g.aspect_ratio_y ∷ g.interlace_flags
    ∷ g.copy_protect ∷ []
format_tail uncompressed g =
    g.bits_per_pixel ∷ g.default_frame_index ∷ g.aspect_ratio_x ∷ g.aspect_ratio_y
    ∷ g.interlace_flags ∷ g.copy_protect ∷ []
format_tail frame_based g =
    g.bits_per_pixel ∷ g.default_frame_index ∷ g.aspect_ratio_x ∷ g.aspect_ratio_y
    ∷ g.interlace_flags ∷ g.copy_protect ∷ g.variable_size ∷ []

abbrev pub format_size : Payload → ℕ
format_size uncompressed = 27
format_size (mjpeg flags) = 11
format_size frame_based = 28

abbrev pub guid_bytes : Payload → FormatDesc → List ℕ
guid_bytes (mjpeg flags) g = []
guid_bytes _ g = g.guid

-- The number of frames, which the program stores of a frame-based format only.
abbrev pub frame_count : Payload → FormatDesc → ℕ
frame_count frame_based g = g.num_frame_descriptors
frame_count _ g = length g.frame_descs

abbrev pub encode_format : Payload → FormatDesc → List ℕ
encode_format k g =
    (format_size k ∷ 36 ∷ format_subtype k ∷ g.format_index ∷ frame_count k g ∷ [])
    ++ (guid_bytes k g ++ format_tail k g)

-- What the program stores of a format apart from the fields that the block carries.
abbrev pub FitsPayload : Payload → FormatDesc → Type 0
FitsPayload uncompressed g =
    (length g.guid ≡ 16) × (g.num_frame_descriptors ≡ 0) × (g.variable_size ≡ 0)
FitsPayload (mjpeg flags) g =
    (g.guid ≡ 0x4d ∷ 0x4a ∷ 0x50 ∷ 0x47 ∷ replicate 12 0)
    × (g.bits_per_pixel ≡ 0)
    × (g.num_frame_descriptors ≡ 0)
    × (g.variable_size ≡ 0)
FitsPayload frame_based g = length g.guid ≡ 16

-- A format that a block of the kind can carry, with frames that blocks of the kind can.
pub record IsFormat (k : Payload) (g : FormatDesc) : Type 0 where
  pub subtype : g.subtype ≡ format_subtype k
  pub payload : FitsPayload k g
  pub frames : AllFrames k g.frame_descs

-- The blocks that the program skips: the still image frames and the colour matching.
pub data OtherBlock : Type 0 where
  still_image colour_matching : List ℕ → OtherBlock

abbrev pub encode_other : OtherBlock → List ℕ
encode_other (still_image p) = (3 + length p) ∷ 36 ∷ 0x03 ∷ p
encode_other (colour_matching p) = (3 + length p) ∷ 36 ∷ 0x0d ∷ p

unfoldable pub encode_others : List OtherBlock → List ℕ
encode_others [] = []
encode_others (b ∷ bs) = encode_other b ++ encode_others bs

-- A format with its frames and the blocks that are skipped behind it.
unfoldable pub encode_formats : List (Payload × FormatDesc × List OtherBlock) → List ℕ
encode_formats [] = []
encode_formats ((k, g, bs) ∷ gs) =
    encode_format k g ++ (encode_frames k g.frame_descs ++ (encode_others bs ++ encode_formats gs))

pub data AllFormats : List (Payload × FormatDesc × List OtherBlock) → Type 0 where
  no_formats : AllFormats []
  format_then :
      {k : Payload} {g : FormatDesc} {bs : List OtherBlock}
      {gs : List (Payload × FormatDesc × List OtherBlock)}
      → IsFormat k g
      → AllFormats gs
      → AllFormats ((k, g, bs) ∷ gs)

unfoldable pub formats_of : List (Payload × FormatDesc × List OtherBlock) → List FormatDesc
formats_of [] = []
formats_of ((k, g, bs) ∷ gs) = g ∷ formats_of gs

-- The fields of an input header apart from those that count formats and bytes.
pub record InputHeader : Type 0 where
  pub address : ℕ
  pub info : ℕ
  pub terminal : ℕ
  pub still_capture : ℕ
  pub trigger_support : ℕ
  pub trigger_usage : ℕ
  pub control_size : ℕ
  pub controls : List ℕ

-- An input header counts the formats, the bytes of all blocks with its own, and carries the same
-- number of control bytes for each format.
abbrev pub encode_header : InputHeader → ℕ → ℕ → List ℕ
encode_header h formats total =
    ((13 + length h.controls) ∷ 36 ∷ 1 ∷ formats ∷ [])
    ++ short_to_sw total
    ++ (h.address ∷ h.info ∷ h.terminal ∷ h.still_capture ∷ h.trigger_support ∷ h.trigger_usage
        ∷ h.control_size ∷ h.controls)

unfoldable pub encode_interface :
    InputHeader → List (Payload × FormatDesc × List OtherBlock) → List ℕ
encode_interface h gs =
    let blocks = encode_formats gs in
    encode_header h (length gs) (13 + length h.controls + length blocks) ++ blocks

pub record IsHeader (h : InputHeader) (gs : List (Payload × FormatDesc × List OtherBlock))
    : Type 0 where
  pub for_each_format : length h.controls ≡ length gs * h.control_size
  pub one_byte : 13 + length h.controls < 256
  pub two_bytes : length (encode_interface h gs) < 65536
