-- ===== src/StreamCtrl/Find.antt =====
-- `_uvc_find_frame_desc_stream_if` and `uvc_find_frame_desc` of libuvc/src/stream.c.
use tcluvc.Prelude.{ℕ, Option, none, some, List, [], ◌∷◌, ◌==◌, if◌then◌else◌}
use tcluvc.Descriptors.{FrameDesc, FormatDesc, StreamingInterface, DeviceInfo}

unfoldable pub find_frame : List FrameDesc → ℕ → Option FrameDesc
find_frame [] frame_id = none
find_frame (f ∷ fs) frame_id =
    let rest = find_frame fs frame_id in if f.frame_index == frame_id then some f else rest

abbrev pub or_else {ℓ} : {A : Type ℓ} → Option A → Option A → Option A
or_else none o = o
or_else (some a) o = some a

-- A format with the index that lacks the frame does not end the search.
unfoldable pub find_in_formats : List FormatDesc → ℕ → ℕ → Option FrameDesc
find_in_formats [] format_id frame_id = none
find_in_formats (f ∷ fs) format_id frame_id =
    let rest = find_in_formats fs format_id frame_id in
    if f.format_index == format_id then or_else (find_frame f.frame_descs frame_id) rest else rest

unfoldable pub find_frame_desc_stream_if : StreamingInterface → ℕ → ℕ → Option FrameDesc
unfolding find_in_formats find_frame
find_frame_desc_stream_if i = find_in_formats i.format_descs

unfoldable pub find_in_stream_ifs : List StreamingInterface → ℕ → ℕ → Option FrameDesc
find_in_stream_ifs [] format_id frame_id = none
find_in_stream_ifs (i ∷ is) format_id frame_id =
    let rest = find_in_stream_ifs is format_id frame_id in
    or_else (find_frame_desc_stream_if i format_id frame_id) rest

unfoldable pub find_frame_desc : DeviceInfo → ℕ → ℕ → Option FrameDesc
unfolding find_in_stream_ifs find_frame_desc_stream_if
find_frame_desc info = find_in_stream_ifs info.stream_ifs
