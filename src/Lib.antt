-- ===== src/Lib.antt =====
-- libuvc, the user-space driver for USB video cameras of libuvc/src, under the Tcl extension
-- tcluvc.c: how it assembles frames, keeps its transfers, negotiates a stream, reads and writes
-- camera controls, and how the extension captures and records frames.
--
-- The parts and how they interact. libusb hands every finished transfer to `_uvc_stream_callback`
-- (libuvc/src/stream.c), which passes its payloads to `_uvc_process_payload` and gives the transfer
-- back to libusb; a complete frame is swapped into the hold buffer, from which the user's thread
-- takes it. `uvc_stream_stop` cancels the transfers and waits until every one has called back.
-- Before a stream starts, its control block is probed and committed by control transfers. Controls
-- such as focus or brightness are control transfers to a terminal or unit. The extension's
-- `FrameCallback` is called with each frame; it keeps the newest, wakes the interpreter's thread by an
-- event, and hands frames to a recording.
--
--   Prelude, Prelude/*    names of the libraries passed on, Boolean tests, lists, integers
--   Bytes, Bytes/*        SHORT_TO_SW, INT_TO_DW, SW_TO_SHORT, DW_TO_INT
--                         (libuvc/include/libuvc/libuvc_internal.h)
--   Usb, Usb/*            what the program calls of libusb, the error codes and the requests
--   Descriptors           the descriptor structures of libuvc.h and libuvc_internal.h
--   Stream/Payload        `_uvc_process_payload`, `_uvc_swap_buffers` (libuvc/src/stream.c), with
--                         Validity (the invariant of the buffers), Assemble (a specification
--                         of frame assembly) and Refine (the code implements it)
--   Stream/Callback       `_uvc_stream_callback`
--   Stream/Packets        what one packet carries, Stream/Frames whole frames, Stream/Overrun
--                         frames without an end
--   Stream/Stop           the submission loop of `uvc_stream_start`, and `uvc_stream_stop`
--   Stream/Lifecycle      interleavings of callbacks with a stop, Stream/Started those after a start,
--                         Stream/Drain the wait of a stop
--   StreamCtrl/Wire       the bytes of a control block, Find the search for a frame descriptor,
--                         Query `uvc_query_stream_ctrl` and `uvc_stream_ctrl`,
--                         Formats the format table, Probe `uvc_probe_stream_ctrl`, Negotiate
--                         `uvc_get_stream_ctrl_format_size`
--   Controls/Camera, Processing, Selector
--                         the 80 functions of libuvc/src/ctrl-gen.c, over Controls/Transfer, the
--                         body that they share, and Controls/Fields, their data
--   Controls/Generic      libuvc/src/ctrl.c
--   Controls/Table        an independent table of the controls, Calls and Rows compare the
--                         functions with it
--   Claims, Claims/Laws   `uvc_claim_if` and `uvc_release_if` (libuvc/src/device.c)
--   Delivery/Populate     `_uvc_populate_frame`, Delivery/Poll `uvc_stream_get_frame`,
--                         Delivery/Caller, Turns `_uvc_user_caller` (libuvc/src/stream.c)
--   Convert/Pixels, Colour, Loop, Frames
--                         the pixel macros, BT.601, the loop and the functions of libuvc/src/frame.c; under
--                         Frames the sizes, the image that is written, and any2rgb and any2bgr
--   Parse/Scan, Streaming, Control
--                         the descriptor parsers of libuvc/src/device.c; under Streaming the layout
--                         of the blocks (Encode) and how they are read back (RoundTrip)
--   Parse/Termination     when the scans end, Parse/Streaming/Hang when they do not
--   Devices, Devices/Laws `uvc_get_device_list`, `uvc_find_device` and reference counts,
--                         Devices/Handles `uvc_open` and `uvc_close` (libuvc/src/device.c)
--   Status, Status/Laws   `_uvc_status_callback` (libuvc/src/device.c)
--   Start/Plan            the alternate setting that `uvc_stream_start` chooses, Start/Begin the
--                         function, Start/Handles `uvc_stream_open_ctrl` and `uvc_stream_close`
--                         (libuvc/src/stream.c)
--   Avi, Avi/Headers, Clock, Write, Fresh, Session
--                         the AVI recording of tcluvc.c: `WriteAVIHeader` and `CloseAVISegment`, the
--                         RIFF structures, `struct timeval`, `WriteFrame`, and `StartRecording` with
--                         `FinishRecording` and `RecordFrameFromData`; Avi/Channels is what Tcl offers
--   Avi/File, Recording, Frames, Sizes, Rewrite, Finish, Whole, Complete, Begin, Started, Recorded
--                         a file, what a recording has written to it, and how it starts and ends
--   Capture, Capture/Events
--                         `FrameCallback`, `FrameReady0`, `FrameReady`, `StartCapture` and
--                         `StopCapture` of tcluvc.c; Laws, Steps, Silence and Faults are about
--                         them
--   Settings              `UvcCtrlInfo`, and `InitControls`, `GetControls`, `PrintVal` and `SetControls`
--                         for one control (tcluvc.c)
--
-- Conventions. A byte, a word and a size are natural numbers, and where C wraps around the `%` is
-- written out. A signed integer is a ℤ over the native numbers. Memory is a list of bytes; a read
-- or write outside it, a NULL pointer that is followed and a division by zero are `none`, or `fault`
-- where a loop may also run for ever, which is `stuck`. libusb is
-- the record Usb.Usb over a state of its own; the theorems that rely on a device's answer have it
-- as a hypothesis. Callbacks and the functions of the user's thread take turns under `cb_mutex`, so
-- a step of Stream/Lifecycle is one critical section; submitting all transfers and cancelling all
-- of them are one step each. On
-- fuel are the search for a GUID in the table of formats, whose three levels are enough, the loops
-- of the conversions, which have the number of bytes to write, and the scans of the descriptors,
-- which have one round more than there are bytes, and the digits of a number: a theorem says when that is enough. All other
-- loops run over lists.
--
-- Not modelled: the other searches for devices, setting up a context, diagnostics, the libjpeg
-- decoder, the other Tcl commands, and libusb and utlist, which are third-party. Of frame.c, allocating
-- and freeing a frame, and converting a frame into itself.
pub mod Avi
pub mod Settings
pub mod Capture
pub mod Parse
pub mod Prelude
pub mod Bytes
pub mod Usb
pub mod Descriptors
pub mod Start
pub mod Status
pub mod Stream
pub mod StreamCtrl
pub mod Controls
pub mod Convert
pub mod Claims
pub mod Delivery
pub mod Devices
