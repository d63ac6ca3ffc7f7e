-- ===== src/Avi/Fresh.antt =====
-- The state of the writer and the headers that `StartRecording` of tcluvc.c sets up, and the
-- period of the frames. A rate that the user asks for is given as its period, since the source
-- computes that with floating point numbers.
use tcluvc.Prelude.{
  ℕ, ◌*◌, ◌/◌, ◌%◌, Bool, ◌||◌, Option, none, some, List, [], ◌∷◌, ◌==◌, if◌then◌else◌,
}
use tcluvc.Prelude.Int.{pos}
use tcluvc.Avi.Headers.{vids, mjpg}
use tcluvc.Avi.Clock.{Timeval}
use tcluvc.Avi.{Writer}

-- UFMT, without the list of frame rates and the text.
pub record CameraFormat : Type 0 where
  pub width : ℕ
  pub height : ℕ
  pub fps : ℕ
  pub iscomp : Bool
  pub bpp : ℕ
  pub fourcc : List ℕ

abbrev pub no_time : Timeval
no_time = record { tv_sec = pos 0; tv_usec = pos 0 }

abbrev pub zero_dword : List ℕ
zero_dword = 0 ∷ 0 ∷ 0 ∷ 0 ∷ []

-- `memset(&tuvc->avi, 0, ...)`.
abbrev pub no_writer : Writer
no_writer = record {
  nframes = 0;
  nframes0 = 0;
  totsize = 0;
  segsize = 0;
  segsize0 = 0;
  segstart = pos 0;
  hdrsize = pos 0;
  pos0 = pos 0;
  rate = no_time;
  avi_hdr = record {
    riff_size = 0;
    hdrl_size = 0;
    avih_size = 0;
    avih = record {
      uspf = 0;
      bps = 0;
      res0 = 0;
      flags = 0;
      nframes = 0;
      res1 = 0;
      nstreams = 0;
      bufsize = 0;
      width = 0;
      height = 0;
      scale = 0;
      rate = 0;
      start = 0;
      length = 0;
    };
  };
  avi_hdrv = record {
    strl_size = 0;
    strh_size = 0;
    strh = record {
      kind = zero_dword;
      handler = zero_dword;
      flags = 0;
      priority = 0;
      res0 = 0;
      scale = 0;
      rate = 0;
      start = 0;
      length = 0;
      bufsize = 0;
      quality = 0;
      samplesize = 0;
    };
    strf_size = 0;
    strf = record {
      size = 0;
      width = 0;
      height = 0;
      planes = 0;
      bits = 0;
      compr = zero_dword;
      image_size = 0;
      xpels_meter = 0;
      ypels_meter = 0;
      num_colors = 0;
      imp_colors = 0;
    };
  };
  avi_hdro = record { strl_size = 0; strh_size = 0; nframes = 0 };
  avi_data = 0;
  idx_off = 0;
  curr_idx = 0;
  num_idx = 0;
  idx = none;
}

-- The time between two frames.
unfoldable pub period_of : Option Timeval → ℕ → Timeval
period_of wished fps = elim wished [
  | some t ↦ t
  | none ↦
      if fps == 0
      then record { tv_sec = pos 1; tv_usec = pos 0 }
      else record { tv_sec = pos (1 / fps); tv_usec = pos (1000000 / fps) }
]

-- The headers of a fresh file, before the counts are known.
unfoldable pub fresh_headers : Writer → CameraFormat → Bool → ℕ → Writer
fresh_headers a format jpeg us =
    let compr = if format.iscomp || jpeg then mjpg else format.fourcc in
    let bits = if format.iscomp || jpeg then 24 else format.bpp in
    record a {
      avi_hdr = record {
        riff_size = 0;
        hdrl_size = 0;
        avih_size = 56;
        avih = record no_writer.avi_hdr.avih {
          uspf = us;
          bps = bits * us / 1000 * format.width * format.height % 4294967296;
          nstreams = 1;
          width = format.width;
          height = format.height;
        };
      };
      avi_hdrv = record {
        strl_size = 108;
        strh_size = 48;
        strh = record no_writer.avi_hdrv.strh {
          kind = vids;
          handler = compr;
          scale = us;
          rate = 1000000;
        };
        strf_size = 40;
        strf = record no_writer.avi_hdrv.strf {
          size = 40;
          width = format.width;
          height = format.height;
          planes = 1;
          bits = format.bpp;
          compr = compr;
          image_size = format.bpp * format.width * format.height % 4294967296;
        };
      };
      avi_hdro = record { strl_size = 16; strh_size = 4; nframes = 0 };
      avi_data = 0;
    }
