-- ===== src/Avi/Headers.antt =====
-- The RIFF and AVI structures of tcluvc.c, as they are laid out in the file. The source stores
-- every number with PUT16LE or PUT32LE; here a structure holds the numbers, and is laid out when it
-- is written.
use tcluvc.Prelude.{ℕ, ◌-◌, ◌/◌, ◌%◌, List, [], ◌∷◌, ◌++◌}
use tcluvc.Prelude.Int.{ℤ, pos, negsuc}

unfoldable pub put16le : ℕ → List ℕ
put16le v = v % 256 ∷ v / 256 % 256 ∷ []

unfoldable pub put32le : ℕ → List ℕ
put32le v = v % 256 ∷ v / 256 % 256 ∷ v / 65536 % 256 ∷ v / 16777216 % 256 ∷ []

-- An `int` or a `Tcl_WideInt` that PUT32LE is given.
abbrev pub unsigned : ℤ → ℕ
unsigned (pos n) = n % 4294967296
unsigned (negsuc n) = 4294967295 - n % 4294967296

unfoldable pub dwords : List ℕ → List ℕ
dwords [] = []
dwords (v ∷ vs) = put32le v ++ dwords vs

pub record RiffAvih : Type 0 where
  pub uspf : ℕ
  pub bps : ℕ
  pub res0 : ℕ
  pub flags : ℕ
  pub nframes : ℕ
  pub res1 : ℕ
  pub nstreams : ℕ
  pub bufsize : ℕ
  pub width : ℕ
  pub height : ℕ
  pub scale : ℕ
  pub rate : ℕ
  pub start : ℕ
  pub length : ℕ

pub record RiffStrh : Type 0 where
  pub kind : List ℕ
  pub handler : List ℕ
  pub flags : ℕ
  pub priority : ℕ
  pub res0 : ℕ
  pub scale : ℕ
  pub rate : ℕ
  pub start : ℕ
  pub length : ℕ
  pub bufsize : ℕ
  pub quality : ℕ
  pub samplesize : ℕ

pub record RiffStrfVids : Type 0 where
  pub size : ℕ
  pub width : ℕ
  pub height : ℕ
  pub planes : ℕ
  pub bits : ℕ
  pub compr : List ℕ
  pub image_size : ℕ
  pub xpels_meter : ℕ
  pub ypels_meter : ℕ
  pub num_colors : ℕ
  pub imp_colors : ℕ

pub record AviHdr : Type 0 where
  pub riff_size : ℕ
  pub hdrl_size : ℕ
  pub avih_size : ℕ
  pub avih : RiffAvih

pub record AviHdrVideo : Type 0 where
  pub strl_size : ℕ
  pub strh_size : ℕ
  pub strh : RiffStrh
  pub strf_size : ℕ
  pub strf : RiffStrfVids

pub record AviHdrOdml : Type 0 where
  pub strl_size : ℕ
  pub strh_size : ℕ
  pub nframes : ℕ

pub record AviIdx : Type 0 where
  pub flags : ℕ
  pub offset : ℕ
  pub size : ℕ

-- The four characters of an identifier.
abbrev pub riff : List ℕ
riff = b'R' ∷ b'I' ∷ b'F' ∷ b'F' ∷ []

abbrev pub list_id : List ℕ
list_id = b'L' ∷ b'I' ∷ b'S' ∷ b'T' ∷ []

abbrev pub hdrl : List ℕ
hdrl = b'h' ∷ b'd' ∷ b'r' ∷ b'l' ∷ []

abbrev pub avi_id : List ℕ
avi_id = b'A' ∷ b'V' ∷ b'I' ∷ b' ' ∷ []

abbrev pub avih_id : List ℕ
avih_id = b'a' ∷ b'v' ∷ b'i' ∷ b'h' ∷ []

abbrev pub strl : List ℕ
strl = b's' ∷ b't' ∷ b'r' ∷ b'l' ∷ []

abbrev pub strh_id : List ℕ
strh_id = b's' ∷ b't' ∷ b'r' ∷ b'h' ∷ []

abbrev pub strf_id : List ℕ
strf_id = b's' ∷ b't' ∷ b'r' ∷ b'f' ∷ []

abbrev pub odml : List ℕ
odml = b'o' ∷ b'd' ∷ b'm' ∷ b'l' ∷ []

abbrev pub dmlh : List ℕ
dmlh = b'd' ∷ b'm' ∷ b'l' ∷ b'h' ∷ []

abbrev pub movi : List ℕ
movi = b'm' ∷ b'o' ∷ b'v' ∷ b'i' ∷ []

abbrev pub avix : List ℕ
avix = b'A' ∷ b'V' ∷ b'I' ∷ b'X' ∷ []

abbrev pub idx1 : List ℕ
idx1 = b'i' ∷ b'd' ∷ b'x' ∷ b'1' ∷ []

abbrev pub frame_id : List ℕ
frame_id = b'0' ∷ b'0' ∷ b'd' ∷ b'b' ∷ []

abbrev pub vids : List ℕ
vids = b'v' ∷ b'i' ∷ b'd' ∷ b's' ∷ []

abbrev pub mjpg : List ℕ
mjpg = b'M' ∷ b'J' ∷ b'P' ∷ b'G' ∷ []

unfoldable pub avih_bytes : RiffAvih → List ℕ
unfolding dwords
avih_bytes a = dwords (
    a.uspf ∷ a.bps ∷ a.res0 ∷ a.flags ∷ a.nframes ∷ a.res1 ∷ a.nstreams ∷ a.bufsize ∷ a.width
    ∷ a.height ∷ a.scale ∷ a.rate ∷ a.start ∷ a.length ∷ [])

unfoldable pub strh_bytes : RiffStrh → List ℕ
unfolding dwords
strh_bytes s =
    s.kind
    ++ (s.handler
        ++ dwords (
            s.flags ∷ s.priority ∷ s.res0 ∷ s.scale ∷ s.rate ∷ s.start ∷ s.length ∷ s.bufsize
            ∷ s.quality ∷ s.samplesize ∷ []))

unfoldable pub strf_bytes : RiffStrfVids → List ℕ
unfolding dwords put16le
strf_bytes s =
    dwords (s.size ∷ s.width ∷ s.height ∷ [])
    ++ (put16le s.planes
        ++ (put16le s.bits
            ++ (s.compr
                ++ dwords (
                    s.image_size ∷ s.xpels_meter ∷ s.ypels_meter ∷ s.num_colors ∷ s.imp_colors
                    ∷ []))))

unfoldable pub chunk_hdr : List ℕ → ℕ → List ℕ
unfolding put32le
chunk_hdr name size = name ++ put32le size

unfoldable pub avi_hdr_bytes : AviHdr → List ℕ
unfolding chunk_hdr avih_bytes
avi_hdr_bytes h =
    chunk_hdr riff h.riff_size
    ++ (avi_id
        ++ (chunk_hdr list_id h.hdrl_size
            ++ (hdrl ++ (chunk_hdr avih_id h.avih_size ++ avih_bytes h.avih))))

unfoldable pub avi_hdrv_bytes : AviHdrVideo → List ℕ
unfolding chunk_hdr strh_bytes strf_bytes
avi_hdrv_bytes h =
    chunk_hdr list_id h.strl_size
    ++ (strl
        ++ (chunk_hdr strh_id h.strh_size
            ++ (strh_bytes h.strh ++ (chunk_hdr strf_id h.strf_size ++ strf_bytes h.strf))))

unfoldable pub avi_hdro_bytes : AviHdrOdml → List ℕ
unfolding chunk_hdr put32le
avi_hdro_bytes h =
    chunk_hdr list_id h.strl_size ++ (odml ++ (chunk_hdr dmlh h.strh_size ++ put32le h.nframes))

unfoldable pub avi_data_bytes : ℕ → List ℕ
unfolding chunk_hdr
avi_data_bytes size = chunk_hdr list_id size ++ movi

unfoldable pub avix_bytes : ℕ → ℕ → List ℕ
unfolding chunk_hdr
avix_bytes riff_size data_size =
    chunk_hdr riff riff_size ++ (avix ++ (chunk_hdr list_id data_size ++ movi))

unfoldable pub idx_bytes : List AviIdx → List ℕ
unfolding dwords
idx_bytes [] = []
idx_bytes (e ∷ es) = (frame_id ++ dwords (e.flags ∷ e.offset ∷ e.size ∷ [])) ++ idx_bytes es
