-- ===== src/Stream/Payload/Assemble.antt =====
-- What a stream of payloads means: the data of the frame in progress, the last whole frame, and
-- the rule by which one packet moves them. It knows of no buffer, offset or header layout.
use tcluvc.Prelude.{
  ℕ, ◌+◌, ◌%◌, ◌^◌, Bool, Option, none, some, List, [], ◌∷◌, ◌++◌, ◌==◌, if◌then◌else◌,
}

-- A packet's header as the USB Video Class reads it.
pub record Header : Type 0 where
  pub frame_id : ℕ
  pub ends_frame : Bool
  pub is_error : Bool
  pub pts : Option ℕ
  pub scr : Option ℕ

pub record View : Type 0 where
  pub pending : List ℕ
  pub held : List ℕ
  pub fid : ℕ
  pub seq : ℕ
  pub held_seq : ℕ
  pub pts : ℕ
  pub held_pts : ℕ
  pub scr : ℕ
  pub held_scr : ℕ

-- The frame in progress becomes the last whole frame.
unfoldable pub publish : View → View
publish v = record {
  pending = [];
  held = v.pending;
  fid = v.fid;
  seq = (v.seq + 1) % 2 ^ 32;
  held_seq = v.seq;
  pts = 0;
  held_pts = v.pts;
  scr = 0;
  held_scr = v.scr;
}

abbrev pub is_empty : List ℕ → Bool
is_empty [] = Bool.true
is_empty (x ∷ xs) = Bool.false

unfoldable pub or_keep : Option ℕ → ℕ → ℕ
or_keep none old = old
or_keep (some new) old = new

-- A packet with another frame ID closes a frame that was left open.
unfoldable pub turn : View → ℕ → View
turn v id =
    let w = if v.fid == id then v else if is_empty v.pending then v else publish v in
    record w { fid = id }

unfoldable pub stamp : View → Header → View
stamp v h = record v { pts = or_keep h.pts v.pts; scr = or_keep h.scr v.scr }

unfoldable pub add_data : View → List ℕ → Bool → View
add_data v bytes ends =
    if is_empty bytes
    then v
    else (let w : View = record v { pending = v.pending ++ bytes } in if ends then publish w else w)

-- One packet with a header.
unfoldable pub feed : View → Header → List ℕ → View
unfolding turn stamp add_data
feed v h bytes = if h.is_error then v else add_data (stamp (turn v h.frame_id) h) bytes h.ends_frame
