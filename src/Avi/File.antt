-- ===== src/Avi/File.antt =====
-- A channel onto a random access file that takes every write, as Tcl documents it: writes replace
-- and extend the contents at the position, seeks move it.
use tcluvc.Prelude.{
  ℕ, ◌≡◌, sym, ap, ◌∙◌, ◌+◌, ◌≤◌, List, [], ◌++◌, length, write_at, arith, length-append,
  append_assoc, write_at_middle, write_at_end,
}
use tcluvc.Prelude.Int.{pos}
use tcluvc.Avi.Channels.{Channel}

pub record IsFile (chan : Channel) (contents : chan.State → List ℕ) (position : chan.State → ℕ)
    : Type 0 where
  pub writes_all :
      (s : chan.State) (bs : List ℕ)
      → position s ≤ length (contents s)
      → (chan.write_raw s bs).0 ≡ pos (length bs)
  pub writes_at :
      (s : chan.State) (bs : List ℕ)
      → position s ≤ length (contents s)
      → contents (chan.write_raw s bs).1 ≡ write_at (contents s) (position s) bs
  pub writes_on :
      (s : chan.State) (bs : List ℕ)
      → position s ≤ length (contents s)
      → position (chan.write_raw s bs).1 ≡ position s + length bs
  pub seeks :
      (s : chan.State) (p : ℕ)
      → p ≤ length (contents s)
      → ((chan.seek s (pos p)).0 ≡ pos p)
        × (contents (chan.seek s (pos p)).1 ≡ contents s)
        × (position (chan.seek s (pos p)).1 ≡ p)
  pub tells :
      (s : chan.State)
      → ((chan.tell s).0 ≡ pos (position s))
        × (contents (chan.tell s).1 ≡ contents s)
        × (position (chan.tell s).1 ≡ position s)

-- The file has these contents, and the position is at its end, or behind the first part.
pub record AtEnd {S : Type 0} (contents : S → List ℕ) (position : S → ℕ) (s : S) (xs : List ℕ)
    : Type 0 where
  pub holds : contents s ≡ xs
  pub at_end : position s ≡ length xs

pub record AtMiddle {S : Type 0} (contents : S → List ℕ) (position : S → ℕ) (s : S) (xs ys : List ℕ)
    : Type 0 where
  pub holds : contents s ≡ xs ++ ys
  pub behind : position s ≡ length xs

module _ (chan : Channel) (contents : chan.State → List ℕ) (position : chan.State → ℕ)
    (file : IsFile chan contents position) where
  pub write_end :
      (s : chan.State) (xs bs : List ℕ)
      → AtEnd contents position s xs
      → ((chan.write_raw s bs).0 ≡ pos (length bs))
        × AtEnd contents position (chan.write_raw s bs).1 (xs ++ bs)
  write_end s xs bs e = (
    file.writes_all s bs within,
    record {
      holds = file.writes_at s bs within ∙ rw (e.holds, e.at_end) (write_at_end xs bs);
      at_end = file.writes_on s bs within ∙ rw e.at_end (omega (arith, length-append xs bs));
    },
  )
    where
      within : position s ≤ length (contents s)
      within = rw (e.holds, e.at_end) (omega arith)

  pub write_middle :
      (s : chan.State) (p old rest b : List ℕ)
      → length old ≡ length b
      → AtMiddle contents position s p (old ++ rest)
      → AtMiddle contents position (chan.write_raw s b).1 (p ++ b) rest
  write_middle s p old rest b same m = record {
    holds =
        file.writes_at s b within
        ∙ rw (m.holds, m.behind) (write_at_middle p old rest b same ∙ sym (append_assoc p b rest));
    behind = file.writes_on s b within ∙ rw m.behind (omega (arith, length-append p b));
  }
    where
      within : position s ≤ length (contents s)
      within = rw (m.holds, m.behind) (omega (arith, length-append p (old ++ rest)))

  pub tell_end :
      (s : chan.State) (xs : List ℕ)
      → AtEnd contents position s xs
      → ((chan.tell s).0 ≡ pos (length xs)) × AtEnd contents position (chan.tell s).1 xs
  tell_end s xs e = (
    (file.tells s).0 ∙ ap pos e.at_end,
    record { holds = (file.tells s).1 ∙ e.holds; at_end = (file.tells s).2 ∙ e.at_end },
  )

  pub seek_start :
      (s : chan.State) (xs : List ℕ)
      → contents s ≡ xs
      → AtMiddle contents position (chan.seek s (pos 0)).1 [] xs
  seek_start s xs e = record {
    holds = (file.seeks s 0 (omega arith)).1 ∙ e;
    behind = (file.seeks s 0 (omega arith)).2;
  }

  pub seek_end :
      (s : chan.State) (xs : List ℕ)
      → contents s ≡ xs
      → ((chan.seek s (pos (length xs))).0 ≡ pos (length xs))
        × AtEnd contents position (chan.seek s (pos (length xs))).1 xs
  seek_end s xs e = (
    (file.seeks s (length xs) within).0,
    record {
      holds = (file.seeks s (length xs) within).1 ∙ e;
      at_end = (file.seeks s (length xs) within).2;
    },
  )
    where
      within : length xs ≤ length (contents s)
      within = rw e (omega arith)
