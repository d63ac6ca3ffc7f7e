-- ===== src/Avi/Channels.antt =====
-- The channel that a recording is written to, which belongs to Tcl: operations over a state of its
-- own. A result is the one of Tcl_WriteRaw, a number of bytes, or of Tcl_Seek, a position; -1 is an
-- error.
use tcluvc.Prelude.{ℕ, List}
use tcluvc.Prelude.Int.{ℤ}

pub record Channel : Type 1 where
  pub State : Type 0
  pub write_raw : State → List ℕ → ℤ × State
  -- Tcl_Seek to a position from the start, and by nothing from the current one
  pub seek : State → ℤ → ℤ × State
  pub tell : State → ℤ × State
