-- ===== src/Convert/Loop.antt =====
-- The loop `while (p < p_end)` of the conversions in libuvc/src/frame.c, on fuel.
pub mod Laws
use tcluvc.Prelude.{
  Run, done, fault, stuck, ℕ, zero, suc, ◌+◌, ◌≤◌, Bool, List, drop, length, write_at, ltb, leb,
  ◌&&◌, if◌then◌else◌,
}

-- What one round does: how far it reads from the source pointer, how far it moves it, how many
-- bytes it writes, and which.
pub record Kernel : Type 0 where
  pub reads : ℕ
  pub advance : ℕ
  pub writes : ℕ
  pub bytes : List ℕ → List ℕ

-- The source from its pointer on, the place of the destination pointer, that of its end, and the
-- memory of the destination.
unfoldable pub run_loop : Kernel → ℕ → List ℕ → ℕ → ℕ → List ℕ → Run (List ℕ)
run_loop k zero src o end out = if ltb o end then stuck else done out
run_loop k (suc fuel) src o end out =
    let rest =
      run_loop k fuel (drop k.advance src) (o + k.writes) end (write_at out o (k.bytes src)) in
    if ltb o end
    then (if leb k.reads (length src) && leb (o + k.writes) (length out) then rest else fault)
    else done out
