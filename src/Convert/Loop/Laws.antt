-- ===== src/Convert/Loop/Laws.antt =====
-- When the loop of a conversion ends inside its buffers, and what it has written then.
use tcluvc.Prelude.{
  ℕ, zero, suc, ◌+◌, ◌*◌, ◌≤◌, ◌<◌, ◌≡◌, refl, ◌∙◌, ap, sym, List, [], ◌++◌, length, take, drop,
  write_at, arith, append-nil, append_assoc, length-write_at, take-write_at, length-drop,
}
use tcluvc.Prelude.{done, fault}
use tcluvc.Convert.Loop.{Kernel, run_loop}

-- The output of `n` rounds.
unfoldable pub rounds : Kernel → ℕ → List ℕ → List ℕ
rounds k zero src = []
rounds k (suc n) src = k.bytes src ++ rounds k n (drop k.advance src)

-- A round reads no further than it moves, and writes as many bytes as it says, at least one.
pub record IsKernel (k : Kernel) : Type 0 where
  pub reads_on : k.reads ≤ k.advance
  pub progress : 0 < k.writes
  pub size : (p : List ℕ) → length (k.bytes p) ≡ k.writes

mul_step : (n w : ℕ) → suc n * w ≡ w + n * w
mul_step n w = omega arith

pub le_mul : (n w : ℕ) → 0 < w → n ≤ n * w
le_mul zero w h = omega arith
le_mul (suc n) w h = omega (arith, le_mul n w h, mul_step n w)

-- With room for `n` rounds in both buffers the loop ends, and has written the output of `n` rounds
-- behind what was there.
pub run_loop-rounds :
    (k : Kernel) (n fuel : ℕ) (src : List ℕ) (o end : ℕ) (out : List ℕ)
    → IsKernel k
    → o + n * k.writes ≡ end
    → n * k.advance ≤ length src
    → end ≤ length out
    → n ≤ fuel
    → (out' : List ℕ) × (run_loop k fuel src o end out ≡ done out')
      × (length out' ≡ length out)
      × (take end out' ≡ take o out ++ rounds k n src)
unfolding run_loop rounds
run_loop-rounds k zero zero src o end out ok e s r f =
    let e' : o ≡ end = omega arith in
    (out, ground (arith, e'), refl, rw (← e') (sym (append-nil (take o out))))
run_loop-rounds k zero (suc fuel) src o end out ok e s r f =
    let e' : o ≡ end = omega arith in
    (out, ground (arith, e'), refl, rw (← e') (sym (append-nil (take o out))))
run_loop-rounds k (suc n) zero src o end out ok e s r f = absurd (omega arith)
run_loop-rounds k (suc n) (suc fuel) src o end out ok e s r f =
    let (out', e', l, t) =
      run_loop-rounds k n fuel (drop k.advance src) (o + k.writes) end
        (write_at out o (k.bytes src)) ok (omega (arith, mul_step n k.writes))
        (omega (arith, mul_step n k.advance, length-drop k.advance src)) (omega (arith, written))
        (omega arith) in
    (
      out',
      ground (arith, e', ok.progress, ok.reads_on, mul_step n k.writes, mul_step n k.advance),
      l ∙ written,
      t
          ∙ ap (λ xs. xs ++ rounds k n (drop k.advance src)) front
          ∙ append_assoc (take o out) (k.bytes src) (rounds k n (drop k.advance src)),
    )
  where
    written : length (write_at out o (k.bytes src)) ≡ length out
    written = length-write_at out (k.bytes src) o (omega (arith, ok.size src, mul_step n k.writes))

    front : take (o + k.writes) (write_at out o (k.bytes src)) ≡ take o out ++ k.bytes src
    front =
        ap (λ m. take (o + m) (write_at out o (k.bytes src))) (sym (ok.size src))
        ∙ take-write_at out (k.bytes src) o (omega (arith, mul_step n k.writes))

-- With bytes left over behind whole rounds, in a destination that ends with them, the loop leaves
-- one of its buffers.
pub run_loop-leftover :
    (k : Kernel) (q r fuel : ℕ) (src : List ℕ) (o end : ℕ) (out : List ℕ)
    → IsKernel k
    → o + q * k.writes + r ≡ end
    → 0 < r
    → r < k.writes
    → length out ≡ end
    → q < fuel
    → run_loop k fuel src o end out ≡ fault
unfolding run_loop
run_loop-leftover k q r zero src o end out ok e some_left few size f = absurd (omega arith)
run_loop-leftover k zero r (suc fuel) src o end out ok e some_left few size f =
    ground (arith, ok.progress)
run_loop-leftover k (suc q) r (suc fuel) src o end out ok e some_left few size f = ground (
  arith,
  ok.progress,
  mul_step q k.writes,
  run_loop-leftover k q r fuel (drop k.advance src) (o + k.writes) end
      (write_at out o (k.bytes src)) ok (omega (arith, mul_step q k.writes)) some_left few
      (written ∙ size) (omega arith),
)
  where
    written : length (write_at out o (k.bytes src)) ≡ length out
    written = length-write_at out (k.bytes src) o (omega (arith, ok.size src, mul_step q k.writes))
