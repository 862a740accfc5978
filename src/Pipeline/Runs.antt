-- ===== src/Pipeline/Runs.antt =====
-- Whole histories of calls on a pipeline of software/src/data/pipeline.cpp.
use bus_test_platform.Prelude.{
  ℕ, zero, suc, ◌+◌, ◌-◌, ◌^◌, ◌≤◌, ◌<◌, ◌≡◌, refl, ◌∙◌, Bool, true, Option, List, [], ◌∷◌, length,
  arith, min, ltb, if◌then◌else◌,
}
use bus_test_platform.Frame.{BusFrame}
use bus_test_platform.Pipeline.{Pipeline, make, push, pop, size}
use bus_test_platform.Pipeline.Queue
use bus_test_platform.Pipeline.Queue.{Queue}
use bus_test_platform.Pipeline.Refine.{
  IsValid, view, make-IsValid, push_refines, pop_refines, size-view,
}

-- A call, and what its caller sees.
pub data Call : Type 0 where
  put : BusFrame → Call
  get : Call

pub data Reply : Type 0 where
  took : Bool → Reply
  gave : Option BusFrame → Reply

unfoldable pub run : Pipeline → List Call → List Reply
run p [] = []
run p (put f ∷ calls) = let (p', done) = push p f in took done ∷ run p' calls
run p (get ∷ calls) = let (p', out) = pop p true in gave out ∷ run p' calls

unfoldable pub run_queue : ℕ → Queue → List Call → List Reply
run_queue capacity q [] = []
run_queue capacity q (put f ∷ calls) =
    let (q', done) = Queue.push capacity q f in took done ∷ run_queue capacity q' calls
run_queue capacity q (get ∷ calls) =
    let (q', out) = Queue.pop q in gave out ∷ run_queue capacity q' calls

-- Each call moves the index and the counter on by one at most.
push_moves :
    (p : Pipeline) (f : BusFrame)
    → p.tail + 1 < 2 ^ 64
    → p.dropped + 1 < 2 ^ 64
    → ((push p f).0.tail ≤ p.tail + 1) × ((push p f).0.dropped ≤ p.dropped + 1)
unfolding push
push_moves p f ht hd = ground arith

pop_moves : (p : Pipeline) → ((pop p true).0.tail ≡ p.tail) × ((pop p true).0.dropped ≡ p.dropped)
unfolding pop
pop_moves p = ground arith

run-run_queue :
    (calls : List Call) {p : Pipeline}
    → IsValid p
    → p.tail + length calls < 2 ^ 64
    → p.dropped + length calls < 2 ^ 64
    → run p calls ≡ run_queue p.capacity (view p) calls
unfolding run run_queue
run-run_queue [] v ht hd = refl
run-run_queue (put f ∷ calls) {p} v ht hd =
    let (same, v', capacity_is) = push_refines f v (omega arith) (omega arith) in
    rw (
      run-run_queue calls v' (omega (arith, push_moves p f (omega arith) (omega arith)))
          (omega (arith, push_moves p f (omega arith) (omega arith))),
      ← same,
      capacity_is,
    )
run-run_queue (get ∷ calls) {p} v ht hd =
    let (same, v', capacity_is) = pop_refines v in
    rw (
      run-run_queue calls v' (omega (arith, pop_moves p)) (omega (arith, pop_moves p)),
      ← same,
      capacity_is,
    )

-- No history of fewer than 2 ^ 64 pushes and pops tells a new pipeline, made with a size below 2 ^
-- 64, from the bounded queue of its capacity.
pub run_refines :
    (n : ℕ) (calls : List Call)
    → n < 2 ^ 64
    → length calls < 2 ^ 64
    → run (make n) calls
      ≡ run_queue (if ltb 0 n then n else 1) (record { frames = []; lost = 0 }) calls
run_refines n calls h hc =
    let (v, empty_at_first, capacity_is) = make-IsValid n h in
    run-run_queue calls v (unfold make in omega arith) (unfold make in omega arith)
    ∙ rw (empty_at_first, capacity_is)

-- `n` pushes in a row of the same frame.
unfoldable pub flood : ℕ → Pipeline → BusFrame → Pipeline
flood zero p f = p
flood (suc n) p f = flood n (push p f).0 f

push_counts :
    {p : Pipeline} (f : BusFrame)
    → IsValid p
    → p.tail + 1 < 2 ^ 64
    → p.dropped + 1 < 2 ^ 64
    → let q = (push p f).0 in
      (size q ≡ min p.capacity (size p + 1)) × (q.dropped ≡ p.dropped + (size p + 1 - p.capacity))
unfolding push size
push_counts f v ht hd = ground arith

-- Frames pushed into a valid pipeline with no consumer, while neither the index nor the drop
-- counter wraps: what fits is held, and every other frame is counted as dropped.
pub flood_lem :
    (n : ℕ) {p : Pipeline} (f : BusFrame)
    → IsValid p
    → p.tail + n < 2 ^ 64
    → p.dropped + n < 2 ^ 64
    → let q = flood n p f in
      (size q ≡ min p.capacity (size p + n)) × (q.dropped ≡ p.dropped + (size p + n - p.capacity))
unfolding flood
flood_lem zero f v ht hd = omega (arith, size-view v)
flood_lem (suc n) {p} f v ht hd =
    let (same, v', capacity_is) = push_refines f v (omega arith) (omega arith) in
    omega (
      arith,
      size-view v,
      capacity_is,
      push_counts f v (omega arith) (omega arith),
      flood_lem n f v' (omega (arith, push_moves p f (omega arith) (omega arith)))
          (omega (arith, push_moves p f (omega arith) (omega arith))),
    )
