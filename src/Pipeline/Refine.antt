-- ===== src/Pipeline/Refine.antt =====
-- `push` and `pop` of software/src/data/pipeline.cpp against the bounded queue, as long as the
-- indices have not gone round 2 ^ 64.
use bus_test_platform.Prelude.{
  ℕ, suc, ◌+◌, ◌-◌, ◌%◌, ◌^◌, ◌≤◌, ◌<◌, ◌≡◌, ◌≢◌, refl, ap, ◌∙◌, true, [], ◌∷◌, ◌++◌, length,
  get_or, set, length-set, length-replicate, arith, ltb, ◌==◌, if◌then◌else◌,
}
use bus_test_platform.Frame.{BusFrame}
use bus_test_platform.Pipeline.{
  Pipeline, blank_frame, make, distance, push, pop, size, is_empty, reset,
}
use bus_test_platform.Pipeline.Queue
use bus_test_platform.Pipeline.Queue.{Queue}
use bus_test_platform.Pipeline.Window.{window, length-window, window-set}

pub record IsValid (p : Pipeline) : Type 0 where
  pub capacity_pos : 0 < p.capacity
  pub capacity_fits : p.capacity < 2 ^ 64
  pub storage : length p.buf ≡ p.capacity
  pub ordered : p.head ≤ p.tail
  pub bounded : p.tail ≤ p.head + p.capacity
  pub tail_fits : p.tail < 2 ^ 64

-- The frames that the ring holds, oldest first, and the count of those refused.
abbrev pub view : Pipeline → Queue
view p = record {
  frames = window blank_frame p.capacity p.buf p.head (p.tail - p.head);
  lost = p.dropped;
}

pub length-view : (p : Pipeline) → length (view p).frames ≡ p.tail - p.head
length-view p = length-window blank_frame p.capacity p.buf p.head (p.tail - p.head)

-- A new pipeline is valid and empty, and has the asked capacity, or 1 for 0.
pub make-IsValid :
    (n : ℕ)
    → n < 2 ^ 64
    → IsValid (make n)
      × (view (make n) ≡ record { frames = []; lost = 0 })
      × ((make n).capacity ≡ (if ltb 0 n then n else 1))
unfolding make
make-IsValid n h = (
  record {
    capacity_pos = ground arith;
    capacity_fits = ground arith;
    storage = length-replicate (if ltb 0 n then n else 1) blank_frame;
    ordered = omega arith;
    bounded = omega arith;
    tail_fits = omega arith;
  },
  refl,
  refl,
)

pub distance-valid : {p : Pipeline} → IsValid p → distance p.tail p.head ≡ p.tail - p.head
distance-valid v = omega arith

-- What a push that is accepted leaves in the ring.
pub push_room :
    {p : Pipeline} (frame : BusFrame)
    → IsValid p
    → p.tail < p.head + p.capacity
    → window blank_frame p.capacity
        (set p.buf (p.tail % p.capacity) frame)
        p.head
        (p.tail + 1 - p.head)
      ≡ (view p).frames ++ frame ∷ []
push_room {p} frame v h =
    ap (window blank_frame p.capacity (set p.buf (p.tail % p.capacity) frame) p.head)
      {y = suc (p.tail - p.head)} (omega arith)
    ∙ window-set blank_frame p.capacity p.buf p.head (p.tail - p.head) p.tail frame v.capacity_pos
        v.storage (omega arith) (omega arith)

-- A valid pipeline stays valid under a push, the result and the frames held are those of the bounded
-- queue, and a refused frame is counted, as long as neither the index nor the counter wraps.
pub push_refines :
    {p : Pipeline} (frame : BusFrame)
    → IsValid p
    → p.tail + 1 < 2 ^ 64
    → p.dropped + 1 < 2 ^ 64
    → let (p', done) = push p frame in
      ((view p', done) ≡ Queue.push p.capacity (view p) frame)
      × IsValid p'
      × (p'.capacity ≡ p.capacity)
unfolding push Queue.push
push_refines {p} frame v ht hd = ground (
  arith,
  distance-valid v,
  length-view p,
  push_room frame v,
  length-set p.buf (p.tail % p.capacity) frame,
)

window-cons :
    {p : Pipeline}
    → IsValid p
    → p.head ≢ p.tail
    → (view p).frames
      ≡ get_or p.buf (p.head % p.capacity) blank_frame
        ∷ window blank_frame p.capacity p.buf (p.head + 1) (p.tail - (p.head + 1))
window-cons {p} v h =
    ap (window blank_frame p.capacity p.buf p.head) {y = suc (p.tail - (p.head + 1))} (omega arith)

window-empty : {p : Pipeline} → IsValid p → p.head ≡ p.tail → (view p).frames ≡ []
window-empty {p} v h =
    ap (window blank_frame p.capacity p.buf p.head) {x = p.tail - p.head} {y = 0} (omega arith)

-- A pop with a valid pointer returns the oldest frame held and keeps the rest in order, or fails on
-- an empty pipeline, as the queue does; it keeps the pipeline valid.
pub pop_refines :
    {p : Pipeline}
    → IsValid p
    → let (p', out) = pop p true in
      ((view p', out) ≡ Queue.pop (view p)) × IsValid p' × (p'.capacity ≡ p.capacity)
unfolding pop Queue.pop
pop_refines {p} v = ground (arith, window-cons v, window-empty v)

-- For a valid pipeline, `size` is the number of frames held and never above the capacity, and
-- `empty` tells whether no frame is held.
pub size-view :
    {p : Pipeline}
    → IsValid p
    → (size p ≡ length (view p).frames)
      × (size p ≤ p.capacity)
      × (is_empty p ≡ (length (view p).frames == 0))
unfolding size is_empty
size-view {p} v = (omega (arith, length-view p), omega arith, ground (arith, length-view p))

-- `reset` of a valid pipeline leaves a valid, empty one with nothing counted as dropped.
pub reset-IsValid :
    {p : Pipeline}
    → IsValid p
    → IsValid (reset p) × (view (reset p) ≡ record { frames = []; lost = 0 })
unfolding reset
reset-IsValid {p} v = (
  record {
    capacity_pos = v.capacity_pos;
    capacity_fits = v.capacity_fits;
    storage = v.storage;
    ordered = omega arith;
    bounded = omega arith;
    tail_fits = omega arith;
  },
  refl,
)
