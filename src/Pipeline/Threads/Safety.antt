-- ===== src/Pipeline/Threads/Safety.antt =====
-- What the two threads of software/src/data/pipeline.cpp can rely on, in every interleaving.
use bus_test_platform.Prelude.{
  ℕ, ◌+◌, ◌%◌, ◌^◌, ◌≤◌, ◌<◌, ◌≡◌, ◌≢◌, refl, sym, ap, ◌∙◌, Option, none, some, List, ◌++◌, length,
  leb, ltb, ◌==◌, if◌then◌else◌, arith,
}
use bus_test_platform.Frame.{BusFrame}
use bus_test_platform.Pipeline.{Pipeline, make, distance}
use bus_test_platform.Pipeline.Refine.{view, length-view}
use bus_test_platform.Pipeline.Window.{slots_ne}
use bus_test_platform.Pipeline.Threads.{
  Producer, resting, pushing, push_has_head, push_has_tail, stored, Consumer, waiting, popping,
  pop_has_head, pop_has_tail, copied, Machine, Step, Reach, call_push, push_load_head,
  push_load_tail, push_refuse, push_store, push_publish, call_pop, pop_load_head, pop_load_tail,
  pop_refuse, pop_copy, pop_release, start, later,
}
use bus_test_platform.Pipeline.Threads.Invariant.{ProducerKnows, ConsumerKnows, Inv}
use bus_test_platform.Pipeline.Threads.Steps.{Reach-Inv}

-- The slot that the producer's next step writes.
abbrev pub writes : Pipeline → Producer → Option ℕ
writes p resting = none
writes p (pushing f) = none
writes p (push_has_head f h) = none
writes p (push_has_tail f h t) =
    if leb p.capacity (distance t h) then none else some (t % p.capacity)
writes p (stored f t) = none

-- The slot that the consumer's next step reads.
abbrev pub reads : Pipeline → Consumer → Option ℕ
reads p waiting = none
reads p popping = none
reads p (pop_has_head h) = none
reads p (pop_has_tail h t) = if h == t then none else some (h % p.capacity)
reads p (copied f h) = none

writes-tail :
    {m : Machine} (q : Producer) (slot : ℕ)
    → Inv m
    → ProducerKnows m.pipe m.saw_head q
    → writes m.pipe q ≡ some slot
    → (m.pipe.tail % m.pipe.capacity ≡ slot) × (m.pipe.tail < m.pipe.head + m.pipe.capacity)
writes-tail resting slot inv k w = absurd (cc)
writes-tail (pushing f) slot inv k w = absurd (cc)
writes-tail (push_has_head f h) slot inv k w = absurd (cc)
writes-tail (stored f t) slot inv k w = absurd (cc)
writes-tail {m} (push_has_tail f h t) slot inv (stale, own) w =
    let same = ap (λ (x : ℕ). x % m.pipe.capacity) own in
    ground (arith, inv.head_seen, inv.valid.ordered, inv.valid.tail_fits)

reads-head :
    {m : Machine} (c : Consumer) (slot : ℕ)
    → Inv m
    → ConsumerKnows m.pipe m.saw_tail c
    → reads m.pipe c ≡ some slot
    → (m.pipe.head % m.pipe.capacity ≡ slot) × (m.pipe.head < m.pipe.tail)
reads-head waiting slot inv k r = absurd (cc)
reads-head popping slot inv k r = absurd (cc)
reads-head (pop_has_head h) slot inv k r = absurd (cc)
reads-head (copied f h) slot inv k r = absurd (cc)
reads-head {m} (pop_has_tail h t) slot inv (own, seen) r =
    let same = ap (λ (x : ℕ). x % m.pipe.capacity) own in
    ground (arith, inv.head_behind, inv.tail_seen)

-- In every reachable state of a pipeline made with a size below 2 ^ 64, while fewer than 2 ^ 64
-- frames have been pushed: the slot that the producer is about to write is not the slot that the
-- consumer is about to read, however old the head is that the producer has loaded.
pub no_race :
    {n : ℕ} {m : Machine} (written read : ℕ)
    → n < 2 ^ 64
    → length m.accepted < 2 ^ 64
    → Reach n m
    → writes m.pipe m.producer ≡ some written
    → reads m.pipe m.consumer ≡ some read
    → written ≢ read
no_race {n} {m} written read hn few r w c clash =
    let inv = Reach-Inv hn few r in
    let (at_tail, room) = writes-tail m.producer written inv inv.producer_knows w in
    let (at_head, held) = reads-head m.consumer read inv inv.consumer_knows c in
    slots_ne m.pipe.capacity m.pipe.head m.pipe.tail held room (at_head ∙ sym clash ∙ sym at_tail)

Step-capacity : {m k : Machine} → Step m k → k.pipe.capacity ≡ m.pipe.capacity
Step-capacity (call_push f e) = refl
Step-capacity (push_load_head f h e lo hi) = refl
Step-capacity (push_load_tail f h e) = refl
Step-capacity (push_refuse f h t e test) = refl
Step-capacity (push_store f h t e test) = refl
Step-capacity (push_publish f t e) = refl
Step-capacity (call_pop e) = refl
Step-capacity (pop_load_head e) = refl
Step-capacity (pop_load_tail h t e lo hi) = refl
Step-capacity (pop_refuse h t e same) = refl
Step-capacity (pop_copy h t e differ) = refl
Step-capacity (pop_release f h e) = refl

Reach-capacity : {n : ℕ} {m : Machine} → Reach n m → m.pipe.capacity ≡ (if ltb 0 n then n else 1)
unfolding make
Reach-capacity start = refl
Reach-capacity (later r s) = Step-capacity s ∙ Reach-capacity r

-- In every reachable state of a pipeline made with a size below 2 ^ 64, while fewer than 2 ^ 64
-- frames have been pushed: the frames pushed with success are, in their order, those popped so far
-- and then at most `capacity` more, which the pipeline holds; and the drop counter is the number of
-- pushes refused, modulo 2 ^ 64.
pub fifo :
    {n : ℕ} {m : Machine}
    → n < 2 ^ 64
    → length m.accepted < 2 ^ 64
    → Reach n m
    → (held : List BusFrame) × (m.accepted ≡ m.delivered ++ held)
      × (length held ≤ (if ltb 0 n then n else 1))
      × (m.pipe.dropped ≡ m.refusals % 2 ^ 64)
fifo {n} {m} hn few r =
    let inv = Reach-Inv hn few r in
    (
      (view m.pipe).frames,
      inv.queue,
      omega (arith, length-view m.pipe, inv.valid.bounded, Reach-capacity r),
      inv.counted,
    )
