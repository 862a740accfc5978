-- ===== src/Pipeline/Threads/Invariant.antt =====
-- What holds of the two threads of software/src/data/pipeline.cpp at every step.
use bus_test_platform.Prelude.{ℕ, ◌+◌, ◌%◌, ◌^◌, ◌≤◌, ◌<◌, ◌≡◌, ◌++◌, length, get_or}
use bus_test_platform.Pipeline.{Pipeline, blank_frame}
use bus_test_platform.Pipeline.Refine.{IsValid, view}
use bus_test_platform.Pipeline.Threads.{
  Producer, resting, pushing, push_has_head, push_has_tail, stored, Consumer, waiting, popping,
  pop_has_head, pop_has_tail, copied, Machine,
}

-- What the locals of `push` say about the shared memory.
abbrev pub ProducerKnows : Pipeline → ℕ → Producer → Type 0
ProducerKnows p saw resting = Unit
ProducerKnows p saw (pushing f) = Unit
ProducerKnows p saw (push_has_head f h) = h ≡ saw
ProducerKnows p saw (push_has_tail f h t) = (h ≡ saw) × (t ≡ p.tail)
ProducerKnows p saw (stored f t) =
    (t ≡ p.tail)
    × (p.tail < p.head + p.capacity)
    × (get_or p.buf (p.tail % p.capacity) blank_frame ≡ f)

-- What the locals of `pop` say about it.
abbrev pub ConsumerKnows : Pipeline → ℕ → Consumer → Type 0
ConsumerKnows p saw waiting = Unit
ConsumerKnows p saw popping = Unit
ConsumerKnows p saw (pop_has_head h) = h ≡ p.head
ConsumerKnows p saw (pop_has_tail h t) = (h ≡ p.head) × (t ≡ saw)
ConsumerKnows p saw (copied f h) =
    (h ≡ p.head) × (p.head < saw) × (get_or p.buf (p.head % p.capacity) blank_frame ≡ f)

pub record Inv (m : Machine) : Type 0 where
  pub valid : IsValid m.pipe
  pub queue : m.accepted ≡ m.delivered ++ (view m.pipe).frames
  pub passed : length m.delivered ≡ m.pipe.head
  pub counted : m.pipe.dropped ≡ m.refusals % 2 ^ 64
  pub head_seen : m.saw_head ≤ m.pipe.head
  pub tail_seen : m.saw_tail ≤ m.pipe.tail
  pub head_behind : m.pipe.head ≤ m.saw_tail
  pub producer_knows : ProducerKnows m.pipe m.saw_head m.producer
  pub consumer_knows : ConsumerKnows m.pipe m.saw_tail m.consumer
