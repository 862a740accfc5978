-- ===== src/Pipeline/Threads/Moves.antt =====
-- Every step of the two threads of software/src/data/pipeline.cpp keeps the invariant.
use bus_test_platform.Prelude.{
  ℕ, suc, ◌+◌, ◌-◌, ◌%◌, ◌^◌, ◌≤◌, ◌<◌, ◌≡◌, refl, sym, subst, ap, ap₂, ◌∙◌, false, List, [], ◌∷◌,
  ◌++◌, append_assoc, length, set, length-set, length-append, get_or-set_self, get_or-set_ne, leb,
  arith,
}
use native.Mathlib.Nat.{mod-lt}
use bus_test_platform.Frame.{BusFrame}
use bus_test_platform.Pipeline.{Pipeline, distance, blank_frame}
use bus_test_platform.Pipeline.Refine.{view, length-view}
use bus_test_platform.Pipeline.Window.{slots_ne, window, window-suc, window-set_behind}
use bus_test_platform.Pipeline.Threads.{
  Producer, resting, pushing, push_has_head, push_has_tail, stored, Consumer, waiting, popping,
  pop_has_head, pop_has_tail, copied, Machine,
}
use bus_test_platform.Pipeline.Threads.Invariant.{ProducerKnows, ConsumerKnows, Inv}

-- The buffer written at the tail while the consumer is at work.
ConsumerKnows-store :
    (p : Pipeline) (saw : ℕ) (c : Consumer) (f : BusFrame)
    → saw ≤ p.tail
    → p.tail < p.head + p.capacity
    → ConsumerKnows p saw c
    → ConsumerKnows (record p { buf = set p.buf (p.tail % p.capacity) f }) saw c
ConsumerKnows-store p saw waiting f hs hr h = h
ConsumerKnows-store p saw popping f hs hr h = h
ConsumerKnows-store p saw (pop_has_head x) f hs hr h = h
ConsumerKnows-store p saw (pop_has_tail x t) f hs hr h = h
ConsumerKnows-store p saw (copied g x) f hs hr (e, below, same) = (
  e,
  below,
  get_or-set_ne p.buf f blank_frame
        (λ clash. slots_ne p.capacity p.head p.tail (omega arith) hr (sym clash))
      ∙ same,
)

-- The head moved on while the producer is at work.
ProducerKnows-release :
    (p : Pipeline) (saw h : ℕ) (q : Producer)
    → p.head ≤ h
    → ProducerKnows p saw q
    → ProducerKnows (record p { head = h }) saw q
ProducerKnows-release p saw h resting e k = k
ProducerKnows-release p saw h (pushing f) e k = k
ProducerKnows-release p saw h (push_has_head f x) e k = k
ProducerKnows-release p saw h (push_has_tail f x t) e k = k
ProducerKnows-release p saw h (stored f t) e (k, room, same) = (k, omega arith, same)

pub length-accepted : {m : Machine} → Inv m → length m.accepted ≡ m.pipe.tail
length-accepted {m} inv = omega (
  arith,
  ap (λ (fs : List BusFrame). length fs) inv.queue,
  length-append m.delivered (view m.pipe).frames,
  length-view m.pipe,
  inv.passed,
  inv.valid.ordered,
)

-- What the case of the producer tells about its locals.
pub knows_producer :
    {m : Machine} {q : Producer} → Inv m → m.producer ≡ q → ProducerKnows m.pipe m.saw_head q
knows_producer {m} inv e = subst (ProducerKnows m.pipe m.saw_head) e inv.producer_knows

pub knows_consumer :
    {m : Machine} {c : Consumer} → Inv m → m.consumer ≡ c → ConsumerKnows m.pipe m.saw_tail c
knows_consumer {m} inv e = subst (ConsumerKnows m.pipe m.saw_tail) e inv.consumer_knows

-- A step that leaves the shared memory and the histories alone.
pub local_step :
    {m : Machine} (q : Producer) (c : Consumer) (sh st : ℕ)
    → Inv m
    → sh ≤ m.pipe.head
    → st ≤ m.pipe.tail
    → m.pipe.head ≤ st
    → ProducerKnows m.pipe sh q
    → ConsumerKnows m.pipe st c
    → Inv (record m { producer = q; consumer = c; saw_head = sh; saw_tail = st })
local_step q c sh st inv hh ht hb hq hc = record {
  valid = inv.valid;
  queue = inv.queue;
  passed = inv.passed;
  counted = inv.counted;
  head_seen = hh;
  tail_seen = ht;
  head_behind = hb;
  producer_knows = hq;
  consumer_knows = hc;
}

-- The test of `push` on an old head still leaves room behind the tail.
pub room_left :
    {m : Machine} {f : BusFrame} {h t : ℕ}
    → Inv m
    → m.producer ≡ push_has_tail f h t
    → leb m.pipe.capacity (distance t h) ≡ false
    → (t ≡ m.pipe.tail) × (m.pipe.tail < m.pipe.head + m.pipe.capacity)
room_left {m} inv e test =
    let (stale, own) = knows_producer inv e in
    let v = inv.valid in (own, ground (arith, inv.head_seen, v.ordered, v.tail_fits))

pub store_step :
    {m : Machine} (f : BusFrame)
    → Inv m
    → m.pipe.tail < m.pipe.head + m.pipe.capacity
    → Inv (record m {
      pipe = record m.pipe { buf = set m.pipe.buf (m.pipe.tail % m.pipe.capacity) f };
      producer = stored f m.pipe.tail;
    })
store_step {m} f inv room =
    let p = m.pipe in
    let v = inv.valid in
    let slot = mod-lt p.tail v.capacity_pos in
    record {
      valid = record {
        capacity_pos = v.capacity_pos;
        capacity_fits = v.capacity_fits;
        storage = length-set p.buf (p.tail % p.capacity) f ∙ v.storage;
        ordered = v.ordered;
        bounded = v.bounded;
        tail_fits = v.tail_fits;
      };
      queue =
          inv.queue
          ∙ ap (λ (fs : List BusFrame). m.delivered ++ fs)
              (sym (
                window-set_behind blank_frame p.capacity p.buf p.head (p.tail - p.head) p.tail f
                  (omega (arith, v.ordered)) (omega (arith, v.ordered))));
      passed = inv.passed;
      counted = inv.counted;
      head_seen = inv.head_seen;
      tail_seen = inv.tail_seen;
      head_behind = inv.head_behind;
      producer_knows = (
        refl,
        room,
        get_or-set_self p.buf (p.tail % p.capacity) f blank_frame (omega (arith, v.storage)),
      );
      consumer_knows =
          ConsumerKnows-store p m.saw_tail m.consumer f inv.tail_seen room inv.consumer_knows;
    }

-- The consumer knows nothing of the counter, nor of a tail beyond the one it saw.
pub ConsumerKnows-publish :
    (p : Pipeline) (saw t n : ℕ) (c : Consumer)
    → ConsumerKnows p saw c
    → ConsumerKnows (record p { tail = t; dropped = n }) saw c
ConsumerKnows-publish p saw t n waiting h = h
ConsumerKnows-publish p saw t n popping h = h
ConsumerKnows-publish p saw t n (pop_has_head x) h = h
ConsumerKnows-publish p saw t n (pop_has_tail x y) h = h
ConsumerKnows-publish p saw t n (copied g x) h = h

pub publish_step :
    {m : Machine} (f : BusFrame) (t : ℕ)
    → Inv m
    → ProducerKnows m.pipe m.saw_head (stored f t)
    → t + 1 < 2 ^ 64
    → Inv (record m {
      pipe = record m.pipe { tail = t + 1 };
      producer = resting;
      accepted = m.accepted ++ f ∷ [];
    })
publish_step {m} f t inv (own, room, same) fits =
    let p = m.pipe in
    let v = inv.valid in
    record {
      valid = record {
        capacity_pos = v.capacity_pos;
        capacity_fits = v.capacity_fits;
        storage = v.storage;
        ordered = omega (arith, v.ordered);
        bounded = omega arith;
        tail_fits = fits;
      };
      queue =
          ap (λ (fs : List BusFrame). fs ++ f ∷ []) inv.queue
          ∙ append_assoc m.delivered (view p).frames (f ∷ [])
          ∙ ap (λ (fs : List BusFrame). m.delivered ++ fs) (sym (longer v.ordered));
      passed = inv.passed;
      counted = inv.counted;
      head_seen = inv.head_seen;
      tail_seen = omega (arith, inv.tail_seen);
      head_behind = inv.head_behind;
      producer_knows = tt;
      consumer_knows =
          ConsumerKnows-publish p m.saw_tail (t + 1) p.dropped m.consumer inv.consumer_knows;
    }
  where
    longer :
        m.pipe.head ≤ m.pipe.tail
        → window blank_frame m.pipe.capacity m.pipe.buf m.pipe.head (t + 1 - m.pipe.head)
          ≡ (view m.pipe).frames ++ f ∷ []
    longer ordered =
        ap (window blank_frame m.pipe.capacity m.pipe.buf m.pipe.head)
          {y = suc (m.pipe.tail - m.pipe.head)} (omega arith)
        ∙ window-suc blank_frame m.pipe.capacity m.pipe.buf m.pipe.head (m.pipe.tail - m.pipe.head)
            m.pipe.tail (omega arith)
        ∙ ap (λ (g : BusFrame). (view m.pipe).frames ++ g ∷ []) same

pub release_step :
    {m : Machine} (f : BusFrame) (h : ℕ)
    → Inv m
    → ConsumerKnows m.pipe m.saw_tail (copied f h)
    → Inv (record m {
      pipe = record m.pipe { head = h + 1 };
      consumer = waiting;
      delivered = m.delivered ++ f ∷ [];
    })
release_step {m} f h inv (own, below, same) =
    let p = m.pipe in
    let v = inv.valid in
    record {
      valid = record {
        capacity_pos = v.capacity_pos;
        capacity_fits = v.capacity_fits;
        storage = v.storage;
        ordered = omega (arith, inv.tail_seen);
        bounded = omega (arith, v.bounded);
        tail_fits = v.tail_fits;
      };
      queue =
          inv.queue
          ∙ ap (λ (fs : List BusFrame). m.delivered ++ fs) (shorter inv.tail_seen)
          ∙ sym (
              append_assoc m.delivered (f ∷ [])
                (window blank_frame p.capacity p.buf (h + 1) (p.tail - (h + 1))));
      passed = omega (arith, length-append m.delivered (f ∷ []), inv.passed);
      counted = inv.counted;
      head_seen = omega (arith, inv.head_seen);
      tail_seen = inv.tail_seen;
      head_behind = omega arith;
      producer_knows =
          ProducerKnows-release p m.saw_head (h + 1) m.producer (omega arith) inv.producer_knows;
      consumer_knows = tt;
    }
  where
    shorter :
        m.saw_tail ≤ m.pipe.tail
        → (view m.pipe).frames
          ≡ f ∷ window blank_frame m.pipe.capacity m.pipe.buf (h + 1) (m.pipe.tail - (h + 1))
    shorter seen =
        ap (window blank_frame m.pipe.capacity m.pipe.buf m.pipe.head)
          {y = suc (m.pipe.tail - (m.pipe.head + 1))} (omega arith)
        ∙ ap₂
            (λ (g : BusFrame) (k : ℕ).
              g ∷ window blank_frame m.pipe.capacity m.pipe.buf (k + 1) (m.pipe.tail - (k + 1)))
            same (sym own)
