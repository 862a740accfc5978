-- ===== src/Pipeline/Threads/Steps.antt =====
-- The invariant holds in every reachable state of the two threads of
-- software/src/data/pipeline.cpp, while fewer than 2 ^ 64 frames have been pushed.
use bus_test_platform.Prelude.{
  ℕ, ◌+◌, ◌%◌, ◌^◌, ◌≤◌, ◌<◌, refl, sym, subst, ap, [], ◌∷◌, ◌++◌, length, length-append, get_or,
  set, arith,
}
use bus_test_platform.Pipeline.{make, blank_frame}
use bus_test_platform.Pipeline.Refine.{make-IsValid}
use bus_test_platform.Pipeline.Threads.{
  pushing, push_has_head, push_has_tail, resting, waiting, popping, pop_has_head, pop_has_tail,
  copied, stored, Machine, Step, call_push, push_load_head, push_load_tail, push_refuse, push_store,
  push_publish, call_pop, pop_load_head, pop_load_tail, pop_refuse, pop_copy, pop_release, Reach,
  start, later,
}
use bus_test_platform.Pipeline.Threads.Invariant.{Inv}
use bus_test_platform.Pipeline.Threads.Moves.{
  knows_producer, knows_consumer, local_step, room_left, store_step, publish_step, release_step,
  ConsumerKnows-publish, length-accepted,
}

refuse_step :
    {m : Machine}
    → Inv m
    → Inv (record m {
      pipe = record m.pipe { dropped = (m.pipe.dropped + 1) % 2 ^ 64 };
      producer = resting;
      refusals = m.refusals + 1;
    })
refuse_step {m} inv = record {
  valid = record {
    capacity_pos = inv.valid.capacity_pos;
    capacity_fits = inv.valid.capacity_fits;
    storage = inv.valid.storage;
    ordered = inv.valid.ordered;
    bounded = inv.valid.bounded;
    tail_fits = inv.valid.tail_fits;
  };
  queue = inv.queue;
  passed = inv.passed;
  counted = omega (arith, inv.counted);
  head_seen = inv.head_seen;
  tail_seen = inv.tail_seen;
  head_behind = inv.head_behind;
  producer_knows = tt;
  consumer_knows =
      ConsumerKnows-publish m.pipe m.saw_tail m.pipe.tail ((m.pipe.dropped + 1) % 2 ^ 64) m.consumer
        inv.consumer_knows;
}

-- Every step keeps the invariant.
pub Step-Inv : {m k : Machine} → Step m k → length k.accepted < 2 ^ 64 → Inv m → Inv k
Step-Inv {m} (call_push f e) few inv =
    local_step (pushing f) m.consumer m.saw_head m.saw_tail inv inv.head_seen inv.tail_seen
      inv.head_behind tt inv.consumer_knows
Step-Inv {m} (push_load_head f h e lo hi) few inv =
    local_step (push_has_head f h) m.consumer h m.saw_tail inv hi inv.tail_seen inv.head_behind refl
      inv.consumer_knows
Step-Inv {m} (push_load_tail f h e) few inv =
    local_step (push_has_tail f h m.pipe.tail) m.consumer m.saw_head m.saw_tail inv inv.head_seen
      inv.tail_seen inv.head_behind (knows_producer inv e, refl) inv.consumer_knows
Step-Inv (push_refuse f h t e test) few inv = refuse_step inv
Step-Inv {m} (push_store f h t e test) few inv =
    let (own, room) = room_left inv e test in
    subst
      (λ (x : ℕ). Inv (record m {
        pipe = record m.pipe { buf = set m.pipe.buf (x % m.pipe.capacity) f };
        producer = stored f x;
      }))
      (sym own) (store_step f inv room)
Step-Inv {m} (push_publish f t e) few inv =
    let knows = knows_producer inv e in
    let grown = length-append m.accepted (f ∷ []) in
    let full = length-accepted inv in
    subst
      (λ (x : ℕ). Inv (record m {
        pipe = record m.pipe { tail = x };
        producer = resting;
        accepted = m.accepted ++ f ∷ [];
      }))
      (omega (arith, knows.0)) (publish_step f t inv knows (omega (arith, knows.0)))
Step-Inv {m} (call_pop e) few inv =
    local_step m.producer popping m.saw_head m.saw_tail inv inv.head_seen inv.tail_seen
      inv.head_behind inv.producer_knows tt
Step-Inv {m} (pop_load_head e) few inv =
    local_step m.producer (pop_has_head m.pipe.head) m.saw_head m.saw_tail inv inv.head_seen
      inv.tail_seen inv.head_behind inv.producer_knows refl
Step-Inv {m} (pop_load_tail h t e lo hi) few inv =
    local_step m.producer (pop_has_tail h t) m.saw_head t inv inv.head_seen hi
      (omega (arith, inv.head_behind)) inv.producer_knows (knows_consumer inv e, refl)
Step-Inv {m} (pop_refuse h t e same) few inv =
    local_step m.producer waiting m.saw_head m.saw_tail inv inv.head_seen inv.tail_seen
      inv.head_behind inv.producer_knows tt
Step-Inv {m} (pop_copy h t e differ) few inv =
    let (own, seen) = knows_consumer inv e in
    local_step m.producer (copied (get_or m.pipe.buf (h % m.pipe.capacity) blank_frame) h)
      m.saw_head m.saw_tail inv inv.head_seen inv.tail_seen inv.head_behind inv.producer_knows
      (
        own,
        omega (arith, inv.head_behind),
        ap (λ (x : ℕ). get_or m.pipe.buf (x % m.pipe.capacity) blank_frame) (sym own),
      )
Step-Inv {m} (pop_release f h e) few inv =
    let knows = knows_consumer inv e in
    subst
      (λ (x : ℕ). Inv (record m {
        pipe = record m.pipe { head = x };
        consumer = waiting;
        delivered = m.delivered ++ f ∷ [];
      }))
      (omega (arith, knows.0, knows.1, inv.tail_seen, inv.valid.tail_fits))
      (release_step f h inv knows)

-- A step takes no frame back.
Step-accepted : {m k : Machine} → Step m k → length m.accepted ≤ length k.accepted
Step-accepted {m} (push_publish f t e) = omega (arith, length-append m.accepted (f ∷ []))
Step-accepted (call_push f e) = omega arith
Step-accepted (push_load_head f h e lo hi) = omega arith
Step-accepted (push_load_tail f h e) = omega arith
Step-accepted (push_refuse f h t e test) = omega arith
Step-accepted (push_store f h t e test) = omega arith
Step-accepted (call_pop e) = omega arith
Step-accepted (pop_load_head e) = omega arith
Step-accepted (pop_load_tail h t e lo hi) = omega arith
Step-accepted (pop_refuse h t e same) = omega arith
Step-accepted (pop_copy h t e differ) = omega arith
Step-accepted (pop_release f h e) = omega arith

pub Reach-Inv : {n : ℕ} {m : Machine} → n < 2 ^ 64 → length m.accepted < 2 ^ 64 → Reach n m → Inv m
unfolding make
Reach-Inv {n} hn few start =
    let (valid, empty_view, size) = make-IsValid n hn in
    record {
      valid = valid;
      queue = refl;
      passed = refl;
      counted = omega arith;
      head_seen = omega arith;
      tail_seen = omega arith;
      head_behind = omega arith;
      producer_knows = tt;
      consumer_knows = tt;
    }
Reach-Inv hn few (later r s) = Step-Inv s few (Reach-Inv hn (omega (arith, Step-accepted s)) r)
