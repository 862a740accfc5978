-- ===== src/Pipeline/Threads.antt =====
-- `push` and `pop` of software/src/data/pipeline.cpp, one shared access at a time: a producer thread
-- and a consumer thread, interleaved in any order. Each index is stored by one thread only. A load
-- of the other thread's index may return an old value, but none older than the thread has seen; the
-- own index is read as it stands. Accesses of the buffer take effect in the order of the steps.
pub mod Invariant
pub mod Moves
pub mod Steps
pub mod Safety
pub mod Atomic
use bus_test_platform.Prelude.{
  ℕ, ◌+◌, ◌%◌, ◌^◌, ◌≤◌, ◌≡◌, ◌≢◌, Bool, true, false, List, [], ◌∷◌, ◌++◌, leb, get_or, set,
}
use bus_test_platform.Frame.{BusFrame}
use bus_test_platform.Pipeline.{Pipeline, make, distance, blank_frame}

-- Where `push` stands, with its locals `frame`, `h` and `t` as far as they are live.
pub data Producer : Type 0 where
  resting : Producer
  pushing : BusFrame → Producer
  push_has_head : BusFrame → ℕ → Producer
  push_has_tail : BusFrame → ℕ → ℕ → Producer
  stored : BusFrame → ℕ → Producer

-- Where `pop` stands, with its locals `h` and `t`, and what it has copied to `*out`.
pub data Consumer : Type 0 where
  waiting : Consumer
  popping : Consumer
  pop_has_head : ℕ → Consumer
  pop_has_tail : ℕ → ℕ → Consumer
  copied : BusFrame → ℕ → Consumer

-- The shared memory, both threads, the newest value of the other's index that each has seen, and
-- what the callers have seen: the frames pushed and popped with success, and the pushes refused.
pub record Machine : Type 0 where
  pub pipe : Pipeline
  pub producer : Producer
  pub consumer : Consumer
  pub saw_head : ℕ
  pub saw_tail : ℕ
  pub accepted : List BusFrame
  pub delivered : List BusFrame
  pub refusals : ℕ

abbrev pub boot : ℕ → Machine
boot n = record {
  pipe = make n;
  producer = resting;
  consumer = waiting;
  saw_head = 0;
  saw_tail = 0;
  accepted = [];
  delivered = [];
  refusals = 0;
}

-- The test `t - h >= capacity_` and the branch taken belong to the next shared access.
pub data Step (m : Machine) : Machine → Type 0 where
  call_push : (f : BusFrame) → m.producer ≡ resting → Step m (record m { producer = pushing f })
  push_load_head :
      (f : BusFrame) (h : ℕ)
      → m.producer ≡ pushing f
      → m.saw_head ≤ h
      → h ≤ m.pipe.head
      → Step m (record m { producer = push_has_head f h; saw_head = h })
  push_load_tail :
      (f : BusFrame) (h : ℕ)
      → m.producer ≡ push_has_head f h
      → Step m (record m { producer = push_has_tail f h m.pipe.tail })
  push_refuse :
      (f : BusFrame) (h t : ℕ)
      → m.producer ≡ push_has_tail f h t
      → leb m.pipe.capacity (distance t h) ≡ true
      → Step m (record m {
        pipe = record m.pipe { dropped = (m.pipe.dropped + 1) % 2 ^ 64 };
        producer = resting;
        refusals = m.refusals + 1;
      })
  push_store :
      (f : BusFrame) (h t : ℕ)
      → m.producer ≡ push_has_tail f h t
      → leb m.pipe.capacity (distance t h) ≡ false
      → Step m (record m {
        pipe = record m.pipe { buf = set m.pipe.buf (t % m.pipe.capacity) f };
        producer = stored f t;
      })
  push_publish :
      (f : BusFrame) (t : ℕ)
      → m.producer ≡ stored f t
      → Step m (record m {
        pipe = record m.pipe { tail = (t + 1) % 2 ^ 64 };
        producer = resting;
        accepted = m.accepted ++ f ∷ [];
      })
  call_pop : m.consumer ≡ waiting → Step m (record m { consumer = popping })
  pop_load_head : m.consumer ≡ popping → Step m (record m { consumer = pop_has_head m.pipe.head })
  pop_load_tail :
      (h t : ℕ)
      → m.consumer ≡ pop_has_head h
      → m.saw_tail ≤ t
      → t ≤ m.pipe.tail
      → Step m (record m { consumer = pop_has_tail h t; saw_tail = t })
  pop_refuse :
      (h t : ℕ) → m.consumer ≡ pop_has_tail h t → h ≡ t → Step m (record m { consumer = waiting })
  pop_copy :
      (h t : ℕ)
      → m.consumer ≡ pop_has_tail h t
      → h ≢ t
      → Step m
          (record m { consumer = copied (get_or m.pipe.buf (h % m.pipe.capacity) blank_frame) h })
  pop_release :
      (f : BusFrame) (h : ℕ)
      → m.consumer ≡ copied f h
      → Step m (record m {
        pipe = record m.pipe { head = (h + 1) % 2 ^ 64 };
        consumer = waiting;
        delivered = m.delivered ++ f ∷ [];
      })

pub data Reach (n : ℕ) : Machine → Type 0 where
  start : Reach n (boot n)
  later : {m k : Machine} → Reach n m → Step m k → Reach n k
