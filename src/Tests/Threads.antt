-- ===== src/Tests/Threads.antt =====
-- The two threads of the pipeline on concrete frames.
use bus_test_platform.Prelude.{ℕ, ◌%◌, ◌^◌, ◌≤◌, ◌≡◌, ◌≢◌, refl, List, [], ◌∷◌, ◌++◌, length, arith}
use bus_test_platform.Frame.{BusFrame}
use bus_test_platform.Pipeline.{make, blank_frame}
use bus_test_platform.Pipeline.Threads.{
  resting, push_has_tail, waiting, pop_has_tail, Machine, Reach, call_push, push_load_head,
  push_load_tail, push_store, push_publish, call_pop, pop_load_head, pop_load_tail, start, later,
}
use bus_test_platform.Pipeline.Threads.Safety.{no_race, fifo}
use bus_test_platform.Tests.Data.{frame}

-- One frame has been pushed into two slots, and both threads are at rest.
abbrev one_pushed : Machine
one_pushed = record {
  pipe = record { buf = frame ∷ blank_frame ∷ []; capacity = 2; head = 0; tail = 1; dropped = 0 };
  producer = resting;
  consumer = waiting;
  saw_head = 0;
  saw_tail = 0;
  accepted = frame ∷ [];
  delivered = [];
  refusals = 0;
}

one_pushed_reached : Reach 2 one_pushed
unfolding make
one_pushed_reached =
    later
      (later
        (later
          (later (later start (call_push frame refl))
            (push_load_head frame 0 refl (omega arith) (omega arith)))
          (push_load_tail frame 0 refl))
        (push_store frame 0 0 refl refl))
      (push_publish frame 0 refl)

-- A second push is about to write, while a pop is about to read.
abbrev busy : Machine
busy = record one_pushed {
  producer = push_has_tail frame 0 1;
  consumer = pop_has_tail 0 1;
  saw_tail = 1;
}

busy_reached : Reach 2 busy
unfolding make
busy_reached =
    later
      (later
        (later
          (later (later (later one_pushed_reached (call_push frame refl)) (call_pop refl))
            (push_load_head frame 0 refl (omega arith) (omega arith)))
          (pop_load_head refl))
        (pop_load_tail 0 1 refl (omega arith) (omega arith)))
      (push_load_tail frame 0 refl)

no_race_example : ◌≢◌ {A = ℕ} 1 0
no_race_example = no_race {n = 2} {m = busy} 1 0 (omega arith) (omega arith) busy_reached refl refl

fifo_example :
    (held : List BusFrame) × (busy.accepted ≡ busy.delivered ++ held)
    × (length held ≤ 2)
    × (0 ≡ 0 % 2 ^ 64)
fifo_example = fifo {n = 2} {m = busy} (omega arith) (omega arith) busy_reached
