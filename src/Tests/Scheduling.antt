-- ===== src/Tests/Scheduling.antt =====
-- The restbus scheduler on concrete tasks.
use bus_test_platform.Prelude.{
  ◌>>=◌, ℕ, ◌+◌, ◌≡◌, true, some, List, [], ◌∷◌, replicate, length, arith,
}
use bus_test_platform.Frame.{canfd}
use bus_test_platform.Pipeline.{blank_frame}
use bus_test_platform.Rbs.{Task, task_frame, tick_task, tick}
use bus_test_platform.Rbs.Due.{rounds, tick_task_lem}
use bus_test_platform.Rbs.Tick.{afters, bursts, tick_count, tick_lem, tick-tick}
use bus_test_platform.Prelude.{length-replicate}
use bus_test_platform.Prelude.Blit.{blit}
use bus_test_platform.Frame.{BusFrame}
use bus_test_platform.Codec.{encode_data, decode_data}
use bus_test_platform.Rbs.Link.{IsTask, tick-decode_data}
use bus_test_platform.Tests.Layout.{lp64}
use bus_test_platform.Tests.Data.{bytes, frame}

-- A task of period 100 that is next due at `next`.
abbrev task : ℕ → Task
task next = record {
  msg_id = 0x123;
  channel = 1;
  bus_type = canfd;
  period_us = 100;
  dlc = 8;
  payload = bytes;
  enabled = true;
  next_tick_us = next;
}

abbrev tasks : List Task
tasks = task 150 ∷ task 400 ∷ []

-- At 350 the deadlines 150, 250 and 350 have passed: three frames, and 450 is next.
tick_task_lem_example :
    tick_task (task 150) 350 (frame ∷ []) 1
    ≡ some (task 450, frame ∷ replicate 3 (task_frame (task 150) 350), 4)
unfolding rounds
tick_task_lem_example = tick_task_lem (task 150) 350 (frame ∷ []) 1 (omega arith)

tick_lem_example :
    tick tasks 350 (some [])
    ≡ some (afters tasks 350, some (bursts tasks 350), length (bursts tasks 350))
tick_lem_example = tick_lem tasks 350 [] (omega arith)

tick-tick_example :
    (do (mid, n) ← tick_count tasks 250; (end, m) ← tick_count mid 700; some (end, n + m))
    ≡ tick_count tasks 700
tick-tick_example =
    tick-tick tasks 250 700 (λ on. omega arith, (λ on. omega arith, tt)) (omega arith) (omega arith)

task_fits : (next : ℕ) → IsTask (task next)
task_fits next = record {
  channel_fits = omega arith;
  id_fits = omega arith;
  payload_bytes = omega arith;
}

-- The array that the host decodes into.
abbrev spare : List BusFrame
spare = replicate 16 blank_frame

tick-decode_data_example :
    (frames : List BusFrame) × (size : ℕ) × (packet : List ℕ) × (tick tasks 350 (some [])
      ≡ some (afters tasks 350, some frames, length frames))
    × (encode_data lp64 (some (replicate 1548 0)) 1548 (some frames) (length frames) 9
        ≡ some (size, packet))
    × (decode_data lp64 (some packet) size (some spare) 16
        ≡ some (length frames, blit spare 0 frames, 9))
unfolding bursts rounds
tick-decode_data_example =
    tick-decode_data lp64 tasks 350 (replicate 1548 0) 1548 9 spare 16
      (task_fits 150, (task_fits 400, tt)) (omega arith) (omega arith) (omega arith) (omega arith)
      (omega arith) (omega (arith, length-replicate {A = ℕ} 1548 0)) (omega arith)
