-- ===== src/Rbs/Tick.antt =====
-- Whole ticks of the restbus scheduler: software/src/engine/rbs/rbs_scheduler.cpp over all its
-- tasks.
use bus_test_platform.Prelude.{
  ◌>>=◌, ℕ, ◌+◌, ◌^◌, ◌≤◌, ◌<◌, ◌≡◌, refl, ap₂, ◌∙◌, Option, some, List, [], ◌∷◌, ◌++◌,
  append_assoc, append-nil, length, replicate, All, arith, length-append, length-replicate,
}
use bus_test_platform.Frame.{BusFrame}
use bus_test_platform.Rbs.{Task, task_frame, reset, tick_loop, tick}
use bus_test_platform.Rbs.Due.{Anchored, due_count, after, tick_task_lem, due_count-after}

-- The tasks after a tick, the frames it emits in order, and how many they are.
unfoldable pub afters : List Task → ℕ → List Task
afters [] now = []
afters (t ∷ tasks) now = after t now ∷ afters tasks now

unfoldable pub bursts : List Task → ℕ → List BusFrame
bursts [] now = []
bursts (t ∷ tasks) now = replicate (due_count t now) (task_frame t now) ++ bursts tasks now

unfoldable pub total : List Task → ℕ → ℕ
total [] now = 0
total (t ∷ tasks) now = due_count t now + total tasks now

-- The 64-bit clock does not wrap within one period of `now`.
abbrev pub NoWrap : ℕ → Task → Type 0
NoWrap now t = now + t.period_us < 2 ^ 64

tick_loop_lem :
    (tasks : List Task) (now : ℕ) (out : List BusFrame) (emitted : ℕ)
    → All (NoWrap now) tasks
    → tick_loop tasks now out emitted
      ≡ some (afters tasks now, out ++ bursts tasks now, emitted + total tasks now)
unfolding tick_loop afters bursts total
tick_loop_lem [] now out emitted h = ground (arith, append-nil out)
tick_loop_lem (t ∷ tasks) now out emitted (ht, h) =
    let burst = replicate (due_count t now) (task_frame t now) in
    rw
      (
        tick_task_lem t now out emitted ht,
        tick_loop_lem tasks now (out ++ burst) (emitted + due_count t now) h,
        append_assoc out burst (bursts tasks now),
      )
      (ground arith)

length-bursts : (tasks : List Task) (now : ℕ) → length (bursts tasks now) ≡ total tasks now
unfolding bursts total
length-bursts [] now = refl
length-bursts (t ∷ tasks) now =
    length-append (replicate (due_count t now) (task_frame t now)) (bursts tasks now)
    ∙ ap₂ (λ (m n : ℕ). m + n) (length-replicate (due_count t now) (task_frame t now))
        (length-bursts tasks now)

-- With an output vector, and while the clock does not wrap within a period of a task, a tick
-- always returns: each task has moved on as `after` says, and the frames appended are the bursts
-- of the tasks in their order, whose number is returned.
pub tick_lem :
    (tasks : List Task) (now : ℕ) (out : List BusFrame)
    → All (NoWrap now) tasks
    → tick tasks now (some out)
      ≡ some (afters tasks now, some (out ++ bursts tasks now), length (bursts tasks now))
unfolding tick
tick_lem tasks now out h =
    rw (tick_loop_lem tasks now out 0 h, length-bursts tasks now) (ground arith)

total-afters :
    (tasks : List Task) (a b : ℕ)
    → All Anchored tasks
    → a ≤ b
    → (total tasks a + total (afters tasks a) b ≡ total tasks b)
      × (afters (afters tasks a) b ≡ afters tasks b)
unfolding afters total
total-afters [] a b ht h = (refl, refl)
total-afters (t ∷ tasks) a b (ht, hts) h =
    let here = due_count-after t a b ht h in
    let there = total-afters tasks a b hts h in
    (
      omega (arith, here.0, there.0),
      ap₂ (λ (n : ℕ) (ts : List Task). record t { next_tick_us = n } ∷ ts) here.1 there.1,
    )

NoWrap-before : (tasks : List Task) (a b : ℕ) → a ≤ b → All (NoWrap b) tasks → All (NoWrap a) tasks
NoWrap-before [] a b h hw = hw
NoWrap-before (t ∷ tasks) a b h (hw, hws) = (omega arith, NoWrap-before tasks a b h hws)

NoWrap-afters :
    (tasks : List Task) (a b : ℕ) → All (NoWrap b) tasks → All (NoWrap b) (afters tasks a)
unfolding afters
NoWrap-afters [] a b hw = hw
NoWrap-afters (t ∷ tasks) a b (hw, hws) = (hw, NoWrap-afters tasks a b hws)

-- The tasks after a tick, and the number it returns.
abbrev pub tick_count : List Task → ℕ → Option (List Task × ℕ)
tick_count tasks now = do (tasks', out, emitted) ← tick tasks now (some []); some (tasks', emitted)

tick_count_lem :
    (tasks : List Task) (now : ℕ)
    → All (NoWrap now) tasks
    → tick_count tasks now ≡ some (afters tasks now, total tasks now)
tick_count_lem tasks now hw = rw (tick_lem tasks now [] hw, length-bursts tasks now) refl

-- While every active task is anchored and the clock does not wrap, ticking at `a` and then at a
-- later `b` leaves the same tasks as ticking at `b` alone, and the two numbers returned add up to
-- its number: no frame is lost or sent twice, however long the scheduler was held up.
pub tick-tick :
    (tasks : List Task) (a b : ℕ)
    → All Anchored tasks
    → All (NoWrap b) tasks
    → a ≤ b
    → (do (mid, n) ← tick_count tasks a; (end, m) ← tick_count mid b; some (end, n + m))
      ≡ tick_count tasks b
tick-tick tasks a b ht hw h =
    let same = total-afters tasks a b ht h in
    rw
      (
        tick_count_lem tasks a (NoWrap-before tasks a b h hw),
        tick_count_lem (afters tasks a) b (NoWrap-afters tasks a b hw),
        tick_count_lem tasks b hw,
        same.0,
        same.1,
      )
      refl

due_count-fresh : (t : Task) (now : ℕ) → due_count (record t { next_tick_us = 0 }) now ≡ 0
due_count-fresh t now = ground arith

bursts-reset : (tasks : List Task) (now : ℕ) → bursts (reset tasks) now ≡ []
unfolding reset bursts
bursts-reset [] now = refl
bursts-reset (t ∷ tasks) now = rw (due_count-fresh t now, bursts-reset tasks now) refl

NoWrap-reset :
    (tasks : List Task) (now : ℕ) → All (NoWrap now) tasks → All (NoWrap now) (reset tasks)
unfolding reset
NoWrap-reset [] now hw = hw
NoWrap-reset (t ∷ tasks) now (hw, hws) = (hw, NoWrap-reset tasks now hws)

-- While the clock does not wrap within a period of a task, the first tick after `reset` sends
-- nothing: `*out` stays as it was and 0 is returned.
pub tick-reset :
    (tasks : List Task) (now : ℕ) (out : List BusFrame)
    → All (NoWrap now) tasks
    → tick (reset tasks) now (some out) ≡ some (afters (reset tasks) now, some out, 0)
tick-reset tasks now out hw =
    rw
      (
        tick_lem (reset tasks) now out (NoWrap-reset tasks now hw),
        bursts-reset tasks now,
        append-nil out,
      )
      refl
