-- ===== src/Rbs/Due.antt =====
-- When a task of the restbus scheduler is due: the loop of `tick` in
-- software/src/engine/rbs/rbs_scheduler.cpp in closed form.
use native.Mathlib.Nat.{
  div-eq-sub-div, div-eq_of_lt, div-le_self, div-add-mod, mod-lt, le-div_iff_mul-le, add-mul,
  div-mul-le_self,
}
use mathlib.Core.Option.{some-injective}
use bus_test_platform.Prelude.{
  subst, sym, ℕ, zero, suc, ◌+◌, ◌-◌, ◌*◌, ◌/◌, ◌%◌, ◌^◌, ◌≤◌, ◌<◌, ◌≡◌, ◌≢◌, ◌⊎◌, refl, ap, ◌∙◌,
  Bool, true, not, ◌&&◌, some, List, [], ◌∷◌, ◌++◌, append_assoc, append-nil, leb, ◌==◌,
  if◌then◌else◌, replicate, arith, Bool-cases, inl, inr,
}
use bus_test_platform.Frame.{BusFrame}
use bus_test_platform.Rbs.{Task, Emission, task_frame, emit_loop, tick_task}

-- How many deadlines `next`, `next + period`, … do not lie behind `now`.
unfoldable pub rounds : ℕ → ℕ → ℕ → ℕ
rounds next period now = if leb next now then (now - next) / period + 1 else 0

rounds-ahead : (next period now : ℕ) → now < next → rounds next period now ≡ 0
unfolding rounds
rounds-ahead next period now h = ground arith

rounds-due : (next period now : ℕ) → 0 < rounds next period now → next ≤ now
unfolding rounds
rounds-due next period now h = ground arith

-- One deadline fewer once the first is served.
rounds-suc :
    (next period now : ℕ)
    → 0 < period
    → next ≤ now
    → rounds next period now ≡ suc (rounds (next + period) period now)
unfolding rounds
rounds-suc next period now hp h = elim (Bool-cases (leb (next + period) now)) [
  | inl more ↦ ground (
    arith,
    div-eq-sub-div {m = period} {n = now - next} hp,
    ap (λ (k : ℕ). k / period) {x = now - next - period} {y = now - (next + period)} (omega arith),
  )
  | inr last ↦ ground (arith, div-eq_of_lt {n = now - next} {m = period})
]

-- The frame does not depend on the deadline.
task_frame-next :
    (t : Task) (n now : ℕ) → task_frame (record t { next_tick_us = n }) now ≡ task_frame t now
unfolding task_frame
task_frame-next t n now = refl

-- With enough fuel and no wrap of the clock, the loop emits one frame for each deadline up to `now`
-- and moves the deadline on by whole periods.
pub emit_loop-rounds :
    (n fuel : ℕ) (t : Task) (now : ℕ) (out : List BusFrame) (emitted : ℕ)
    → n ≡ rounds t.next_tick_us t.period_us now
    → n < fuel
    → 0 < t.period_us
    → now + t.period_us < 2 ^ 64
    → emit_loop fuel t now out emitted
      ≡ some (
        record t { next_tick_us = t.next_tick_us + n * t.period_us },
        out ++ replicate n (task_frame t now),
        emitted + n,
      )
unfolding emit_loop rounds
emit_loop-rounds n zero t now out emitted e hf hp hw = absurd (omega arith)
emit_loop-rounds zero (suc fuel) t now out emitted e hf hp hw = ground (arith, append-nil out)
emit_loop-rounds (suc n) (suc fuel) t now out emitted e hf hp hw =
    let next = t.next_tick_us + t.period_us in
    let later =
      emit_loop-rounds n fuel (record t { next_tick_us = next }) now (out ++ task_frame t now ∷ [])
        (emitted + 1) (omega (arith, rounds-suc t.next_tick_us t.period_us now hp due, e))
        (omega arith) hp hw in
    rw (due_now, no_wrap)
      (later
        ∙ rw
            (
              task_frame-next t next now,
              append_assoc out (task_frame t now ∷ []) (replicate n (task_frame t now)),
            )
            (ground arith))
  where
    due : t.next_tick_us ≤ now
    due = ground arith

    due_now : leb t.next_tick_us now ≡ true
    due_now = ground arith

    no_wrap : (t.next_tick_us + t.period_us) % 2 ^ 64 ≡ t.next_tick_us + t.period_us
    no_wrap = omega (arith, due)

rounds-le : (next period now : ℕ) → rounds next period now ≤ now + 1
unfolding rounds
rounds-le next period now = ground (arith, div-le_self (now - next) period)

-- What `tick` does with one task: the new deadline and the number of frames.
abbrev pub active : Task → Bool
active t = t.enabled && not (t.period_us == 0)

abbrev pub due_count : Task → ℕ → ℕ
due_count t now =
    if active t && not (t.next_tick_us == 0) then rounds t.next_tick_us t.period_us now else 0

abbrev pub next_deadline : Task → ℕ → ℕ
next_deadline t now =
    if active t
    then if t.next_tick_us == 0
      then now + t.period_us
      else t.next_tick_us + due_count t now * t.period_us
    else t.next_tick_us

abbrev pub after : Task → ℕ → Task
after t now = record t { next_tick_us = next_deadline t now }

-- While the clock does not wrap within one period, on every branch and with the loop's fuel always
-- enough: a task that is disabled or has period 0 is left alone, a fresh one is anchored one
-- period ahead with no frame, and any other emits one frame for each deadline up to `now` and
-- moves on by as many periods.
pub tick_task_lem :
    (t : Task) (now : ℕ) (out : List BusFrame) (emitted : ℕ)
    → now + t.period_us < 2 ^ 64
    → tick_task t now out emitted
      ≡ some (
        after t now,
        out ++ replicate (due_count t now) (task_frame t now),
        emitted + due_count t now,
      )
unfolding tick_task
tick_task_lem t now out emitted hw = ground (
  arith,
  append-nil out,
  rounds-le t.next_tick_us t.period_us now,
  emit_loop-rounds (rounds t.next_tick_us t.period_us now) (now + 2) t now out emitted,
)

pub rounds_bounds :
    (next period now : ℕ)
    → 0 < period
    → next ≤ now
    → (now < next + rounds next period now * period)
      × (next + rounds next period now * period ≤ now + period)
unfolding rounds
rounds_bounds next period now hp h =
    let served =
      ap (λ (n : ℕ). n * period) {x = rounds next period now} {y = (now - next) / period + 1}
        (ground arith) in
    let split = div-add-mod (now - next) period in
    let rest = mod-lt (now - next) hp in (omega arith, omega arith)

-- The deadline that `tick_task_lem` gives an active task lies ahead of the clock, by at most one
-- period unless it is the deadline that the task had.
next_deadline_ahead :
    (t : Task) (now : ℕ)
    → active t ≡ true
    → (now < next_deadline t now)
      × ((next_deadline t now ≤ now + t.period_us) ⊎ (next_deadline t now ≡ t.next_tick_us))
next_deadline_ahead t now h = elim (Bool-cases (leb t.next_tick_us now)) [
  | inl due ↦
      let bounds = rounds_bounds t.next_tick_us t.period_us now (ground arith) (ground arith) in
      ground arith
  | inr ahead ↦
      let none_due = rounds-ahead t.next_tick_us t.period_us now (ground arith) in
      let unmoved =
        ap (λ (n : ℕ). n * t.period_us) {x = rounds t.next_tick_us t.period_us now} {y = 0}
          none_due in
      ground arith
]

-- While the clock does not wrap within one period, the deadline that `tick` leaves an active task
-- lies ahead of the clock, by at most one period unless it is the deadline that the task had.
pub next_tick_us-tick_task :
    (t t' : Task) (now : ℕ) (out out' : List BusFrame) (emitted emitted' : ℕ)
    → active t ≡ true
    → now + t.period_us < 2 ^ 64
    → tick_task t now out emitted ≡ some (t', out', emitted')
    → (now < t'.next_tick_us)
      × ((t'.next_tick_us ≤ now + t.period_us) ⊎ (t'.next_tick_us ≡ t.next_tick_us))
next_tick_us-tick_task t t' now out out' emitted emitted' h hw e =
    let same =
      ap (λ (r : Emission). r.0.next_tick_us)
        (some-injective _ (t', out', emitted') (sym (tick_task_lem t now out emitted hw) ∙ e)) in
    subst (λ (n : ℕ). (now < n) × ((n ≤ now + t.period_us) ⊎ (n ≡ t.next_tick_us))) same
      (next_deadline_ahead t now h)

-- Serving the first `n` deadlines that are due leaves the others.
rounds-add :
    (n next period now : ℕ)
    → 0 < period
    → n ≤ rounds next period now
    → rounds next period now ≡ n + rounds (next + n * period) period now
rounds-add zero next period now hp h =
    ap (λ (t : ℕ). rounds t period now) {y = next + 0 * period} (omega arith) ∙ omega arith
rounds-add (suc n) next period now hp h =
    let first = rounds-suc next period now hp (rounds-due next period now (omega arith)) in
    first
    ∙ ap suc (
        rounds-add n (next + period) period now hp (omega (arith, first))
        ∙ ap (λ (t : ℕ). n + rounds t period now) {y = next + suc n * period} (omega arith))
    ∙ omega arith

rounds_mono :
    (next period a b : ℕ) → 0 < period → a ≤ b → rounds next period a ≤ rounds next period b
unfolding rounds
rounds_mono next period a b hp h = ground (
  arith,
  (le-div_iff_mul-le {k = period} {x = (a - next) / period} {y = b - next} hp).1
      (omega (arith, div-mul-le_self (a - next) period)),
)

-- An active task has been anchored.
abbrev pub Anchored : Task → Type 0
Anchored t = active t ≡ true → t.next_tick_us ≢ 0

-- Ticking at `a` and later at `b` comes to the same as ticking at `b` alone: the same number of
-- frames in all, and the same deadline.
pub due_count-after :
    (t : Task) (a b : ℕ)
    → Anchored t
    → a ≤ b
    → (due_count t a + due_count (after t a) b ≡ due_count t b)
      × (next_deadline (after t a) b ≡ next_deadline t b)
due_count-after t a b ht h = elim (Bool-cases (active t)) [
  | inl on ↦
      let next = t.next_tick_us in
      let n = rounds next t.period_us a in
      let hp : 0 < t.period_us = ground arith in
      let later = rounds-add n next t.period_us b hp (rounds_mono next t.period_us a b hp h) in
      let anchored = ht on in
      let moved = add-mul n (rounds (next + n * t.period_us) t.period_us b) t.period_us in
      let total = ap (λ (k : ℕ). k * t.period_us) later in (ground arith, ground arith)
  | inr off ↦ (ground arith, ground arith)
]
