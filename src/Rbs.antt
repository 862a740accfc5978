-- ===== src/Rbs.antt =====
-- The restbus scheduler: software/src/engine/rbs/rbs_scheduler.h and rbs_scheduler.cpp.
pub mod Due
pub mod Tasks
pub mod Tick
pub mod Link
use bus_test_platform.Prelude.{
  ◌>>=◌, ℕ, zero, suc, ◌+◌, ◌*◌, ◌%◌, ◌^◌, Bool, true, false, not, ◌&&◌, ◌||◌, Option, none, some,
  List, [], ◌∷◌, ◌++◌, map, leb, ◌==◌, if◌then◌else◌, length,
}
use bus_test_platform.Frame.{BusFrame, BusType, unknown, can, canfd, canxl, lin, tx, make_frame}

-- `struct RbsTask`; `payload` is its array `data`.
pub record Task : Type 0 where
  pub msg_id : ℕ
  pub channel : ℕ
  pub bus_type : BusType
  pub period_us : ℕ
  pub dlc : ℕ
  pub payload : List ℕ
  pub enabled : Bool
  pub next_tick_us : ℕ

unfoldable pub reset : List Task → List Task
reset [] = []
reset (t ∷ tasks) = record t { next_tick_us = 0 } ∷ reset tasks

unfoldable pub add_task : List Task → Task → List Task
add_task tasks task = tasks ++ task ∷ []

unfoldable pub remove_task : List Task → ℕ → ℕ → List Task × Bool
remove_task [] msg_id channel = ([], false)
remove_task (t ∷ tasks) msg_id channel =
    let (rest, found) = remove_task tasks msg_id channel in
    if t.msg_id == msg_id && t.channel == channel then (tasks, true) else (t ∷ rest, found)

unfoldable pub clear_tasks : List Task → List Task
clear_tasks tasks = []

unfoldable pub task_count : List Task → ℕ
task_count tasks = length tasks

-- `t.bus_type == BT_BUS_CANFD || t.bus_type == BT_BUS_CANXL`
unfoldable pub has_fd : BusType → Bool
has_fd canfd = true
has_fd canxl = true
has_fd unknown = false
has_fd can = false
has_fd lin = false

unfoldable pub task_frame : Task → ℕ → BusFrame
task_frame t now =
    make_frame t.bus_type t.channel tx t.msg_id false (has_fd t.bus_type) t.dlc (some t.payload)
      (now * 10 % 2 ^ 64)

-- A task, `*out` and the count `emitted`.
abbrev pub Emission : Type 0
Emission = Task × List BusFrame × ℕ

-- `while (t.next_tick_us <= now_us)`; `none` means that the fuel ran out.
unfoldable pub emit_loop : ℕ → Task → ℕ → List BusFrame → ℕ → Option Emission
emit_loop zero t now out emitted = none
emit_loop (suc fuel) t now out emitted =
    let rest =
      emit_loop fuel (record t { next_tick_us = (t.next_tick_us + t.period_us) % 2 ^ 64 }) now
        (out ++ task_frame t now ∷ []) (emitted + 1) in
    if leb t.next_tick_us now then rest else some (t, out, emitted)

-- One round of the loop of `tick`. A period is at least 1, so `now + 2` rounds are enough.
unfoldable pub tick_task : Task → ℕ → List BusFrame → ℕ → Option Emission
tick_task t now out emitted =
    if not t.enabled || t.period_us == 0
    then some (t, out, emitted)
    else if t.next_tick_us == 0
    then some (record t { next_tick_us = (now + t.period_us) % 2 ^ 64 }, out, emitted)
    else emit_loop (now + 2) t now out emitted

unfoldable pub tick_loop :
    List Task → ℕ → List BusFrame → ℕ → Option (List Task × List BusFrame × ℕ)
tick_loop [] now out emitted = some ([], out, emitted)
tick_loop (t ∷ tasks) now out emitted = do
  (t', out', emitted') ← tick_task t now out emitted
  (tasks', out'', emitted'') ← tick_loop tasks now out' emitted'
  some (t' ∷ tasks', out'', emitted'')

-- The tasks afterwards, `*out` if it is not null, and the number returned.
unfoldable pub tick :
    List Task → ℕ → Option (List BusFrame) → Option (List Task × Option (List BusFrame) × ℕ)
tick tasks now none = some (tasks, none, 0)
tick tasks now (some out) = do
  (tasks', out', emitted) ← tick_loop tasks now out 0
  some (tasks', some out', emitted)
