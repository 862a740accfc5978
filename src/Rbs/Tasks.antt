-- ===== src/Rbs/Tasks.antt =====
-- The task list of the restbus scheduler: `add_task` and `remove_task` in
-- software/src/engine/rbs/rbs_scheduler.cpp.
use bus_test_platform.Prelude.{
  ℕ, ◌≡◌, refl, Bool, true, false, ◌&&◌, List, [], ◌∷◌, ◌++◌, append-nil, ◌==◌, All, arith,
}
use bus_test_platform.Rbs.{Task, add_task, remove_task}

abbrev matches : ℕ → ℕ → Task → Bool
matches msg_id channel t = t.msg_id == msg_id && t.channel == channel

-- No task has this identifier on this channel.
abbrev pub Free : ℕ → ℕ → List Task → Type 0
Free msg_id channel tasks = All (λ (t : Task). matches msg_id channel t ≡ false) tasks

-- Where no task has the identifier and channel, `remove_task` returns false and changes nothing.
pub remove_task-absent :
    (tasks : List Task) (msg_id channel : ℕ)
    → Free msg_id channel tasks
    → remove_task tasks msg_id channel ≡ (tasks, false)
unfolding remove_task
remove_task-absent [] msg_id channel h = refl
remove_task-absent (t ∷ tasks) msg_id channel (ht, h) =
    rw (ht, remove_task-absent tasks msg_id channel h) refl

-- Where no earlier task has the identifier and channel, `remove_task` removes the first task that
-- has them, returns true, and keeps every other task, later ones with the same identifier and
-- channel included, in its place.
pub remove_task-first :
    (before : List Task) (t : Task) (tasks : List Task)
    → Free t.msg_id t.channel before
    → remove_task (before ++ t ∷ tasks) t.msg_id t.channel ≡ (before ++ tasks, true)
unfolding remove_task
remove_task-first [] t tasks h = rw (same) refl
  where
    same : matches t.msg_id t.channel t ≡ true
    same = ground arith
remove_task-first (s ∷ before) t tasks (hs, h) = rw (hs, remove_task-first before t tasks h) refl

-- Removing a task just added to a scheduler that has none like it gives the tasks back.
pub remove_task-add_task :
    (tasks : List Task) (t : Task)
    → Free t.msg_id t.channel tasks
    → remove_task (add_task tasks t) t.msg_id t.channel ≡ (tasks, true)
unfolding add_task
remove_task-add_task tasks t h = rw (remove_task-first tasks t [] h, append-nil tasks) refl
