-- ===== src/Task/Tests.antt =====
-- A task that begins with a run of `Execute`, step by step.
use ccaa.Base.{ℕ, pos, Bool, true, false, ◌≡◌, ◌↔◌, refl, [], ◌∷◌, some, get_elem?, nat_eq}
use ccaa.Task.{
  Task, Loop, begins, waits, executes, gone, ok, panics, start, close, close_stop, mark, starts,
  closes, loop, enters, sees_stop, returns, step, loop_step, after_execute, new_task,
}
use ccaa.Task.Life.{
  Reach, here, next, Restarted, Reach-stops, Reach-failing_panics, restart_doubles,
}

abbrev at : Bool → (ℕ → Bool) → Loop → Task
at running closed l = record {
  interval = pos 60;
  running = running;
  stop = 0;
  closed = closed;
  next = 1;
  loops = l ∷ [];
}

abbrev all_open : ℕ → Bool
all_open _ = false

abbrev executing : Task
executing = at true all_open executes

executing-Reach : Reach (new_task (pos 60)) executing
unfolding step start loop_step new_task
executing-Reach =
    next (next {w = at true all_open (begins true)} here (starts true) refl) (loop 0 enters) refl

abbrev closed_waiting : Task
closed_waiting = at false (mark 0 all_open) (waits 0)

closed_waiting-Reach : Reach (new_task (pos 60)) closed_waiting
unfolding step close close_stop loop_step after_execute
closed_waiting-Reach =
    next (next {w = at true all_open (waits 0)} executing-Reach (loop 0 (returns false)) refl)
      closes refl

Reach-stops_example :
    step (loop 0 sees_stop) closed_waiting ≡ some (ok (at false (mark 0 all_open) gone))
Reach-stops_example = Reach-stops (pos 60) closed_waiting 0 0 closed_waiting-Reach refl refl

Reach-failing_panics_example :
    (step (loop 0 (returns true)) executing ≡ some panics) ↔ (executing.running ≡ false)
Reach-failing_panics_example = Reach-failing_panics (pos 60) executing 0 executing-Reach refl

restart_doubles_example :
    (u : Task) × (ch : ℕ) × Restarted 0 executing u
    × (get_elem? u.loops 0 ≡ some (waits ch))
    × (get_elem? u.loops 1 ≡ some (waits ch))
    × (u.closed ch ≡ false)
restart_doubles_example = restart_doubles (pos 60) executing 0 executing-Reach refl refl
