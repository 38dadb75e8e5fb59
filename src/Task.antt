-- ===== src/Task.antt =====
-- common/task/task.go: a periodic task. The loops that `Start` spawns are part of the state; each
-- step of a loop is between two points where other calls may come in. Channels are numbered.
pub mod Loops
pub mod Life
mod Tests
use ccaa.Base.{
  ℕ, ◌+◌, ℤ, Bool, true, false, not, List, [], ◌∷◌, ◌++◌, Option, none, some, nat_eq, ◌==◌,
  if◌then◌else◌, get_elem?, set,
}

-- Where a loop stands: about to begin, waiting in `select` on the channel that it read there, or in
-- `Execute`; or gone.
pub data Loop : Type 0 where
  begins : Bool → Loop
  waits : ℕ → Loop
  executes : Loop
  gone : Loop

-- `next` is the first channel that is not made yet. Before the first `Start` there is no channel.
pub record Task : Type 0 where
  pub interval : ℤ
  pub running : Bool
  pub stop : ℕ
  pub closed : ℕ → Bool
  pub next : ℕ
  pub loops : List Loop

-- Go panics when a closed channel is closed.
pub data Outcome : Type 0 where
  ok : Task → Outcome
  panics : Outcome

abbrev pub mark : ℕ → (ℕ → Bool) → ℕ → Bool
mark ch closed q = if ch == q then true else closed q

-- `close(t.stop)`
unfoldable pub close_stop : Task → Outcome
close_stop t = if t.closed t.stop then panics else ok (record t { closed = mark t.stop t.closed })

unfoldable pub start : Bool → Task → Task
start first t = if t.running then t else record t {
  running = true;
  stop = t.next;
  next = t.next + 1;
  loops = t.loops ++ (begins first ∷ []);
}

unfoldable pub close : Task → Outcome
close t = if t.running then close_stop (record t { running = false }) else ok t

-- What may come next for a loop. `returns failed` is the end of `Execute`.
pub data Event : Type 0 where
  enters : Event
  ticks : Event
  sees_stop : Event
  returns : Bool → Event

-- The end of `Execute`: an error stops the task, else the loop waits on the present channel.
unfoldable pub after_execute : Bool → Task → Option (Loop × Outcome)
after_execute failed t =
    if failed
    then some (gone, close_stop (record t { running = false }))
    else some (waits t.stop, ok t)

-- One event of one loop: where the loop stands then, and the task; `none` if it cannot happen.
unfoldable pub loop_step : Loop → Event → Task → Option (Loop × Outcome)
loop_step (begins first) enters t =
    if first then some (executes, ok t) else some (waits t.stop, ok t)
loop_step (waits ch) ticks t = some (executes, ok t)
loop_step (waits ch) sees_stop t = if t.closed ch then some (gone, ok t) else none
loop_step executes (returns failed) t = after_execute failed t
loop_step _ _ t = none

abbrev pub place : ℕ → Loop → Outcome → Outcome
place i l (ok t) = ok (record t { loops = set t.loops i l })
place i l panics = panics

pub data Action : Type 0 where
  starts : Bool → Action
  closes : Action
  loop : ℕ → Event → Action

unfoldable pub step : Action → Task → Option Outcome
step (starts first) t = some (ok (start first t))
step closes t = some (close t)
step (loop i e) t = elim (get_elem? t.loops i) [
  | none ↦ none
  | some l ↦ elim (loop_step l e t) [ none ↦ none | some (l', o) ↦ some (place i l' o) ]
]

-- `&task.Task{Interval: …, Execute: …}`
unfoldable pub new_task : ℤ → Task
new_task interval = record {
  interval = interval;
  running = false;
  stop = 0;
  closed = λ _. false;
  next = 0;
  loops = [];
}
