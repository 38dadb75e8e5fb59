-- ===== src/Task/Loops.antt =====
-- What holds of a task's loops over every sequence of steps.
use ccaa.Base.{
  ℕ, ℤ, ◌+◌, ◌<◌, ◌≤◌, Bool, true, false, ◌≡◌, ◌≢◌, ◌⊎◌, inl, inr, refl, List, [], some, nat_eq,
  ◌==◌, arith, nat_beq_iff, Bool-cases, get_elem?, set, All, All-set, All-concat, All-map,
}
use ccaa.Task.{
  Task, Loop, begins, waits, executes, gone, ok, start, close, close_stop, Event, new_task,
  loop_step, after_execute, mark,
}

-- Where a loop may stand: one that waits does so on a channel that has been made.
abbrev pub Placed : ℕ → Loop → Type 0
Placed next (waits ch) = ch < next
Placed next _ = Unit

-- Channels from `next` on are open, those below it other than the present one are closed, and the
-- present one is open exactly while the task runs.
pub record Inv (t : Task) : Type 0 where
  pub made : t.running ≡ true → t.stop < t.next
  pub open_while_running : t.running ≡ true → t.closed t.stop ≡ false
  pub closed_else : t.running ≡ false → 0 < t.next → t.closed t.stop ≡ true
  pub present : 0 < t.next → t.stop < t.next
  pub fresh : (ch : ℕ) → t.next ≤ ch → t.closed ch ≡ false
  pub past : (ch : ℕ) → ch < t.next → ch ≢ t.stop → t.closed ch ≡ true
  pub started : (t.next ≡ 0) → t.loops ≡ []
  pub placed : All (Placed t.next) t.loops

pub new-Inv : (interval : ℤ) → Inv (new_task interval)
unfolding new_task
new-Inv interval = record {
  made = λ h. absurd (ground arith);
  open_while_running = λ h. refl;
  closed_else = λ h k. absurd (omega arith);
  present = λ k. absurd (omega arith);
  fresh = λ ch h. refl;
  past = λ ch h k. absurd (omega arith);
  started = λ h. refl;
  placed = tt;
}

Placed-mono : (m n : ℕ) → m ≤ n → (l : Loop) → Placed m l → Placed n l
Placed-mono m n h (begins first) p = tt
Placed-mono m n h (waits ch) p = omega arith
Placed-mono m n h executes p = tt
Placed-mono m n h gone p = tt

pub start_stopped-Inv : (first : Bool) (t : Task) → Inv t → t.running ≡ false → Inv (start first t)
unfolding start
start_stopped-Inv first t v r = rw r (record {
  made = λ h. omega arith;
  open_while_running = λ h. v.fresh t.next (omega arith);
  closed_else = λ h k. absurd (ground arith);
  present = λ k. omega arith;
  fresh = λ ch h. v.fresh ch (omega arith);
  past = λ ch h k. ground (arith, v.past ch, v.closed_else r, nat_beq_iff ch t.stop);
  started = λ h. absurd (omega arith);
  placed =
      All-concat (Placed (t.next + 1)) t.loops (begins first)
        (All-map (Placed t.next) (Placed (t.next + 1)) t.loops
          (Placed-mono t.next (t.next + 1) (omega arith)) v.placed)
        tt;
})

pub start-running : (first : Bool) (t : Task) → t.running ≡ true → start first t ≡ t
unfolding start
start-running first t r = ground (arith, r)

pub start-Inv : (first : Bool) (t : Task) → Inv t → Inv (start first t)
start-Inv first t v = elim (Bool-cases t.running) [
  | inl r ↦ rw (start-running first t r) v
  | inr r ↦ start_stopped-Inv first t v r
]

-- A running task whose channel is closed.
unfoldable pub stopped : Task → Task
stopped t = record t { running = false; closed = mark t.stop t.closed }

pub stopped-Inv : (t : Task) → Inv t → t.running ≡ true → Inv (stopped t)
unfolding stopped
stopped-Inv t v r = record {
  made = λ h. absurd (ground arith);
  open_while_running = λ h. absurd (ground arith);
  closed_else = λ h k. ground arith;
  present = v.present;
  fresh = λ ch h. ground (arith, v.fresh ch h, v.made r);
  past = λ ch h k. ground (arith, v.past ch h k);
  started = v.started;
  placed = v.placed;
}

pub close-running : (t : Task) → Inv t → t.running ≡ true → close t ≡ ok (stopped t)
unfolding close close_stop stopped
close-running t v r = ground (arith, v.open_while_running r)

pub close-idle : (t : Task) → t.running ≡ false → close t ≡ ok t
unfolding close
close-idle t r = rw r

-- An event of a loop leaves the rest of the task alone, or stops a task that was running.
loop_step-cases :
    (l : Loop) (e : Event) (t u : Task) (l' : Loop)
    → Inv t
    → 0 < t.next
    → loop_step l e t ≡ some (l', ok u)
    → (u ≡ t) ⊎ ((t.running ≡ true) × (u ≡ stopped t))
unfolding loop_step after_execute close_stop stopped
loop_step-cases (begins first) e t u l' v n h = ground (arith, h)
loop_step-cases (waits ch) e t u l' v n h = ground (arith, h)
loop_step-cases executes e t u l' v n h = elim (Bool-cases t.running) [
  | inl r ↦ ground (arith, h)
  | inr r ↦ ground (arith, h, v.closed_else r n)
]
loop_step-cases gone e t u l' v n h = ground (arith, h)

loop_step-Placed :
    (l : Loop) (e : Event) (t u : Task) (l' : Loop)
    → Inv t
    → 0 < t.next
    → loop_step l e t ≡ some (l', ok u)
    → Placed t.next l'
unfolding loop_step after_execute close_stop
loop_step-Placed l e t u (begins first) v n h = tt
loop_step-Placed l e t u (waits ch) v n h = ground (arith, h, v.present n)
loop_step-Placed l e t u executes v n h = tt
loop_step-Placed l e t u gone v n h = tt

record_loops-Inv :
    (t : Task) (ls : List Loop)
    → Inv t
    → 0 < t.next
    → All (Placed t.next) ls
    → Inv (record t { loops = ls })
record_loops-Inv t ls v n a = record {
  made = v.made;
  open_while_running = v.open_while_running;
  closed_else = v.closed_else;
  present = v.present;
  fresh = v.fresh;
  past = v.past;
  started = λ h. absurd (omega arith);
  placed = a;
}

-- A task with a loop has made a channel.
pub has_loop : (t : Task) (i : ℕ) (l : Loop) → Inv t → get_elem? t.loops i ≡ some l → 0 < t.next
has_loop t i l v e = elim (Bool-cases (t.next == 0)) [
  | inl z ↦ absurd (ground (arith, v.started ((nat_beq_iff t.next 0).0 z)))
  | inr z ↦ ground arith
]

pub place-Inv :
    (i : ℕ) (l : Loop) (e : Event) (t u : Task) (l' : Loop)
    → Inv t
    → 0 < t.next
    → loop_step l e t ≡ some (l', ok u)
    → Inv (record u { loops = set u.loops i l' })
place-Inv i l e t u l' v n h = elim (loop_step-cases l e t u l' v n h) [
  | inl p ↦ rw p (
      record_loops-Inv t (set t.loops i l') v n
        (All-set (Placed t.next) t.loops i l' v.placed (loop_step-Placed l e t u l' v n h)))
  | inr (r, p) ↦ rw p (
      record_loops-Inv (stopped t) (set (stopped t).loops i l') (stopped-Inv t v r)
        (unfold stopped in n)
        (unfold stopped in
          All-set (Placed t.next) t.loops i l' v.placed (loop_step-Placed l e t u l' v n h)))
]
