-- ===== src/Task/Life.antt =====
-- A task over any sequence of calls and events of its loops: what always holds, and two ways in
-- which calls that come in during `Execute` go wrong.
use ccaa.Base.{
  ℕ, ℤ, ◌<◌, true, false, ◌≡◌, inl, inr, refl, [], ◌∷◌, ◌++◌, some, arith, Option-cases, Bool-cases,
  get_elem?, set, length, All-get, get_elem?-set_self, get_elem?-concat, get_elem?-last,
  get_elem?-set_ne, get_elem?-ne_length, nat_eq, ◌==◌, ◌∙◌, ap, sym, ◌↔◌, nat_beq_iff,
}
use ccaa.Task.{
  Task, Loop, begins, waits, executes, gone, Outcome, ok, panics, start, close, close_stop, Event,
  enters, sees_stop, returns, Action, starts, closes, loop, step, new_task, loop_step,
  after_execute, place,
}
use ccaa.Task.Loops.{
  Inv, Placed, new-Inv, start-Inv, stopped, stopped-Inv, close-running, close-idle, has_loop,
  place-Inv,
}

-- Steps that do not panic, from a new task on.
pub data Reach (t : Task) : Task → Type 0 where
  here : Reach t t
  next : {u w : Task} → Reach t u → (a : Action) → step a u ≡ some (ok w) → Reach t w

place-ok :
    (i : ℕ) (l : Loop) (o : Outcome) (u : Task)
    → place i l o ≡ ok u
    → (w : Task) × (o ≡ ok w) × (u ≡ record w { loops = set w.loops i l })
place-ok i l (ok w) u e = (w, refl, ground (arith, e))
place-ok i l panics u e = absurd (ground (arith, e))

-- What an event of a loop that does not panic takes.
loop_inversion :
    (i : ℕ) (ev : Event) (t u : Task)
    → step (loop i ev) t ≡ some (ok u)
    → (l l' : Loop) × (w : Task) × (get_elem? t.loops i ≡ some l)
      × (loop_step l ev t ≡ some (l', ok w))
      × (u ≡ record w { loops = set w.loops i l' })
unfolding step
loop_inversion i ev t u e = elim (Option-cases (get_elem? t.loops i)) [
  | inl a ↦ absurd (ground (arith, e, a))
  | inr (l, a) ↦ elim (Option-cases (loop_step l ev t)) [
    | inl b ↦ absurd (ground (arith, e, a, b))
    | inr ((l', o), b) ↦
        let (w, p, q) = place-ok i l' o u (ground (arith, e, a, b)) in
        (l, l', w, a, b ∙ ap (λ x. some (l', x)) p, q)
  ]
]

-- `Execute` of loop `i` closes and starts the task and returns; then the new loop begins.
abbrev pub Restarted : ℕ → Task → Task → Type 0
Restarted i t u =
    (a b c : Task) × (step closes t ≡ some (ok a))
    × (step (starts false) a ≡ some (ok b))
    × (step (loop i (returns false)) b ≡ some (ok c))
    × (step (loop (length t.loops) enters) c ≡ some (ok u))

step-Inv : (a : Action) (t u : Task) → Inv t → step a t ≡ some (ok u) → Inv u
unfolding step
step-Inv (starts first) t u v e =
    let same : u ≡ start first t = ground (arith, e) in rw same (start-Inv first t v)
step-Inv closes t u v e = elim (Bool-cases t.running) [
  | inl r ↦
      let same : u ≡ stopped t = ground (arith, e, close-running t v r) in
      rw same (stopped-Inv t v r)
  | inr r ↦ let same : u ≡ t = ground (arith, e, close-idle t r) in rw same v
]
step-Inv (loop i ev) t u v e =
    let (l, l', w, a, b, q) = loop_inversion i ev t u e in
    rw q (place-Inv i l ev t w l' v (has_loop t i l v a) b)

Reach-Inv : (interval : ℤ) (t : Task) → Reach (new_task interval) t → Inv t
Reach-Inv interval t here = new-Inv interval
Reach-Inv interval t (next {u} r a e) = step-Inv a u t (Reach-Inv interval u r) e

-- In every task that steps lead to and that does not run, each loop that waits may take the stop
-- and is gone then: none waits on a channel that stays open.
pub Reach-stops :
    (interval : ℤ) (t : Task) (i ch : ℕ)
    → Reach (new_task interval) t
    → t.running ≡ false
    → get_elem? t.loops i ≡ some (waits ch)
    → step (loop i sees_stop) t ≡ some (ok (record t { loops = set t.loops i gone }))
unfolding step loop_step
Reach-stops interval t i ch r stop e =
    let v = Reach-Inv interval t r in
    let n = has_loop t i (waits ch) v e in
    let below : ch < t.next = All-get (Placed t.next) t.loops i v.placed e in
    elim (Bool-cases (ch == t.stop)) [
      | inl same ↦ ground (arith, e, v.closed_else stop n, nat_beq_iff ch t.stop)
      | inr other ↦ ground (arith, e, v.past ch below, nat_beq_iff ch t.stop)
    ]

-- Close never panics in a task that steps lead to, and the task does not run afterwards.
Reach-close :
    (interval : ℤ) (t : Task)
    → Reach (new_task interval) t
    → (u : Task) × (close t ≡ ok u) × (u.running ≡ false)
Reach-close interval t r =
    let v = Reach-Inv interval t r in
    elim (Bool-cases t.running) [
      | inl run ↦ (stopped t, close-running t v run, unfold stopped in refl)
      | inr idle ↦ (t, close-idle t idle, idle)
    ]

-- In every task that steps lead to, when Execute fails, the loop panics exactly if the task does not
-- run at that moment, that is if it was closed and not started again: the loop closes the channel a
-- second time.
pub Reach-failing_panics :
    (interval : ℤ) (t : Task) (i : ℕ)
    → Reach (new_task interval) t
    → get_elem? t.loops i ≡ some executes
    → (step (loop i (returns true)) t ≡ some panics) ↔ (t.running ≡ false)
unfolding step loop_step after_execute close_stop
Reach-failing_panics interval t i r e =
    let v = Reach-Inv interval t r in
    let n = has_loop t i executes v e in
    (
      λ p. elim (Bool-cases t.running) [
        | inl run ↦ absurd (ground (arith, e, p, run, v.open_while_running run))
        | inr idle ↦ idle
      ],
      λ idle. ground (arith, e, idle, v.closed_else idle n),
    )

-- A running task that steps lead to, and that is closed and started again by its own Execute, ends
-- up with two loops that wait on the same open channel: the old loop reads the new channel.
pub restart_doubles :
    (interval : ℤ) (t : Task) (i : ℕ)
    → Reach (new_task interval) t
    → t.running ≡ true
    → get_elem? t.loops i ≡ some executes
    → (u : Task) × (ch : ℕ) × Restarted i t u
      × (get_elem? u.loops i ≡ some (waits ch))
      × (get_elem? u.loops (length t.loops) ≡ some (waits ch))
      × (u.closed ch ≡ false)
restart_doubles interval t i r run e =
    let v = Reach-Inv interval t r in
    let a = stopped t in
    let b = start false a in
    let c = record b { loops = set b.loops i (waits b.stop) } in
    let u = record c { loops = set c.loops (length t.loops) (waits c.stop) } in
    let apart = get_elem?-ne_length t.loops i e in
    let at_b : get_elem? (t.loops ++ (begins false ∷ [])) i ≡ some executes =
      get_elem?-concat t.loops i (begins false) e in
    let at_c : get_elem? (set (t.loops ++ (begins false ∷ [])) i (waits t.next)) (length t.loops)
        ≡ some (begins false) =
      get_elem?-set_ne (t.loops ++ (begins false ∷ [])) i (length t.loops) (waits t.next) apart
      ∙ get_elem?-last t.loops (begins false) in
    (
      u,
      t.next,
      (
        a,
        b,
        c,
        unfold step in ground (arith, close-running t v run),
        unfold step in refl,
        unfold step loop_step after_execute start stopped in ground (arith, at_b),
        unfold step loop_step start stopped in ground (arith, at_c),
      ),
      unfold start stopped in
          get_elem?-set_ne (set (t.loops ++ (begins false ∷ [])) i (waits t.next)) (length t.loops)
            i (waits t.next) (λ p. apart (sym p))
          ∙ get_elem?-set_self (t.loops ++ (begins false ∷ [])) i (waits t.next) at_b,
      unfold start stopped in
          get_elem?-set_self (set (t.loops ++ (begins false ∷ [])) i (waits t.next))
            (length t.loops) (waits t.next) at_c,
      unfold start stopped in
          ground (arith, v.made run, v.fresh t.next (omega arith), nat_beq_iff t.stop t.next),
    )
