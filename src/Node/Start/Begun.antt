-- ===== src/Node/Start/Begun.antt =====
-- That the limiter is in step with the users from Start on.
use ccaa.Base.{
  ℕ, ℤ, String, nat_eq, string_eq, int_eq, true, ◌≡◌, ◌⊎◌, inl, inr, refl, ap, subst, ◌∙◌, List, [],
  ◌∷◌, Option, none, some, Assoc, ◌==◌, is_some, Option-cases, Bool-cases, Sum-cases, ◌&&◌,
}
use ccaa.Panel.User.{UserInfo}
use ccaa.Panel.Node.{NodeInfo}
use ccaa.Task.{start, new_task}
use ccaa.Core.Interface.{Core, Error}
use ccaa.Node.Controller.{Controller, returns}
use ccaa.Node.Monitor.{Answers, tls, or_old, set_rules, serve_users, node_info_monitor}
use ccaa.Node.Monitor.Keeps.{set_rules-IsSame}
use ccaa.Node.Monitor.InStep.{IsList, InStep, InStep-IsSame}
use ccaa.Node.Monitor.InStep.Rounds.{AnswersOk, node_info_monitor-InStep}
use ccaa.Node.Start.{
  Started, fails, starts, breaks, start_tasks, make_limiter, serve_node, set_up, with_users,
  start_controller, speed_checker,
}
use ccaa.Node.Start.Limits.{make_limiter-InStep, limit_speeds-InStep}

-- What holds of a controller that Start has begun.
abbrev pub HasBegun : {S X B R : Type 0} → ℕ → NodeInfo → Controller S X B R → Type 0
HasBegun n info c =
    InStep n c
    × (c.node_info_monitor_periodic.running ≡ true)
    × (c.user_report_periodic.running ≡ true)
    × (c.info ≡ info)

abbrev BeginsWell : {S X B R : Type 0} → ℕ → NodeInfo → Started (Controller S X B R) → Type 0
BeginsWell n info (fails c) = Unit
BeginsWell n info (starts c) = HasBegun n info c
BeginsWell n info breaks = Unit

answered-IsList :
    (n : ℕ) (users : Option (List UserInfo))
    → ((us : List UserInfo) → users ≡ some us → IsList n us)
    → IsList n (or_old [] users)
answered-IsList n none ok = (tt, tt)
answered-IsList n (some us) ok = ok us refl

module _ {S X B R : Type 0} (core : Core S R) where
  serve_node-BeginsWell :
      (n : ℕ) (info : NodeInfo) (c : Controller S X B R)
      → InStep n c
      → BeginsWell n info (serve_node core info c)
  unfolding serve_node start_tasks start new_task
  serve_node-BeginsWell n info c s =
      let (s', e) = core.add_node c.tag info c.config.options c.server in
      let (d, f) = serve_users core info c.user_list (record c { server = s' }) in
      elim (Option-cases e) [
        | inr (text, p) ↦ rw (p, serve_node) tt
        | inl p ↦ elim (Option-cases f) [
          | inr (text, q) ↦ rw (p, serve_node) (rw q tt)
          | inl q ↦
              rw (p, serve_node)
                (rw q (
                  InStep-IsSame n c (start_tasks info (record d { info = info })) s
                      (refl, refl, refl, refl),
                  refl,
                  refl,
                  refl,
                ))
        ]
      ]

  set_up-BeginsWell :
      (n : ℕ) (compile : String → Option X) (cert : Error) (info : NodeInfo) (us : List UserInfo)
      (alive : Option (Assoc ℤ ℤ)) (c : Controller S X B R)
      → IsList n us
      → BeginsWell n info (set_up core compile cert info us alive c)
  unfolding set_up
  set_up-BeginsWell n compile cert info us alive c listed =
      let m = make_limiter info us alive c in
      let made = make_limiter-InStep n info us alive c listed in
      elim (Option-cases (set_rules compile info m)) [
        | inl p ↦ rw (p, set_up) tt
        | inr (d, p) ↦ elim (Bool-cases (info.security == tls && is_some cert)) [
          | inl q ↦ rw (p, set_up) (rw q tt)
          | inr q ↦
              rw (p, set_up)
                (rw q (
                  serve_node-BeginsWell n info d
                    (InStep-IsSame n m d made (set_rules-IsSame compile info m d p))))
        ]
      ]

  -- Of Start, where the panel's list is one of users.
  abbrev StartsWell : ℕ → Started (Controller S X B R) → Type 0
  StartsWell n (fails c) = Unit
  StartsWell n (starts c) = (info : NodeInfo) × HasBegun n info c
  StartsWell n breaks = Unit

  BeginsWell-StartsWell :
      (n : ℕ) (info : NodeInfo) (r : Started (Controller S X B R))
      → BeginsWell n info r
      → StartsWell n r
  BeginsWell-StartsWell n info (fails c) b = tt
  BeginsWell-StartsWell n info (starts c) b = (info, b)
  BeginsWell-StartsWell n info breaks b = tt

  with_users-StartsWell :
      (n : ℕ) (compile : String → Option X) (cert : Error) (given : Option NodeInfo)
      (us : List UserInfo) (alive : String ⊎ Option (Assoc ℤ ℤ)) (c : Controller S X B R)
      → IsList n us
      → StartsWell n (with_users core compile cert given us alive c)
  with_users-StartsWell n compile cert given [] alive c listed = tt
  with_users-StartsWell n compile cert given (u ∷ us) (inl text) c listed = tt
  with_users-StartsWell n compile cert none (u ∷ us) (inr alive) c listed = tt
  with_users-StartsWell n compile cert (some info) (u ∷ us) (inr alive) c listed =
      BeginsWell-StartsWell n info (set_up core compile cert info (u ∷ us) alive c)
        (set_up-BeginsWell n compile cert info (u ∷ us) alive c listed)

  start-StartsWell :
      (n : ℕ) (compile : String → Option X) (cert : Error) (a : Answers) (c : Controller S X B R)
      → AnswersOk n a
      → StartsWell n (start_controller core compile cert a c)
  unfolding start_controller
  start-StartsWell n compile cert a c ok = elim (Sum-cases a.new_node) [
    | inl (t, p) ↦ rw (p, start_controller) tt
    | inr (given, p) ↦ elim (Sum-cases a.new_users) [
      | inl (t, q) ↦ rw (p, start_controller) (rw q tt)
      | inr (users, q) ↦
          rw (p, start_controller)
            (rw q (
              with_users-StartsWell n compile cert given (or_old [] users) a.new_alive c
                (answered-IsList n users (λ us h. ok us (q ∙ ap inr h)))))
    ]
  ]

  -- What a controller goes through: Start, rounds of the monitor that return, and checks of speeds.
  pub data Life (n : ℕ) (compile : String → Option X) : Controller S X B R → Type 0 where
    begins :
        (cert : Error) (a : Answers) (c d : Controller S X B R)
        → AnswersOk n a
        → start_controller core compile cert a c ≡ starts d
        → Life n compile d
    goes_round :
        (cert : Error) (a : Answers) (c d : Controller S X B R)
        → Life n compile c
        → c.config.name ≡ ""
        → AnswersOk n a
        → node_info_monitor core compile cert a c ≡ returns d
        → Life n compile d
    checks_speed :
        (now : ℤ) (c : Controller S X B R) → Life n compile c → Life n compile (speed_checker now c)

  -- From Start on the limiter is in step with the users. Where the panel's lists have uuids of one
  -- length, none of them twice, and the options give the node no name when the monitor goes round:
  -- after a Start that succeeds, and any rounds of the monitor and checks of the speeds, whatever
  -- errors the panel and the server give, the controller's limiter is there and knows exactly the
  -- users of the controller's list.
  pub Life-InStep :
      (n : ℕ) (compile : String → Option X) (c : Controller S X B R) → Life n compile c → InStep n c
  unfolding speed_checker
  Life-InStep n compile d (begins cert a c _ ok e) =
      (subst (λ x. StartsWell n x) e (start-StartsWell n compile cert a c ok)).1.0
  Life-InStep n compile d (goes_round cert a c _ life e ok r) =
      node_info_monitor-InStep core n compile cert a c d e ok (Life-InStep n compile c life) r
  Life-InStep n compile _ (checks_speed now c life) =
      limit_speeds-InStep n now c.traffic c (Life-InStep n compile c life)
