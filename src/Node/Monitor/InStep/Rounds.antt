-- ===== src/Node/Monitor/InStep/Rounds.antt =====
-- A whole round of nodeInfoMonitor, and any number of rounds.
use ccaa.Base.{
  ℕ, ℤ, String, nat_eq, string_eq, ◌≡◌, inl, inr, refl, ap, subst, ◌∙◌, List, [], ◌∷◌, Option, none,
  some, Assoc, load-store, arith, Option-cases, Sum-cases, beq_refl,
}
use text.Mathlib.TextEquality.{eq_iff}
use ccaa.Panel.User.{UserInfo}
use ccaa.Panel.Node.{NodeInfo}
use ccaa.Limiter.Users.{new_limiter}
use ccaa.Limiter.Users.Known.{new_limiter-known}
use ccaa.Limiter.Registry.{add_limiter, delete_limiter}
use ccaa.Core.Interface.{Core, Error}
use ccaa.Node.Controller.{Controller, Result, returns, panics, build_node_tag}
use ccaa.Node.Monitor.{
  Answers, or_old, set_alive, renew_limiter, check_users, set_up_node, reload_node,
  node_info_monitor,
}
use ccaa.Node.Monitor.Keeps.{limits, Keeps, set_alive-IsSame, set_up_node-Keeps}
use ccaa.Node.Monitor.Named.{begun}
use ccaa.Node.Monitor.InStep.{
  IsList, InStep, last_user-mentions, InStep-IsSame, change_users-InStep,
}

-- The panel's answers: the list of users, if there is one, is a list of users.
abbrev pub AnswersOk : ℕ → Answers → Type 0
AnswersOk n a = (us : List UserInfo) → a.new_users ≡ inr (some us) → IsList n us

module _ {S X B R : Type 0} (core : Core S R) where
  check_users-InStep :
      (n : ℕ) (users : Option (List UserInfo)) (c : Controller S X B R)
      → ((us : List UserInfo) → users ≡ some us → IsList n us)
      → InStep n c
      → InStep n (check_users core users c)
  unfolding check_users
  check_users-InStep n none c ok s = s
  check_users-InStep n (some []) c ok s = s
  check_users-InStep n (some (u ∷ us)) c ok s =
      change_users-InStep core n (u ∷ us) c (ok (u ∷ us) refl) s

  abbrev pub renewed : NodeInfo → Option (Assoc ℤ ℤ) → Controller S X B R → Controller S X B R
  renewed info alive c =
      let tag = build_node_tag c.config.api_host info in
      let (r, g) =
        add_limiter tag c.config.speed_limit c.user_list (or_old [] alive)
          (delete_limiter tag c.registry) in
      record c { tag = tag; registry = g; limiter = r }

  renew_limiter-renewed :
      (info : NodeInfo) (alive : Option (Assoc ℤ ℤ)) (c : Controller S X B R)
      → c.config.name ≡ ""
      → renew_limiter info alive c ≡ renewed info alive c
  unfolding renew_limiter
  renew_limiter-renewed info alive c e = ground (arith, eq_iff c.config.name "", e)

  -- A limiter that is made for the list is in step.
  pub renewed-InStep :
      (n : ℕ) (info : NodeInfo) (alive : Option (Assoc ℤ ℤ)) (c : Controller S X B R)
      → IsList n c.user_list
      → InStep n (renewed info alive c)
  unfolding add_limiter delete_limiter
  renewed-InStep n info alive c ok =
      let tag = build_node_tag c.config.api_host info in
      let l = new_limiter tag c.config.speed_limit c.user_list (or_old [] alive) in
      let stored = load-store c.registry.next c.registry.next l c.registry.heap in
      let known = new_limiter-known X B tag c.config.speed_limit c.user_list (or_old [] alive) in
      let now : limits (renewed info alive c) ≡ l.user_limit_info =
        ground (arith, stored, beq_refl c.registry.next) in
      record {
        listed = ok;
        found = ground (arith, stored, beq_refl c.registry.next);
        knows = λ v. rw now (ground (arith, known.0 v, last_user-mentions v c.user_list));
      }

  -- A round that returns.
  abbrev pub ReturnsInStep : ℕ → Result (Controller S X B R) → Type 0
  ReturnsInStep n panics = Unit
  ReturnsInStep n (returns d) = InStep n d

  InStep-Keeps :
      (n : ℕ) (c : Controller S X B R) (r : Result (Controller S X B R))
      → InStep n c
      → Keeps c r
      → ReturnsInStep n r
  InStep-Keeps n c panics s k = tt
  InStep-Keeps n c (returns d) s k = InStep-IsSame n c d s k

  reload_node-InStep :
      (n : ℕ) (compile : String → Option X) (cert : Error) (info : NodeInfo)
      (users : Option (List UserInfo)) (alive : Option (Assoc ℤ ℤ)) (c : Controller S X B R)
      → c.config.name ≡ ""
      → IsList n (or_old c.user_list users)
      → ReturnsInStep n (reload_node core compile cert info users alive c)
  unfolding reload_node
  reload_node-InStep n compile cert info users alive c e ok =
      let d = begun core info users c in
      let f = renewed info alive d in
      let g = set_alive alive f in
      elim (Option-cases (core.del_node c.tag c.server).1) [
        | inr (text, p) ↦ rw (p, reload_node) tt
        | inl p ↦
            rw (p, reload_node)
              (rw (renew_limiter-renewed info alive d e) (
                InStep-Keeps n g (set_up_node core compile cert info g)
                  (InStep-IsSame n f g (renewed-InStep n info alive d ok)
                    (set_alive-IsSame alive f))
                  (set_up_node-Keeps core compile cert info g)))
      ]

  check_answers-InStep :
      (n : ℕ) (compile : String → Option X) (cert : Error) (users : Option (List UserInfo))
      (alive : Option (Assoc ℤ ℤ)) (node : Option NodeInfo) (c : Controller S X B R)
      → c.config.name ≡ ""
      → ((us : List UserInfo) → users ≡ some us → IsList n us)
      → InStep n c
      → ReturnsInStep n (elim node [
        | some info ↦ reload_node core compile cert info users alive c
        | none ↦ returns (check_users core users (set_alive alive c))
      ])
  check_answers-InStep n compile cert users alive none c e ok s =
      check_users-InStep n users (set_alive alive c) ok
        (InStep-IsSame n c (set_alive alive c) s (set_alive-IsSame alive c))
  check_answers-InStep n compile cert none alive (some info) c e ok s =
      reload_node-InStep n compile cert info none alive c e s.listed
  check_answers-InStep n compile cert (some us) alive (some info) c e ok s =
      reload_node-InStep n compile cert info (some us) alive c e (ok us refl)

  monitor-ReturnsInStep :
      (n : ℕ) (compile : String → Option X) (cert : Error) (a : Answers) (c : Controller S X B R)
      → c.config.name ≡ ""
      → AnswersOk n a
      → InStep n c
      → ReturnsInStep n (node_info_monitor core compile cert a c)
  unfolding node_info_monitor
  monitor-ReturnsInStep n compile cert a c e ok s = elim (Sum-cases a.new_node) [
    | inl (t, p) ↦ rw (p, node_info_monitor) s
    | inr (node, p) ↦ elim (Sum-cases a.new_users) [
      | inl (t, q) ↦ rw (p, node_info_monitor) (rw q s)
      | inr (users, q) ↦ elim (Sum-cases a.new_alive) [
        | inl (t, r) ↦ rw (p, node_info_monitor) (rw q (rw r s))
        | inr (alive, r) ↦
            rw (p, node_info_monitor)
              (rw q (
                rw r (
                  check_answers-InStep n compile cert users alive node c e
                    (λ us h. ok us (q ∙ ap inr h)) s)))
      ]
    ]
  ]

  -- A round keeps the limiter in step with the users. Where the node has no name in the options,
  -- and the panel's lists have uuids of one length, none of them twice: if the controller's limiter
  -- knows exactly the users of the controller's list before the round, it does so after the round,
  -- whether the node has changed or not and whatever errors the panel and the server give.
  pub node_info_monitor-InStep :
      (n : ℕ) (compile : String → Option X) (cert : Error) (a : Answers) (c d : Controller S X B R)
      → c.config.name ≡ ""
      → AnswersOk n a
      → InStep n c
      → node_info_monitor core compile cert a c ≡ returns d
      → InStep n d
  node_info_monitor-InStep n compile cert a c d e ok s r =
      subst (λ x. ReturnsInStep n x) r (monitor-ReturnsInStep n compile cert a c e ok s)
