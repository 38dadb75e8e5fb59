-- ===== src/Node/Monitor/Keeps.antt =====
-- What every step of a reload but the renewal of the limiter leaves as it is: the users and the
-- limits that the controller knows, and its tag.
use ccaa.Base.{
  ℤ, Bool, String, nat_eq, string_eq, int_eq, ◌≡◌, inl, inr, refl, ◌∙◌, [], Option, none, some,
  Assoc, load, store, load-store, ◌==◌, arith, ◌&&◌, Option-cases, beq_refl, Bool-cases, is_some,
}
use ccaa.Panel.Node.{NodeInfo}
use ccaa.Limiter.{Limiter, UserLimitInfo}
use ccaa.Limiter.Rules.{Rules, update_rule, compile_all}
use ccaa.Core.Interface.{Core, Error}
use ccaa.Node.Controller.{Controller, Result, returns, panics, modify_limiter, restart}
use ccaa.Node.Monitor.{
  tls, set_alive, set_rules, set_pull, set_push, set_intervals, serve_users, add_new_node,
  set_up_node,
}

-- The limits that the controller's limiter knows.
abbrev pub limits : {S X B R : Type 0} → Controller S X B R → Assoc String UserLimitInfo
limits c = elim (load c.limiter c.registry.heap) [ none ↦ [] | some l ↦ l.user_limit_info ]

update_rule-limits :
    {X B : Type 0} (compile : String → Option X) (rule : Rules) (l m : Limiter X B)
    → update_rule compile rule l ≡ some m
    → m.user_limit_info ≡ l.user_limit_info
unfolding update_rule
update_rule-limits compile rule l m h = elim (Option-cases (compile_all compile rule.regexp)) [
  | inl e ↦ absurd (ground (arith, e, h))
  | inr (rs, e) ↦ ground (arith, e, h)
]

module _ {S X B R : Type 0} where
  abbrev pub has_limiter : Controller S X B R → Bool
  has_limiter c = is_some (load c.limiter c.registry.heap)

  abbrev pub IsSame : Controller S X B R → Controller S X B R → Type 0
  IsSame c d =
      (d.user_list ≡ c.user_list)
      × (limits d ≡ limits c)
      × (d.tag ≡ c.tag)
      × (has_limiter d ≡ has_limiter c)

  -- Where the body returns.
  abbrev pub Keeps : Controller S X B R → Result (Controller S X B R) → Type 0
  Keeps c panics = Unit
  Keeps c (returns d) = IsSame c d

  pub Keeps-trans :
      (c d : Controller S X B R) (r : Result (Controller S X B R))
      → IsSame c d
      → Keeps d r
      → Keeps c r
  Keeps-trans c d panics s k = tt
  Keeps-trans c d (returns e) (p, q, t, l) (p', q', t', l') = (p' ∙ p, q' ∙ q, t' ∙ t, l' ∙ l)

  pub set_alive-IsSame :
      (alive : Option (Assoc ℤ ℤ)) (c : Controller S X B R) → IsSame c (set_alive alive c)
  unfolding modify_limiter
  set_alive-IsSame none c = (refl, refl, refl, refl)
  set_alive-IsSame (some alive) c = elim (Option-cases (load c.limiter c.registry.heap)) [
    | inl e ↦ (refl, ground (arith, e), refl, ground (arith, e))
    | inr (l, e) ↦
        let put =
          load-store c.limiter c.limiter (record l { alive_list = alive }) c.registry.heap in
        (
          refl,
          ground (arith, e, put, beq_refl c.limiter),
          refl,
          ground (arith, e, put, beq_refl c.limiter),
        )
  ]

  pub set_rules-IsSame :
      (compile : String → Option X) (n : NodeInfo) (c d : Controller S X B R)
      → set_rules compile n c ≡ some d
      → IsSame c d
  unfolding set_rules
  set_rules-IsSame compile n c d h = elim (Option-cases (load c.limiter c.registry.heap)) [
    | inl e ↦
        let same : some c ≡ some d = ground (arith, e, h) in
        (ground (arith, same), ground (arith, same), ground (arith, same), ground (arith, same))
    | inr (l, e) ↦ elim (Option-cases (update_rule compile n.rules l)) [
      | inl f ↦ absurd (ground (arith, e, f, h))
      | inr (m, f) ↦
          let put = record c {
            registry = record c.registry { heap = store c.limiter m c.registry.heap };
          } in
          let same : some put ≡ some d = ground (arith, e, f, h) in
          let stored = load-store c.limiter c.limiter m c.registry.heap in
          (
            ground (arith, same),
            ground (
              arith,
              same,
              e,
              update_rule-limits compile n.rules l m f,
              stored,
              beq_refl c.limiter,
            ),
            ground (arith, same),
            ground (arith, same, e, stored, beq_refl c.limiter),
          )
    ]
  ]

  set_pull-IsSame : (n : NodeInfo) (c d : Controller S X B R) → set_pull n c ≡ some d → IsSame c d
  unfolding set_pull
  set_pull-IsSame n c d h =
      elim (Option-cases (restart n.pull_interval c.node_info_monitor_periodic)) [
        | inl e ↦
            (ground (arith, e, h), ground (arith, e, h), ground (arith, e, h), ground (arith, e, h))
        | inr (t, e) ↦
            (ground (arith, e, h), ground (arith, e, h), ground (arith, e, h), ground (arith, e, h))
      ]

  set_push-IsSame : (n : NodeInfo) (c d : Controller S X B R) → set_push n c ≡ some d → IsSame c d
  unfolding set_push
  set_push-IsSame n c d h = elim (Option-cases (restart n.pull_interval c.user_report_periodic)) [
    | inl e ↦
        (ground (arith, e, h), ground (arith, e, h), ground (arith, e, h), ground (arith, e, h))
    | inr (t, e) ↦
        (ground (arith, e, h), ground (arith, e, h), ground (arith, e, h), ground (arith, e, h))
  ]

  set_intervals-Keeps : (n : NodeInfo) (c : Controller S X B R) → Keeps c (set_intervals n c)
  unfolding set_intervals
  set_intervals-Keeps n c = elim (Option-cases (set_pull n c)) [
    | inl e ↦ rw (e, set_intervals) tt
    | inr (d, e) ↦ elim (Option-cases (set_push n d)) [
      | inl f ↦ rw (e, set_intervals) (rw f tt)
      | inr (g, f) ↦
          rw (e, set_intervals)
            (rw f (Keeps-trans c d (returns g) (set_pull-IsSame n c d e) (set_push-IsSame n d g f)))
    ]
  ]

module _ {S X B R : Type 0} (core : Core S R) where
  add_new_node-Keeps : (n : NodeInfo) (c : Controller S X B R) → Keeps c (add_new_node core n c)
  unfolding add_new_node
  add_new_node-Keeps n c =
      let (s, e) = core.add_node c.tag n c.config.options c.server in
      let (d, f) = serve_users core n c.user_list (record c { server = s }) in
      elim (Option-cases e) [
        | inr (text, p) ↦ rw (p, add_new_node) tt
        | inl p ↦ elim (Option-cases f) [
          | inr (text, q) ↦ rw (p, add_new_node) (rw q (refl, refl, refl, refl))
          | inl q ↦
              rw (p, add_new_node)
                (rw q (
                  Keeps-trans c d (set_intervals n d) (refl, refl, refl, refl)
                    (set_intervals-Keeps n d)))
        ]
      ]

  pub set_up_node-Keeps :
      (compile : String → Option X) (cert : Error) (n : NodeInfo) (c : Controller S X B R)
      → Keeps c (set_up_node core compile cert n c)
  unfolding set_up_node
  set_up_node-Keeps compile cert n c = elim (Option-cases (set_rules compile n c)) [
    | inl e ↦ rw (e, set_up_node) tt
    | inr (d, e) ↦
        let same = set_rules-IsSame compile n c d e in
        elim (Bool-cases (n.security == tls && is_some cert)) [
          | inl p ↦ rw (e, set_up_node) (rw p same)
          | inr p ↦
              rw (e, set_up_node)
                (rw p (Keeps-trans c d (add_new_node core n d) same (add_new_node-Keeps n d)))
        ]
  ]
