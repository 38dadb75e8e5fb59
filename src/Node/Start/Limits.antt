-- ===== src/Node/Start/Limits.antt =====
-- That the limiter is in step with the users once it is made, and after a check of the speeds.
use ccaa.Base.{
  ℕ, ℤ, String, nat_eq, string_eq, int_eq, ◌≡◌, inl, inr, refl, sym, ap, ◌∙◌, List, [], ◌∷◌, Option,
  some, Assoc, load, load-store, ◌==◌, if◌then◌else◌, is_some, arith, Option-cases, Bool-cases,
  beq_refl, delete, leb_ℤ,
}
use text.Mathlib.TextEquality.{eq_iff}
use ccaa.Format.{user_tag}
use ccaa.Panel.User.{UserInfo}
use ccaa.Panel.Node.{NodeInfo}
use ccaa.Limiter.{Limiter}
use ccaa.Limiter.Users.{new_limiter, update_dynamic_speed_limit}
use ccaa.Limiter.Users.Known.{new_limiter-known}
use ccaa.Limiter.Registry.{add_limiter}
use ccaa.Node.Controller.{Controller, build_node_tag, modify_limiter}
use ccaa.Node.Monitor.{or_old}
use ccaa.Node.Monitor.Keeps.{limits}
use ccaa.Node.Monitor.InStep.{IsList, InStep, last_user-mentions}
use ccaa.Node.Start.{make_limiter, expires_at, limit_speeds}

module _ {S X B R : Type 0} where
  pub make_limiter-InStep :
      (n : ℕ) (info : NodeInfo) (us : List UserInfo) (alive : Option (Assoc ℤ ℤ))
      (c : Controller S X B R)
      → IsList n us
      → InStep n (make_limiter info us alive c)
  unfolding make_limiter add_limiter
  make_limiter-InStep n info us alive c listed =
      let tag =
        if c.config.name == "" then build_node_tag c.config.api_host info else c.config.name in
      let l = new_limiter tag c.config.speed_limit us (or_old [] alive) in
      let stored = load-store c.registry.next c.registry.next l c.registry.heap in
      let known = new_limiter-known X B tag c.config.speed_limit us (or_old [] alive) in
      let now : limits (make_limiter info us alive c) ≡ l.user_limit_info =
        ground (arith, stored, beq_refl c.registry.next) in
      record {
        listed = listed;
        found = ground (arith, stored, beq_refl c.registry.next);
        knows = λ v. rw now (ground (arith, known.0 v, last_user-mentions v us));
      }

-- A speed limit for a while makes no user known or unknown.
dynamic-known :
    {X B : Type 0} (tag u k : String) (limit expire : ℤ) (l : Limiter X B)
    → is_some (load k (or_old l (update_dynamic_speed_limit tag u limit expire l)).user_limit_info)
      ≡ is_some (load k l.user_limit_info)
unfolding update_dynamic_speed_limit
dynamic-known tag u k limit expire l =
    elim (Option-cases (load (user_tag tag u) l.user_limit_info)) [
      | inl e ↦ rw (e, update_dynamic_speed_limit) refl
      | inr (info, e) ↦
          let info' = record info { dynamic_speed_limit = limit; expire_time = expire } in
          rw (e, update_dynamic_speed_limit)
            (rw (load-store (user_tag tag u) k info' l.user_limit_info)
              (elim (Bool-cases (user_tag tag u == k)) [
                | inl p ↦
                    let here : load k l.user_limit_info ≡ some info =
                      ap (λ x. load x l.user_limit_info) (sym ((eq_iff (user_tag tag u) k).0 p))
                      ∙ e in
                    rw (p, here) refl
                | inr p ↦ rw p refl
              ]))
    ]

module _ {S X B R : Type 0} where
  -- A change of the limiter that makes no user known or unknown keeps it in step.
  modify_limiter-InStep :
      (n : ℕ) (f : Limiter X B → Limiter X B) (traffic : Assoc String ℤ) (c : Controller S X B R)
      → ((l : Limiter X B) (k : String)
          → is_some (load k (f l).user_limit_info) ≡ is_some (load k l.user_limit_info))
      → InStep n c
      → InStep n (record c { registry = modify_limiter f c.limiter c.registry; traffic = traffic })
  unfolding modify_limiter
  modify_limiter-InStep n f traffic c same s =
      elim (Option-cases (load c.limiter c.registry.heap)) [
        | inl e ↦ absurd (ground (arith, e, s.found))
        | inr (l, e) ↦
            let d : Controller S X B R = record c {
              registry = modify_limiter f c.limiter c.registry;
              traffic = traffic;
            } in
            let stored = load-store c.limiter c.limiter (f l) c.registry.heap in
            let before : limits c ≡ l.user_limit_info = ground (arith, e) in
            let now : limits d ≡ (f l).user_limit_info =
              ground (arith, e, stored, beq_refl c.limiter) in
            record {
              listed = s.listed;
              found = ground (arith, e, stored, beq_refl c.limiter);
              knows = λ v.
                  ap (λ m. is_some (load (user_tag c.tag v) m)) now
                  ∙ (same l (user_tag c.tag v)
                      ∙ (ap (λ m. is_some (load (user_tag c.tag v) m)) (sym before) ∙ s.knows v));
            }
      ]

  pub limit_speeds-InStep :
      (n : ℕ) (now : ℤ) (ts : Assoc String ℤ) (c : Controller S X B R)
      → InStep n c
      → InStep n (limit_speeds now ts c)
  unfolding limit_speeds
  limit_speeds-InStep n now [] c s = s
  limit_speeds-InStep n now ((u, t) ∷ ts) c s =
      elim (Bool-cases (leb_ℤ c.config.dynamic_traffic t)) [
        | inl p ↦ rw p (
            limit_speeds-InStep n now ts
              (record c {
                registry =
                    modify_limiter
                      (λ l. or_old l (
                        update_dynamic_speed_limit c.tag u c.config.dynamic_speed_limit
                          (expires_at now c.config.dynamic_expire_time) l))
                      c.limiter c.registry;
                traffic = delete u c.traffic;
              })
              (modify_limiter-InStep n
                (λ l. or_old l (
                  update_dynamic_speed_limit c.tag u c.config.dynamic_speed_limit
                    (expires_at now c.config.dynamic_expire_time) l))
                (delete u c.traffic) c
                (λ l k.
                  dynamic-known c.tag u k c.config.dynamic_speed_limit
                    (expires_at now c.config.dynamic_expire_time) l)
                s))
        | inr p ↦ rw p (limit_speeds-InStep n now ts c s)
      ]
