-- ===== src/Node/Monitor/InStep.antt =====
-- That the limiter stays in step with the list of users, over a round of the monitor.
pub mod Rounds
use ccaa.Base.{
  ℕ, ℤ, String, nat_eq, string_eq, Bool, true, false, ◌&&◌, ◌≡◌, ◌≢◌, ◌⊎◌, inl, inr, refl, sym, ap,
  subst, ◌∙◌, List, [], ◌∷◌, Option, none, some, Assoc, load, store, load-store, ◌==◌,
  if◌then◌else◌, is_some, arith, Option-cases, Bool-cases, beq_refl, All,
}
use text.Mathlib.TextEquality.{eq_iff}
use ccaa.Format.{user_tag}
use ccaa.Panel.User.{UserInfo}
use ccaa.Panel.Node.{NodeInfo}
use ccaa.Limiter.{Limiter, UserLimitInfo}
use ccaa.Limiter.Users.{update_user, new_limiter, user_limit_of}
use ccaa.Limiter.Users.Known.{mentions, last_user, override, update_user-known, new_limiter-known}
use ccaa.Limiter.Registry.{add_limiter, delete_limiter}
use ccaa.Core.Interface.{Core, Error}
use ccaa.Node.Users.{compare_user_list}
use ccaa.Node.Users.Matched.{OfLength, Distinct}
use ccaa.Node.Users.Members.{compare_user_list-mentions}
use ccaa.Node.Controller.{Controller, Result, returns, panics, modify_limiter, build_node_tag}
use ccaa.Node.Monitor.{
  Answers, or_old, is_nil, set_alive, renew_limiter, drop_users, take_users, after_drop, after_take,
  limit_users, change_users, check_users, set_up_node, reload_node, node_info_monitor,
}
use ccaa.Node.Monitor.Unchanged.{
  told, IsServed, drop_users-IsServed, take_users-IsServed, change_users-whole,
}
use ccaa.Node.Monitor.Keeps.{
  limits, has_limiter, IsSame, Keeps, Keeps-trans, set_alive-IsSame, set_up_node-Keeps,
}
use ccaa.Node.Monitor.Named.{begun}

-- A list of the panel: all uuids have the length n, and none is there twice.
abbrev pub IsList : ℕ → List UserInfo → Type 0
IsList n us = OfLength n us × Distinct us

-- The controller's limiter is there, and knows exactly the users of the controller's list.
pub record InStep {S X B R : Type 0} (n : ℕ) (c : Controller S X B R) : Type 0 where
  pub listed : IsList n c.user_list
  pub found : has_limiter c ≡ true
  pub knows : (v : String) → is_some (load (user_tag c.tag v) (limits c)) ≡ mentions v c.user_list

pub last_user-mentions :
    (v : String) (us : List UserInfo) → is_some (last_user v us) ≡ mentions v us
last_user-mentions v [] = refl
last_user-mentions v (u ∷ us) = ground (arith, last_user-mentions v us)

no_users-mentions :
    (v : String) (deleted added : List UserInfo)
    → (is_nil added && is_nil deleted) ≡ true
    → (mentions v added ≡ false) × (mentions v deleted ≡ false)
no_users-mentions v [] [] h = (refl, refl)
no_users-mentions v [] (u ∷ added) h = absurd (ground (arith, h))
no_users-mentions v (u ∷ deleted) [] h = absurd (ground (arith, h))
no_users-mentions v (u ∷ deleted) (w ∷ added) h = absurd (ground (arith, h))

module _ {S X B R : Type 0} where
  pub InStep-IsSame : (n : ℕ) (c d : Controller S X B R) → InStep n c → IsSame c d → InStep n d
  InStep-IsSame n c d s (p, q, t, l) = record {
    listed = subst (λ us. IsList n us) (sym p) s.listed;
    found = l ∙ s.found;
    knows = λ v. rw (p, q, t) (s.knows v);
  }

  -- Whom the limiter knows after it is told of the deleted and the added users.
  modify_limiter-knows :
      (v : String) (deleted added : List UserInfo) (c d : Controller S X B R)
      → has_limiter c ≡ true
      → d.registry ≡ modify_limiter (update_user c.tag added deleted) c.limiter c.registry
      → d.limiter ≡ c.limiter
      → (has_limiter d ≡ true)
        × (is_some (load (user_tag c.tag v) (limits d)) ≡ (
            if mentions v added
            then true
            else if mentions v deleted
            then false
            else is_some (load (user_tag c.tag v) (limits c))))
  unfolding modify_limiter
  modify_limiter-knows v deleted added c d f g l =
      elim (Option-cases (load c.limiter c.registry.heap)) [
        | inl e ↦ absurd (ground (arith, e, f))
        | inr (m, e) ↦
            let m' = update_user c.tag added deleted m in
            let stored = load-store c.limiter c.limiter m' c.registry.heap in
            let known = update_user-known c.tag v added deleted m in
            let before : limits c ≡ m.user_limit_info = ground (arith, e) in
            let now : limits d ≡ m'.user_limit_info =
              ground (arith, e, g, l, stored, beq_refl c.limiter) in
            (
              ground (arith, e, g, l, stored, beq_refl c.limiter),
              rw (now, before) (ground (arith, known, last_user-mentions v added)),
            )
      ]

module _ {S X B R : Type 0} (core : Core S R) where
  after_take-frame :
      (deleted added us : List UserInfo) (r : Controller S X B R × Error)
      → let d = after_take core deleted added us r in (d.tag ≡ r.0.tag) × (d.limiter ≡ r.0.limiter)
  unfolding limit_users
  after_take-frame deleted added us (d, none) = (ground arith, ground arith)
  after_take-frame deleted added us (d, some text) = (refl, refl)

  after_drop-frame :
      (deleted added us : List UserInfo) (c : Controller S X B R) (r : Controller S X B R × Error)
      → IsServed core c r.0
      → let d = after_drop core deleted added us r in (d.tag ≡ c.tag) × (d.limiter ≡ c.limiter)
  after_drop-frame deleted added us c (d, some text) (p, q, t, l) = (t, l)
  after_drop-frame deleted added us c (d, none) (p, q, t, l) =
      let (p', q', t', l') = take_users-IsServed core added d in
      let (t'', l'') = after_take-frame deleted added us (take_users core added d) in
      (t'' ∙ t' ∙ t, l'' ∙ l' ∙ l)

  change_users-frame :
      (us : List UserInfo) (c : Controller S X B R)
      → let d = change_users core us c in (d.tag ≡ c.tag) × (d.limiter ≡ c.limiter)
  unfolding change_users
  change_users-frame us c =
      let (deleted, added) = compare_user_list c.user_list us in
      after_drop-frame deleted added us c (drop_users core deleted c)
        (drop_users-IsServed core deleted c)

  pub change_users-InStep :
      (n : ℕ) (us : List UserInfo) (c : Controller S X B R)
      → IsList n us
      → InStep n c
      → InStep n (change_users core us c)
  change_users-InStep n us c ok s =
      let d = change_users core us c in
      let (deleted, added) = compare_user_list c.user_list us in
      let (t, l) = change_users-frame us c in
      let same_list =
        λ (v : String). compare_user_list-mentions n c.user_list us s.listed.0 ok.0 s.listed.1 v in
      elim (change_users-whole core us c) [
        | inr failed ↦
            let old : (d.user_list ≡ c.user_list) × (d.registry ≡ c.registry) = elim failed [
              | inl (e, f, o) ↦ o
              | inr (e, f, g, o) ↦ o
            ] in
            let (p, q) = old in
            InStep-IsSame n c d s (p, ground (arith, q, l), t, ground (arith, q, l))
        | inl (e, f, server, (p, q)) ↦ elim (Bool-cases (is_nil added && is_nil deleted)) [
          | inl nobody ↦
              let same : limits d ≡ limits c = ground (arith, q, l, nobody) in
              record {
                listed = subst (λ x. IsList n x) (sym p) ok;
                found = ground (arith, q, l, nobody, s.found);
                knows = λ v.
                    rw (t, same, p)
                      (s.knows v
                        ∙ ground (arith, same_list v, no_users-mentions v deleted added nobody));
              }
          | inr somebody ↦
              let registry : d.registry
                  ≡ modify_limiter (update_user c.tag added deleted) c.limiter c.registry =
                q ∙ ground (arith, somebody) in
              let after =
                λ (v : String). modify_limiter-knows v deleted added c d s.found registry l in
              record {
                listed = subst (λ x. IsList n x) (sym p) ok;
                found = (after "").0;
                knows = λ v. rw (t, p) ((after v).1 ∙ ground (arith, s.knows v) ∙ same_list v);
              }
        ]
      ]
