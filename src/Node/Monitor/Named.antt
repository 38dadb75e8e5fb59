-- ===== src/Node/Monitor/Named.antt =====
-- What a reload does to the limiter of a node that has a name in the options.
use ccaa.Base.{
  ℤ, String, nat_eq, string_eq, int_eq, ◌≡◌, ◌≢◌, inl, inr, subst, List, [], Option, Assoc, arith,
  Option-cases,
}
use text.Mathlib.TextEquality.{eq_iff}
use ccaa.Panel.User.{UserInfo}
use ccaa.Panel.Node.{NodeInfo}
use ccaa.Core.Interface.{Core, Error}
use ccaa.Node.Controller.{Controller, returns}
use ccaa.Node.Monitor.{or_old, set_alive, renew_limiter, set_up_node, reload_node}
use ccaa.Node.Monitor.Keeps.{limits, Keeps, Keeps-trans, set_alive-IsSame, set_up_node-Keeps}

module _ {S X B R : Type 0} (core : Core S R) where
  renew_limiter-named :
      (n : NodeInfo) (alive : Option (Assoc ℤ ℤ)) (c : Controller S X B R)
      → c.config.name ≢ ""
      → renew_limiter n alive c ≡ c
  unfolding renew_limiter
  renew_limiter-named n alive c h = ground (arith, eq_iff c.config.name "")

  -- The controller once the old node is deleted.
  abbrev pub begun : NodeInfo → Option (List UserInfo) → Controller S X B R → Controller S X B R
  begun n users c = record c {
    info = n;
    user_list = or_old c.user_list users;
    traffic = [];
    server = (core.del_node c.tag c.server).0;
  }

  reload_node-Keeps :
      (compile : String → Option X) (cert : Error) (n : NodeInfo) (users : Option (List UserInfo))
      (alive : Option (Assoc ℤ ℤ)) (c : Controller S X B R)
      → c.config.name ≢ ""
      → Keeps (begun n users c) (reload_node core compile cert n users alive c)
  unfolding reload_node
  reload_node-Keeps compile cert n users alive c h =
      let d = begun n users c in
      let f = set_alive alive d in
      elim (Option-cases (core.del_node c.tag c.server).1) [
        | inr (text, e) ↦ rw (e, reload_node) tt
        | inl e ↦
            rw (e, reload_node)
              (rw (renew_limiter-named n alive d h) (
                Keeps-trans d f (set_up_node core compile cert n f) (set_alive-IsSame alive d)
                  (set_up_node-Keeps core compile cert n f)))
      ]

  -- Where the node has a name in the options, a reload that returns keeps the panel's new list of
  -- users, but its limiter goes on knowing exactly the limits that it knew before.
  pub reload_node-named :
      (compile : String → Option X) (cert : Error) (n : NodeInfo) (users : Option (List UserInfo))
      (alive : Option (Assoc ℤ ℤ)) (c d : Controller S X B R)
      → c.config.name ≢ ""
      → reload_node core compile cert n users alive c ≡ returns d
      → (d.user_list ≡ or_old c.user_list users) × (limits d ≡ limits c)
  reload_node-named compile cert n users alive c d h r =
      let (same_users, same_limits, _, _) =
        subst (λ x. Keeps (begun n users c) x) r
          (reload_node-Keeps compile cert n users alive c h) in
      (same_users, same_limits)
