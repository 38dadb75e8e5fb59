-- ===== src/Core/Dispatcher/Route/Reaches.antt =====
-- When routedDispatch hands a link to a handler, and what entering a link leaves as it is.
use ccaa.Base.{
  ℕ, String, string_eq, nat_eq, Bool, false, ◌≡◌, inl, inr, ◌↔◌, refl, sym, ap, ◌∙◌, Option, none,
  some, load, load-store, ◌==◌, arith, Bool-cases, Option-cases, beq_refl,
}
use ccaa.Limiter.{Limiter}
use ccaa.Limiter.Registry.{Registry}
use ccaa.Core.Sing.{blocked}
use ccaa.Core.Sing.Decides.{blocked-congr}
use ccaa.Core.Dispatcher.{Dispatcher, Link, can_use_same_tag_outbound}
use ccaa.Core.Dispatcher.Links.{
  SessionInbound, session_user, put_limiter, wrap_link, count_user, manage,
}
use ccaa.Core.Dispatcher.Route.Chosen.{handler_in}
use ccaa.Core.Dispatcher.Route.{
  RoutingContext, Outcome, handed, against_rules, choose_handler, detour, rule_limiter,
  routed_dispatch,
}

pair_some :
    (t : SessionInbound) (x : String) (s : SessionInbound) (email : String)
    → ◌≡◌ {A = Option (SessionInbound × String)} (some (t, x)) (some (s, email))
    → (t ≡ s) × (x ≡ email)
pair_some t x s email q = (cc, cc)

-- A session with a user that has an email is of that session.
pub session_user-some :
    (inbound : Option SessionInbound) (s : SessionInbound) (email : String)
    → session_user inbound ≡ some (s, email)
    → (inbound ≡ some s) × (s.email ≡ some email)
session_user-some none s email e = absurd cc
session_user-some (some t) s email e = elim (Option-cases t.email) [
  | inl n ↦ absurd (ground (arith, e, n))
  | inr (x, n) ↦ elim (Bool-cases (x == "")) [
    | inl p ↦ absurd (ground (arith, e, n, p))
    | inr p ↦
        let k : session_user (some t) ≡ some (t, x) = rw n (rw p refl) in
        let (a, b) = pair_some t x s email (sym k ∙ e) in
        (ap some a, ap SessionInbound.email (sym a) ∙ (n ∙ ap some b))
  ]
]

-- A link is handed to the handler.
abbrev pub Reaches : {H B : Type 0} → H → Outcome H B → Type 0
Reaches {H} {B} h outcome = (text : String) × (link : Link B) × (outcome ≡ handed h text link)

handed-same :
    {H B : Type 0} (h k : H) (text t : String) (link l : Link B)
    → ◌≡◌ {A = Outcome H B} (handed k t l) (handed h text link)
    → k ≡ h
handed-same h k text t link l e = cc

module _ {R B H : Type 0} (match_string : R → String → Bool) (get_handler : String → Option H)
    (default_handler : Option H) (tag : H → String) where
  pub routed_dispatch-Reaches :
      (h : H) (s : SessionInbound) (c : RoutingContext) (destination protocol : String)
      (l : Option ℕ) (link : Link B) (d : Dispatcher R B)
      → let same_tag = can_use_same_tag_outbound c.inbound_tag d in
        Reaches h
          (routed_dispatch match_string get_handler default_handler tag
            (some s)
            c
            destination
            protocol
            l
            link
            d).2
        ↔ ((against_rules match_string destination protocol (rule_limiter s l d) d ≡ false)
            × (handler_in (choose_handler get_handler default_handler same_tag c) ≡ some h))
  unfolding routed_dispatch
  routed_dispatch-Reaches h s c destination protocol l link d =
      let same_tag = can_use_same_tag_outbound c.inbound_tag d in
      elim (Bool-cases (against_rules match_string destination protocol (rule_limiter s l d) d)) [
        | inl p ↦
            rw (p, routed_dispatch) (λ (t, k, q). absurd cc, λ (f, n). absurd (ground (arith, f)))
        | inr p ↦ elim (Option-cases (choose_handler get_handler default_handler same_tag c)) [
          | inl e ↦
              rw (p, routed_dispatch)
                (rw e (λ (t, k, q). absurd cc, λ (f, n). absurd (ground (arith, n))))
          | inr (x, e) ↦
              let text = detour x.0 c.inbound_tag (tag x.1) in
              rw (p, routed_dispatch)
                (rw e (
                  λ (t, k, q). (refl, ap some (handed-same h x.1 t text k link q)),
                  λ (f, n). (text, link, ap (λ k. handed k text link) (ground (arith, n))),
                ))
        ]
      ]

-- To enter leaves the registry and the enabled tags as they are.
pub wrap_link-same :
    {R B : Type 0} (s : SessionInbound) (email : String) (link : Link B) (x : ℕ × Option B)
    (d : Dispatcher R B)
    → let d' = (wrap_link s email link x d).0 in
      (d'.registry ≡ d.registry) × (d'.same_tag_outbound ≡ d.same_tag_outbound)
unfolding wrap_link count_user manage
wrap_link-same s email link (r, b) d = (refl, refl)

pub against_rules-put :
    {R B : Type 0} (match_string : R → String → Bool) (destination protocol : String) (r : ℕ)
    (l l' : Limiter R B) (d d' : Dispatcher R B)
    → (l'.domain_rules ≡ l.domain_rules) × (l'.protocol_rules ≡ l.protocol_rules)
    → d'.registry ≡ (put_limiter r l' d).registry
    → against_rules match_string destination protocol (some r) d'
      ≡ blocked match_string destination protocol l
unfolding against_rules
against_rules-put match_string destination protocol r l l' d d' same e =
    let there : load r d'.registry.heap ≡ some l' =
      ap (λ g. load r (Registry.heap g)) e
      ∙ (load-store r r l' d.registry.heap ∙ ground (arith, beq_refl r)) in
    rw (there, against_rules) (blocked-congr match_string destination protocol l l' same)
