-- ===== src/Core/Dispatcher/Route/Safe.antt =====
-- Which links reach a handler.
use ccaa.Base.{
  ℕ, ℤ, String, string_eq, nat_eq, Bool, true, false, ◌≡◌, inl, inr, ◌↔◌, refl, sym, ap, ◌∙◌, [],
  Option, some, load, ◌==◌, if◌then◌else◌, arith, Bool-cases,
}
use ccaa.Limiter.{Limiter}
use ccaa.Limiter.Registry.{get_limiter}
use ccaa.Limiter.Check.{check_limit}
use ccaa.Limiter.Check.Reject.{MustReject}
use ccaa.Core.Sing.{blocked}
use ccaa.Core.Sing.Decides.{check_limit-rules}
use ccaa.Core.Dispatcher.{Dispatcher, Link, or_false, can_use_same_tag_outbound}
use ccaa.Core.Dispatcher.Links.{SessionInbound, session_user, put_limiter, wrap_link}
use ccaa.Core.Dispatcher.Links.Admitted.{rejects, bucket, rejects-MustReject}
use ccaa.Core.Dispatcher.Links.Entered.{enter_link-admitted, enter_link-rejected}
use ccaa.Core.Dispatcher.Route.{
  Outcome, fails, against_rules, choose_handler, rule_limiter, Request, routed_protocol,
  sniffed_reader, routing_context, target_of, routed_dispatch, sniff_and_route, after_enter,
  dispatch_link,
}
use ccaa.Core.Dispatcher.Route.Chosen.{
  IsEnabled, can_use_same_tag_outbound-IsEnabled, Chosen, handler_in, choose_handler-Chosen,
}
use ccaa.Core.Dispatcher.Route.Reaches.{
  session_user-some, Reaches, routed_dispatch-Reaches, wrap_link-same, against_rules-put,
}

module _ {R B H : Type 0} (match_string : R → String → Bool) (get_handler : String → Option H)
    (default_handler : Option H) (tag : H → String) (to_lower : String → String)
    (compile : String → Option R) (parse_address : String → String) (new_bucket : ℤ → ℤ → B) where
  dispatch_link-invalid :
      (now : ℤ) (q : Request) (outbound : Link B) (d : Dispatcher R B)
      → q.is_valid ≡ false
      → dispatch_link match_string get_handler default_handler tag to_lower compile parse_address
          new_bucket now q outbound d
        ≡ (d, [], fails)
  unfolding dispatch_link
  dispatch_link-invalid now q outbound d v = rw v refl

  module _ (now : ℤ) (q : Request) (s : SessionInbound) (email : String) (r : ℕ) (l : Limiter R B)
      (outbound : Link B) (d : Dispatcher R B) where
    -- The limiter after CheckLimit, the state and the link after the user has entered.
    abbrev entered : Dispatcher R B × Link B
    entered =
        let l' = (check_limit new_bucket now email s.source q.is_tcp s.source_is_tcp l).0 in
        wrap_link s email outbound (r, bucket new_bucket now s email q.is_tcp l)
          (put_limiter r l' d)

    abbrev routed_entered : Option SessionInbound → Outcome H B
    routed_entered inbound =
        let t = target_of to_lower compile match_string parse_address q in
        let (d', link) = entered in
        (routed_dispatch match_string get_handler default_handler tag inbound (routing_context q t)
          t.destination (routed_protocol q) (some r)
          (record link { reader = sniffed_reader q link.reader }) d').2

    routed_iff :
        (h : H)
        → s.email ≡ some email
        → let t = target_of to_lower compile match_string parse_address q in
          Reaches h (routed_entered (some s)) ↔ (
            (blocked match_string t.destination (routed_protocol q) l ≡ false)
            × Chosen get_handler default_handler q.inbound_tag
                (IsEnabled q.inbound_tag d)
                q.forced_outbound_tag
                (q.pick_route t)
                h)
    unfolding can_use_same_tag_outbound
    routed_iff h mail =
        let t = target_of to_lower compile match_string parse_address q in
        let l' = (check_limit new_bucket now email s.source q.is_tcp s.source_is_tcp l).0 in
        let b = bucket new_bucket now s email q.is_tcp l in
        let (d', link) = entered in
        let link' : Link B = record link { reader = sniffed_reader q link.reader } in
        let (registry, tags) = wrap_link-same s email outbound (r, b) (put_limiter r l' d) in
        let rules =
          against_rules-put match_string t.destination (routed_protocol q) r l l' d d'
            (check_limit-rules new_bucket now email s.source q.is_tcp s.source_is_tcp l) registry in
        let (out, back) =
          routed_dispatch-Reaches match_string get_handler default_handler tag h s
            (routing_context q t) t.destination (routed_protocol q) (some r) link' d' in
        let limiter_of : rule_limiter s (some r) d' ≡ some r = rw mail refl in
        let same_rules =
          ap (λ x. against_rules match_string t.destination (routed_protocol q) x d') limiter_of
          ∙ rules in
        let same_handler =
          ap
            (λ x. handler_in (
              choose_handler get_handler default_handler
                (if q.inbound_tag == "" then false else or_false (load q.inbound_tag x))
                (routing_context q t)))
            tags in
        let (chosen, choice) =
          choose_handler-Chosen get_handler default_handler q.inbound_tag
            (can_use_same_tag_outbound q.inbound_tag d) (IsEnabled q.inbound_tag d)
            (can_use_same_tag_outbound-IsEnabled q.inbound_tag d) q.forced_outbound_tag
            (q.pick_route t) h in
        (
          λ g. let (b, c) = out g in (sym same_rules ∙ b, chosen (sym same_handler ∙ c)),
          λ (b, c). back (same_rules ∙ b, same_handler ∙ choice c),
        )

    module _ (named : session_user q.inbound ≡ some (s, email))
        (found : get_limiter s.tag d.registry ≡ some r) (there : load r d.registry.heap ≡ some l)
        (valid : q.is_valid ≡ true) where
      dispatch_link-fails :
          rejects new_bucket now s email q.is_tcp l ≡ true
          → (dispatch_link match_string get_handler default_handler tag to_lower compile
              parse_address new_bucket now q outbound d).2
            ≡ fails
      unfolding dispatch_link after_enter sniff_and_route
      dispatch_link-fails p =
          rw (valid, dispatch_link)
            (ap
              (λ x.
                (after_enter match_string get_handler default_handler tag to_lower compile
                  parse_address q x).2)
              (enter_link-rejected new_bucket now q.inbound s email q.is_tcp r l d named found there
                outbound p))

      dispatch_link-routes :
          rejects new_bucket now s email q.is_tcp l ≡ false
          → (dispatch_link match_string get_handler default_handler tag to_lower compile
              parse_address new_bucket now q outbound d).2
            ≡ routed_entered q.inbound
      unfolding dispatch_link after_enter sniff_and_route
      dispatch_link-routes p =
          rw (valid, dispatch_link)
            (ap
              (λ x.
                (after_enter match_string get_handler default_handler tag to_lower compile
                  parse_address q x).2)
              (enter_link-admitted new_bucket now q.inbound s email q.is_tcp r l d named found there
                outbound p))

  -- Where the user has an email and its inbound a limiter, DispatchLink hands a link to the handler h
  -- exactly when the destination is valid, CheckLimit need not reject the connection, no rule of
  -- the limiter blocks the destination or the protocol that the sniffers leave, and h is the handler
  -- that is asked for: with a forced tag the one of that tag; else, where the router picks a tag, the
  -- one of that tag and no other, even if there is none; else the one of the inbound's own tag, if
  -- that is enabled and there is one; and else the default one.
  pub dispatch_link_lem :
      (now : ℤ) (q : Request) (s : SessionInbound) (email : String) (r : ℕ) (l : Limiter R B)
      (outbound : Link B) (d : Dispatcher R B) (h : H)
      → session_user q.inbound ≡ some (s, email)
      → get_limiter s.tag d.registry ≡ some r
      → load r d.registry.heap ≡ some l
      → let t = target_of to_lower compile match_string parse_address q in
        Reaches h
          (dispatch_link match_string get_handler default_handler tag to_lower compile parse_address
            new_bucket now q outbound d).2
        ↔ ((q.is_valid ≡ true)
            × ¬ (MustReject email s.source s.source_is_tcp l)
            × (blocked match_string t.destination (routed_protocol q) l ≡ false)
            × Chosen get_handler default_handler q.inbound_tag
                (IsEnabled q.inbound_tag d)
                q.forced_outbound_tag
                (q.pick_route t)
                h)
  dispatch_link_lem now q s email r l outbound d h named found there =
      let (here, mail) = session_user-some q.inbound s email named in
      elim (Bool-cases q.is_valid) [
        | inr v ↦
            rw (dispatch_link-invalid now q outbound d v)
              (λ (text, k, e). absurd cc, λ (w, n, b, c). absurd (ground (arith, w, v)))
        | inl v ↦ elim (rejects-MustReject new_bucket now s email q.is_tcp l) [
          | inl (p, m) ↦
              rw (dispatch_link-fails now q s email r l outbound d named found there v p)
                (λ (text, k, e). absurd cc, λ (w, n, b, c). absurd (n m))
          | inr (p, m) ↦
              rw (dispatch_link-routes now q s email r l outbound d named found there v p) (
                rw here (
                  let (out, back) = routed_iff now q s email r l outbound d h mail in
                  (λ g. let (b, c) = out g in (v, m, b, c), λ (w, n, b, c). back (b, c))))
        ]
      ]
