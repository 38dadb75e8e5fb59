-- ===== src/Core/Dispatcher/Route/Chosen.antt =====
-- Which handler routedDispatch chooses.
use ccaa.Base.{
  String, string_eq, Bool, true, false, Bool-cases, ◌≡◌, ◌≢◌, ◌⊎◌, inl, inr, ◌↔◌, refl, sym, ◌∙◌,
  Option, none, some, load, ◌==◌, arith, Option-cases,
}
use text.Mathlib.TextEquality.{eq_iff}
use ccaa.Core.Dispatcher.{Dispatcher, or_false, can_use_same_tag_outbound}
use ccaa.Core.Dispatcher.Route.{
  Picked, no_router, no_route, route_to, RoutingContext, PickedBy, by_default, by_platform,
  by_router, named, fall_back, choose_handler,
}

-- The outbound of the inbound's own tag may be used.
abbrev pub IsEnabled : {R B : Type 0} → String → Dispatcher R B → Type 0
IsEnabled tag d = (tag ≢ "") × (load tag d.same_tag_outbound ≡ some true)

or_false-true : (o : Option Bool) → or_false o ≡ true → o ≡ some true
or_false-true none e = absurd (ground (arith, e))
or_false-true (some b) e = ground (arith, e)

pub can_use_same_tag_outbound-IsEnabled :
    {R B : Type 0} (tag : String) (d : Dispatcher R B)
    → (can_use_same_tag_outbound tag d ≡ true) ↔ IsEnabled tag d
unfolding can_use_same_tag_outbound
can_use_same_tag_outbound-IsEnabled tag d = elim (Bool-cases (tag == "")) [
  | inl p ↦ rw p (λ e. absurd (ground (arith, e)), λ (n, e). absurd (n ((eq_iff tag "").0 p)))
  | inr p ↦ rw p (
    λ e. (
      λ q. ground (arith, p, (eq_iff tag "").1 q),
      or_false-true (load tag d.same_tag_outbound) e,
    ),
    λ (n, e). rw e refl,
  )
]

module _ {H : Type 0} (get_handler : String → Option H) (default_handler : Option H)
    (in_tag : String) (Enabled : Type 0) where
  -- Where no handler is named: the one of the inbound's own tag, if that is enabled and there is
  -- one, else the default one.
  abbrev pub FallsBack : H → Type 0
  FallsBack h =
      (Enabled × (get_handler in_tag ≡ some h))
      ⊎ (((¬ Enabled) ⊎ (get_handler in_tag ≡ none)) × (default_handler ≡ some h))

  -- The router's tag has to exist; no other handler takes its place.
  abbrev pub Picks : Picked → H → Type 0
  Picks no_router h = FallsBack h
  Picks no_route h = FallsBack h
  Picks (route_to out_tag) h = get_handler out_tag ≡ some h

  -- So has the forced tag, if there is one, which goes before the router.
  abbrev pub Chosen : String → Picked → H → Type 0
  Chosen forced picked h =
      ((forced ≢ "") × (get_handler forced ≡ some h)) ⊎ ((forced ≡ "") × Picks picked h)

abbrev pub handler_in : {H : Type 0} → Option (PickedBy × H) → Option H
handler_in none = none
handler_in (some (by, h)) = some h

module _ {H : Type 0} (get_handler : String → Option H) where
  handler_in-named :
      (by : PickedBy) (name : String) → handler_in (named get_handler by name) ≡ get_handler name
  handler_in-named by name = elim (Option-cases (get_handler name)) [
    | inl e ↦ rw (e, handler_in) refl
    | inr (h, e) ↦ rw (e, handler_in) refl
  ]

  handler_in-default :
      (o : Option H) → handler_in (elim o [ none ↦ none | some h ↦ some (by_default, h) ]) ≡ o
  handler_in-default none = refl
  handler_in-default (some h) = refl

  module _ (default_handler : Option H) (in_tag : String) (same_tag : Bool) where
    fall_back-own :
        (k : H)
        → same_tag ≡ true
        → get_handler in_tag ≡ some k
        → handler_in (fall_back get_handler default_handler same_tag in_tag) ≡ some k
    unfolding fall_back
    fall_back-own k s e = rw (s, e, handler_in) refl

    fall_back-default :
        (same_tag ≡ false) ⊎ (get_handler in_tag ≡ none)
        → handler_in (fall_back get_handler default_handler same_tag in_tag) ≡ default_handler
    unfolding fall_back
    fall_back-default (inl s) = rw s (handler_in-default default_handler)
    fall_back-default (inr e) = elim (Bool-cases same_tag) [
      | inl s ↦ rw (s, e, handler_in) (handler_in-default default_handler)
      | inr s ↦ rw s (handler_in-default default_handler)
    ]

    module _ (Enabled : Type 0) (enabled : (same_tag ≡ true) ↔ Enabled) where
      fall_back-FallsBack :
          (h : H)
          → (handler_in (fall_back get_handler default_handler same_tag in_tag) ≡ some h)
            ↔ FallsBack get_handler default_handler in_tag Enabled h
      fall_back-FallsBack h = elim (Bool-cases same_tag) [
        | inr s ↦
            let off : ¬ Enabled = λ x. absurd (ground (arith, s, enabled.1 x)) in
            let same = fall_back-default (inl s) in
            (
              λ p. inr (inl off, sym same ∙ p),
              λ c. elim c [ inl (x, q) ↦ absurd (off x) | inr (x, q) ↦ same ∙ q ],
            )
        | inl s ↦ elim (Option-cases (get_handler in_tag)) [
          | inl e ↦
              let same = fall_back-default (inr e) in
              (
                λ p. inr (inr e, sym same ∙ p),
                λ c. elim c [ inl (x, q) ↦ absurd (ground (arith, e, q)) | inr (x, q) ↦ same ∙ q ],
              )
          | inr (k, e) ↦
              let same = fall_back-own k s e in
              (
                λ p. inl (enabled.0 s, e ∙ (sym same ∙ p)),
                λ c. elim c [
                  | inl (x, q) ↦ same ∙ (sym e ∙ q)
                  | inr (x, q) ↦ elim x [
                    | inl off ↦ absurd (off (enabled.0 s))
                    | inr f ↦ absurd (ground (arith, e, f))
                  ]
                ],
              )
        ]
      ]

      -- Where no tag is forced.
      abbrev unforced_choice : Picked → Option (PickedBy × H)
      unforced_choice no_router = fall_back get_handler default_handler same_tag in_tag
      unforced_choice no_route = fall_back get_handler default_handler same_tag in_tag
      unforced_choice (route_to out_tag) = named get_handler by_router out_tag

      unforced :
          (picked : Picked) (h : H)
          → (handler_in (unforced_choice picked) ≡ some h)
            ↔ Picks get_handler default_handler in_tag Enabled picked h
      unforced no_router h = fall_back-FallsBack h
      unforced no_route h = fall_back-FallsBack h
      unforced (route_to out_tag) h =
          let same = handler_in-named by_router out_tag in (λ p. sym same ∙ p, λ p. same ∙ p)

      -- The handler that is chosen is the one that the tags and the router ask for.
      pub choose_handler-Chosen :
          (forced : String) (picked : Picked) (h : H)
          → let c : RoutingContext = record {
            inbound_tag = in_tag;
            forced_outbound_tag = forced;
            picked = picked;
          } in
            (handler_in (choose_handler get_handler default_handler same_tag c) ≡ some h)
            ↔ Chosen get_handler default_handler in_tag Enabled forced picked h
      unfolding choose_handler
      choose_handler-Chosen forced picked h = elim (Bool-cases (forced == "")) [
        | inr f ↦
            let name : forced ≢ "" = λ e. ground (arith, f, (eq_iff forced "").1 e) in
            let same = handler_in-named by_platform forced in
            rw (f, choose_handler)
              (
                λ p. inl (name, sym same ∙ p),
                λ c. elim c [ inl (x, q) ↦ same ∙ q | inr (x, q) ↦ absurd (name x) ],
              )
        | inl f ↦
            let blank = (eq_iff forced "").0 f in
            let (there, back) = unforced picked h in
            rw (f, choose_handler)
              (
                λ p. inr (blank, there p),
                λ c. elim c [ inl (x, q) ↦ absurd (x blank) | inr (x, q) ↦ back q ],
              )
      ]
