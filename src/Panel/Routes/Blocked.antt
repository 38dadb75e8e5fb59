-- ===== src/Panel/Routes/Blocked.antt =====
-- What the limiter blocks, in terms of the routes that the panel sends.
use ccaa.Base.{
  ℕ, ◌+◌, String, string_eq, has_prefix, trim_prefix, Bool, true, false, ◌≡◌, refl, ap, sym, ◌∙◌,
  subst, ◌↔◌, ◌⊎◌, inl, inr, List, [], ◌∷◌, ◌++◌, Option, none, some, ◌==◌, Any, arith,
  Option-cases, Bool-cases,
}
use mathlib.Core.Option.{some-injective}
use text.Mathlib.TextEquality.{eq_iff}
use ccaa.Limiter.{Limiter}
use ccaa.Limiter.Rules.{Rules, check_domain_rule, check_protocol_rule, update_rule}
use ccaa.Limiter.Rules.Decides.{Matches, update_rule-decides}
use ccaa.Panel.Node.{RawDns}
use ccaa.Panel.Routes.{
  Route, Parsed, matches_of, add_rule, add_rules, with_dns, act, parse_route, parse_routes, add_dns,
  empty,
}

-- One of the matches of a route with the action "block" has the property.
abbrev pub Blocks : (String → Type 0) → Route → Type 0
Blocks P r = (r.action ≡ "block") × (ms : List String) × (matches_of r.match ≡ some ms) × Any P ms

-- A match stands for an expression, without "regexp:", or for a protocol, behind "protocol:".
abbrev pub Expression : (String → Type 0) → String → Type 0
Expression P v = (has_prefix v "protocol:" ≡ false) × P (trim_prefix v "regexp:")

abbrev pub Protocol : (String → Type 0) → String → Type 0
Protocol P v = (has_prefix v "protocol:" ≡ true) × P (trim_prefix v "protocol:")

module _ (P : String → Type 0) where
  Any-snoc : (xs : List String) (v : String) → Any P (xs ++ (v ∷ [])) ↔ (Any P xs ⊎ P v)
  Any-snoc [] v = (
    λ d. elim d [ inl p ↦ inr p | inr z ↦ absurd z ],
    λ d. elim d [ inl z ↦ absurd z | inr p ↦ inl p ],
  )
  Any-snoc (x ∷ xs) v =
      let ih = Any-snoc xs v in
      (
        λ d. elim d [
          | inl p ↦ inl (inl p)
          | inr a ↦ elim (ih.0 a) [ inl b ↦ inl (inr b) | inr p ↦ inr p ]
        ],
        λ d. elim d [
          | inl c ↦ elim c [ inl p ↦ inl p | inr b ↦ inr (ih.1 (inl b)) ]
          | inr p ↦ inr (ih.1 (inr p))
        ],
      )

  add_rule-regexp :
      (v : String) (r : Rules) → Any P (add_rule v r).regexp ↔ (Any P r.regexp ⊎ Expression P v)
  add_rule-regexp v r = elim (Bool-cases (has_prefix v "protocol:")) [
    | inl e ↦ rw e (inl, λ d. elim d [ inl a ↦ a | inr x ↦ absurd (ground (arith, x.0)) ])
    | inr e ↦
        let iff = Any-snoc r.regexp (trim_prefix v "regexp:") in
        rw e (
          λ a. elim (iff.0 a) [ inl b ↦ inl b | inr p ↦ inr (refl, p) ],
          λ d. elim d [ inl a ↦ iff.1 (inl a) | inr x ↦ iff.1 (inr x.1) ],
        )
  ]

  add_rule-protocol :
      (v : String) (r : Rules) → Any P (add_rule v r).protocol ↔ (Any P r.protocol ⊎ Protocol P v)
  add_rule-protocol v r = elim (Bool-cases (has_prefix v "protocol:")) [
    | inr e ↦ rw e (inl, λ d. elim d [ inl a ↦ a | inr x ↦ absurd (ground (arith, x.0)) ])
    | inl e ↦ rw e (
      λ a. elim ((Any-snoc r.protocol _).0 a) [ inl b ↦ inl b | inr p ↦ inr (refl, p) ],
      λ d. elim d [
        | inl a ↦ (Any-snoc r.protocol _).1 (inl a)
        | inr x ↦ (Any-snoc r.protocol _).1 (inr x.1)
      ],
    )
  ]

-- For one of the two lists of rules, and what makes a match stand for a member of it.
module _ (P : String → Type 0) (get : Rules → List String) (Q : String → Type 0)
    (step : (v : String) (r : Rules) → Any P (get (add_rule v r)) ↔ (Any P (get r) ⊎ Q v)) where
  add_rules-Any :
      (vs : List String) (r : Rules) → Any P (get (add_rules vs r)) ↔ (Any P (get r) ⊎ Any Q vs)
  unfolding add_rules
  add_rules-Any [] r = (inl, λ d. elim d [ inl a ↦ a | inr z ↦ absurd z ])
  add_rules-Any (v ∷ vs) r =
      let ih = add_rules-Any vs (add_rule v r) in
      (
        λ a. elim (ih.0 a) [
          | inl b ↦ elim ((step v r).0 b) [ inl c ↦ inl c | inr q ↦ inr (inl q) ]
          | inr b ↦ inr (inr b)
        ],
        λ d. elim d [
          | inl c ↦ ih.1 (inl ((step v r).1 (inl c)))
          | inr d ↦ elim d [ inl q ↦ ih.1 (inl ((step v r).1 (inr q))) | inr b ↦ ih.1 (inr b) ]
        ],
      )

  with_dns-rules : (p q : Parsed) (d : Option RawDns) → with_dns p d ≡ some q → p.rules ≡ q.rules
  with_dns-rules p q none h = absurd (ground arith)
  with_dns-rules p q (some d) h = ap Parsed.rules (some-injective _ _ h)

  other_action :
      (i : ℕ) (r : Route) (ms : List String) (p q : Parsed)
      → (r.action == "block") ≡ false
      → act i r ms p ≡ some q
      → p.rules ≡ q.rules
  unfolding act
  other_action i r ms p q e h = elim (Bool-cases (r.action == "dns")) [
    | inl f ↦ with_dns-rules p q (add_dns i r ms p.raw_dns) (ground arith)
    | inr f ↦ let same : some p ≡ some q = ground arith in ap Parsed.rules (some-injective _ _ same)
  ]

  act-Any :
      (i : ℕ) (r : Route) (ms : List String) (p q : Parsed)
      → act i r ms p ≡ some q
      → Any P (get q.rules) ↔ (Any P (get p.rules) ⊎ ((r.action ≡ "block") × Any Q ms))
  unfolding act
  act-Any i r ms p q h = elim (Bool-cases (r.action == "block")) [
    | inl e ↦
        let same : record p { rules = add_rules ms p.rules } ≡ q = ground arith in
        let iff = add_rules-Any ms p.rules in
        rw (sym same) (
          λ a. elim (iff.0 a) [ inl b ↦ inl b | inr b ↦ inr ((eq_iff r.action "block").0 e, b) ],
          λ d. elim d [ inl a ↦ iff.1 (inl a) | inr (b, c) ↦ iff.1 (inr c) ],
        )
    | inr e ↦
        let same : p.rules ≡ q.rules = other_action i r ms p q e h in
        rw (sym same) (
          inl,
          λ d. elim d [ inl a ↦ a | inr (b, c) ↦ absurd (ground (arith, eq_iff r.action "block")) ],
        )
  ]

  parse_route-Any :
      (i : ℕ) (r : Route) (p q : Parsed)
      → parse_route i r p ≡ some q
      → Any P (get q.rules) ↔ (Any P (get p.rules) ⊎ Blocks Q r)
  unfolding parse_route
  parse_route-Any i r p q h = elim (Option-cases (matches_of r.match)) [
    | inl e ↦ absurd (ground arith)
    | inr (ms, e) ↦
        let iff = act-Any i r ms p q (ground arith) in
        (
          λ a. elim (iff.0 a) [ inl b ↦ inl b | inr b ↦ inr (b.0, ms, e, b.1) ],
          λ d. elim d [
            | inl a ↦ iff.1 (inl a)
            | inr (b, ns, f, c) ↦ iff.1 (inr (b, subst (Any Q) (some-injective _ _ (sym f ∙ e)) c))
          ],
        )
  ]

  parse_routes-Any :
      (i : ℕ) (rs : List Route) (p q : Parsed)
      → parse_routes i rs p ≡ some q
      → Any P (get q.rules) ↔ (Any P (get p.rules) ⊎ Any (Blocks Q) rs)
  unfolding parse_routes
  parse_routes-Any i [] p q h =
      rw (sym (some-injective _ _ h)) (inl, λ d. elim d [ inl a ↦ a | inr z ↦ absurd z ])
  parse_routes-Any i (r ∷ rs) p q h = elim (Option-cases (parse_route i r p)) [
    | inl e ↦ absurd (ground arith)
    | inr (m, e) ↦
        let first = parse_route-Any i r p m e in
        let ih = parse_routes-Any (i + 1) rs m q (ground arith) in
        (
          λ a. elim (ih.0 a) [
            | inl b ↦ elim (first.0 b) [ inl c ↦ inl c | inr c ↦ inr (inl c) ]
            | inr b ↦ inr (inr b)
          ],
          λ d. elim d [
            | inl c ↦ ih.1 (inl (first.1 (inl c)))
            | inr d ↦ elim d [ inl c ↦ ih.1 (inl (first.1 (inr c))) | inr b ↦ ih.1 (inr b) ]
          ],
        )
  ]

-- After the panel's routes have been read and their rules put in force, a destination is blocked
-- exactly when a match of a route with the action "block" that does not start with "protocol:"
-- compiles, without a leading "regexp:", to an expression that matches the destination; and a
-- protocol exactly when such a route has it as a match behind "protocol:". The conditions are that
-- the routes are read without a panic and that every expression compiles.
pub update_rule-parse_routes :
    {R B : Type 0} (compile : String → Option R) (match_string : R → String → Bool)
    (rs : List Route) (p : Parsed) (l m : Limiter R B) (destination protocol : String)
    → parse_routes 0 rs empty ≡ some p
    → update_rule compile p.rules l ≡ some m
    → ((check_domain_rule match_string destination m ≡ true)
        ↔ Any (Blocks (Expression (Matches compile match_string destination))) rs)
      × ((check_protocol_rule protocol m ≡ true) ↔ Any (Blocks (Protocol (λ v. v ≡ protocol))) rs)
update_rule-parse_routes compile match_string rs p l m destination protocol h k =
    let (domain, same) =
      update_rule-decides compile match_string p.rules l m destination protocol k in
    let P = Matches compile match_string destination in
    let d = parse_routes-Any P Rules.regexp (Expression P) (add_rule-regexp P) 0 rs empty p h in
    let Q : String → Type 0 = λ v. v ≡ protocol in
    let e = parse_routes-Any Q Rules.protocol (Protocol Q) (add_rule-protocol Q) 0 rs empty p h in
    (
      (λ a. elim (d.0 (domain.0 a)) [ inl z ↦ absurd z | inr b ↦ b ], λ b. domain.1 (d.1 (inr b))),
      (λ a. elim (e.0 (same.0 a)) [ inl z ↦ absurd z | inr b ↦ b ], λ b. same.1 (e.1 (inr b))),
    )
