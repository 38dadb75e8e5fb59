-- ===== src/Limiter/Rules/Decides.antt =====
-- What the two rule checks decide, once the rules of the panel are in force.
use ccaa.Base.{
  String, string_eq, Bool, true, ◌≡◌, ◌↔◌, inl, inr, List, [], ◌∷◌, Option, some, ◌==◌, Any, arith,
  Option-cases, Bool-cases,
}
use text.Mathlib.TextEquality.{eq_iff}
use ccaa.Limiter.{Limiter}
use ccaa.Limiter.Rules.{
  any_match, any_equal, compile_all, check_domain_rule, check_protocol_rule, Rules, update_rule,
}

any_equal_iff : (p : String) (rs : List String) → (any_equal p rs ≡ true) ↔ Any (λ r. r ≡ p) rs
unfolding any_equal
any_equal_iff p [] = (λ h. ground arith, λ h. absurd h)
any_equal_iff p (r ∷ rs) =
    let ih = any_equal_iff p rs in
    (
      λ h. elim (Bool-cases (r == p)) [
        | inl e ↦ inl ((eq_iff r p).0 e)
        | inr e ↦ inr (ih.0 (ground arith))
      ],
      λ d. elim d [ inl e ↦ ground (arith, eq_iff r p) | inr a ↦ ground (arith, ih.1 a) ],
    )

-- A pattern compiles to an expression that matches the text.
abbrev pub Matches :
    {R : Type 0} → (String → Option R) → (R → String → Bool) → String → String → Type 0
Matches {R} compile match_string destination pattern =
    (r : R) × (compile pattern ≡ some r) × (match_string r destination ≡ true)

module _ {R : Type 0} (compile : String → Option R) (match_string : R → String → Bool) where
  compile_all-cons :
      (p : String) (ps : List String) (rs : List R)
      → compile_all compile (p ∷ ps) ≡ some rs
      → (r : R) × (rest : List R) × (compile p ≡ some r)
        × (compile_all compile ps ≡ some rest)
        × (rs ≡ r ∷ rest)
  unfolding compile_all
  compile_all-cons p ps rs e = elim (Option-cases (compile p)) [
    | inl a ↦ ground arith
    | inr (r, a) ↦ elim (Option-cases (compile_all compile ps)) [
      | inl b ↦ ground arith
      | inr (rest, b) ↦ (r, rest, a, b, ground arith)
    ]
  ]

  compile_all-nil : {rs : List R} → compile_all compile [] ≡ some rs → rs ≡ []
  unfolding compile_all
  compile_all-nil e = cc

  -- For patterns that all compile, some expression matches exactly when some pattern does.
  any_match_iff :
      (destination : String) (ps : List String) (rs : List R)
      → compile_all compile ps ≡ some rs
      → (any_match match_string destination rs ≡ true)
        ↔ Any (Matches compile match_string destination) ps
  unfolding any_match
  any_match_iff destination [] rs e = (λ h. ground (arith, compile_all-nil e), λ h. absurd h)
  any_match_iff destination (p ∷ ps) rs e =
      let (r, rest, a, b, q) = compile_all-cons p ps rs e in
      let ih = any_match_iff destination ps rest b in
      (
        λ h. elim (Bool-cases (match_string r destination)) [
          | inl m ↦ inl (r, a, m)
          | inr m ↦ inr (ih.0 (ground arith))
        ],
        λ d. elim d [ inl (s, c, m) ↦ ground arith | inr c ↦ ground (arith, ih.1 c) ],
      )

  -- Once the panel's rules are in force, a destination is blocked exactly when one of the panel's
  -- expressions matches it, and a protocol exactly when it is one of the panel's protocols.
  pub update_rule-decides :
      {B : Type 0} (rule : Rules) (l m : Limiter R B) (destination protocol : String)
      → update_rule compile rule l ≡ some m
      → ((check_domain_rule match_string destination m ≡ true)
          ↔ Any (Matches compile match_string destination) rule.regexp)
        × ((check_protocol_rule protocol m ≡ true) ↔ Any (λ r. r ≡ protocol) rule.protocol)
  unfolding update_rule check_domain_rule check_protocol_rule
  update_rule-decides rule l m destination protocol e =
      elim (Option-cases (compile_all compile rule.regexp)) [
        | inl a ↦ absurd (ground arith)
        | inr (rs, a) ↦
            let iff = any_match_iff destination rule.regexp rs a in
            let same : m ≡ record l { domain_rules = rs; protocol_rules = rule.protocol } =
              ground arith in
            rw same (iff, any_equal_iff protocol rule.protocol)
      ]
