-- ===== src/Limiter/Rules.antt =====
-- limiter/rule.go. R is Go's compiled expression, `compile` is `regexp.Compile` and `match_string`
-- its method `MatchString`.
pub mod Decides
use ccaa.Base.{
  String, string_eq, Bool, true, false, List, [], ◌∷◌, Option, none, some, ◌==◌, if◌then◌else◌,
}
use ccaa.Limiter.{Limiter}

-- The loop of `CheckDomainRule`, which stops at the first rule that matches.
unfoldable pub any_match : {R : Type 0} → (R → String → Bool) → String → List R → Bool
any_match match_string destination [] = false
any_match match_string destination (r ∷ rs) =
    if match_string r destination then true else any_match match_string destination rs

unfoldable pub check_domain_rule :
    {R B : Type 0} → (R → String → Bool) → String → Limiter R B → Bool
check_domain_rule match_string destination l = any_match match_string destination l.domain_rules

unfoldable pub any_equal : String → List String → Bool
any_equal protocol [] = false
any_equal protocol (r ∷ rs) = if r == protocol then true else any_equal protocol rs

unfoldable pub check_protocol_rule : {R B : Type 0} → String → Limiter R B → Bool
check_protocol_rule protocol l = any_equal protocol l.protocol_rules

-- The rules that the panel sends: api/panel's `Rules`.
pub record Rules : Type 0 where
  pub regexp : List String
  pub protocol : List String

-- `none` is the panic of `regexp.MustCompile`.
unfoldable pub compile_all : {R : Type 0} → (String → Option R) → List String → Option (List R)
compile_all compile [] = some []
compile_all compile (s ∷ ss) = elim (compile s) [
  | none ↦ none
  | some r ↦ elim (compile_all compile ss) [ none ↦ none | some rs ↦ some (r ∷ rs) ]
]

unfoldable pub update_rule :
    {R B : Type 0} → (String → Option R) → Rules → Limiter R B → Option (Limiter R B)
update_rule compile rule l = elim (compile_all compile rule.regexp) [
  | none ↦ none
  | some rs ↦ some (record l { domain_rules = rs; protocol_rules = rule.protocol })
]
