-- ===== src/Core/Selector/Build.antt =====
-- core/core.go, and NewSelector and Type of core/selector.go: how cores are made and named.
use ccaa.Base.{
  String, string_eq, Bool, false, ◌||◌, ◌≡◌, ◌⊎◌, inl, inr, List, [], ◌∷◌, none, some, Assoc, load,
  store, load-store, ◌==◌, if◌then◌else◌, is_some, str_append, arith, Sum-cases,
}
use ccaa.Core.Selector.{Selector}

-- conf.CoreConfig: the type and the name, and the settings C of the core.
pub record CoreConfig (C : Type 0) : Type 0 where
  pub core_type : String
  pub name : String
  pub settings : C

-- The table of registered cores. A function of it gives a core, or the text of an error.
abbrev pub Cores : Type 0 → Type 0 → Type 0
Cores S C = Assoc String (CoreConfig C → String ⊎ S)

unfoldable pub register_core :
    {S C : Type 0} → String → (CoreConfig C → String ⊎ S) → Cores S C → Cores S C
register_core t f cores = store t f cores

unfoldable pub registered_core : {S C : Type 0} → Cores S C → List String
registered_core [] = []
registered_core ((k, f) ∷ cores) = k ∷ registered_core cores

-- The name that a core gets: its type where it has none.
abbrev pub name_of : {C : Type 0} → CoreConfig C → String
name_of t = if t.name == "" then t.core_type else t.name

-- `to_lower` is `strings.ToLower`.
module _ {S C : Type 0} (to_lower : String → String) (cores : Cores S C) where
  -- One round of the loop of `NewSelector`: an error, or the core.
  unfoldable pub make_core : CoreConfig C → String ⊎ S
  make_core t = elim (load (to_lower t.core_type) cores) [
    | none ↦ inl (str_append "unknown core type: " t.core_type)
    | some f ↦ f t
  ]

  unfoldable pub make_all : List (CoreConfig C) → Assoc String S → String ⊎ Assoc String S
  make_all [] cs = inr cs
  make_all (t ∷ ts) cs = elim (make_core t) [
    | inl e ↦ inl e
    | inr c ↦ make_all ts (store (name_of t) c cs)
  ]

  unfoldable pub new_selector : List (CoreConfig C) → String ⊎ Selector S
  new_selector ts = elim (make_all ts []) [
    | inl e ↦ inl e
    | inr cs ↦ inr (record { cores = cs; nodes = [] })
  ]

  -- `NewCore` gives one core or a selector. A single core's type is looked up as it is spelled.
  unfoldable pub new_core : List (CoreConfig C) → String ⊎ (S ⊎ Selector S)
  new_core [] = inl "no have vail core"
  new_core (t ∷ []) = elim (load t.core_type cores) [
    | none ↦ inl "unknown core type"
    | some f ↦ elim (f t) [ inl e ↦ inl e | inr c ↦ inr (inl c) ]
  ]
  new_core (t ∷ u ∷ ts) = elim (new_selector (t ∷ u ∷ ts)) [ inl e ↦ inl e | inr s ↦ inr (inr s) ]

  abbrev pub has_name : String → List (CoreConfig C) → Bool
  has_name k [] = false
  has_name k (t ∷ ts) = name_of t == k || has_name k ts

  make_all-names :
      (k : String) (ts : List (CoreConfig C)) (cs out : Assoc String S)
      → make_all ts cs ≡ inr out
      → is_some (load k out) ≡ (has_name k ts || is_some (load k cs))
  unfolding make_all
  make_all-names k [] cs out h = ground (arith, h)
  make_all-names k (t ∷ ts) cs out h = elim (Sum-cases (make_core t)) [
    | inl (e, p) ↦ absurd (ground (arith, p, h))
    | inr (c, p) ↦ ground (
      arith,
      make_all-names k ts (store (name_of t) c cs) out (ground (arith, p, h)),
      load-store (name_of t) k c cs,
    )
  ]

  -- A selector that NewSelector makes has a core under exactly the names of the configuration, and
  -- no nodes.
  new_selector-names :
      (k : String) (ts : List (CoreConfig C)) (s : Selector S)
      → new_selector ts ≡ inr s
      → (is_some (load k s.cores) ≡ has_name k ts) × (s.nodes ≡ [])
  unfolding new_selector load
  new_selector-names k ts s h = elim (Sum-cases (make_all ts [])) [
    | inl (e, p) ↦ absurd (ground (arith, p, h))
    | inr (cs, p) ↦
        let names = make_all-names k ts [] cs p in
        (ground (arith, p, h, names), ground (arith, p, h))
  ]
