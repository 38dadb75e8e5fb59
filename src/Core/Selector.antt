-- ===== src/Core/Selector.antt =====
-- core/selector.go: several cores behind one. The cores stand under their names; a node is sent to
-- the core that was chosen for its tag, told here by the name.
pub mod Routes
pub mod Build
mod Tests
use ccaa.Base.{
  ℤ, pos, String, string_eq, Bool, true, false, not, List, [], ◌∷◌, ◌++◌, Option, none, some, Assoc,
  load, store, delete, ◌==◌, if◌then◌else◌,
}
use ccaa.Panel.User.{UserInfo, UserTraffic}
use ccaa.Panel.Node.{NodeInfo}
use ccaa.Core.Interface.{Core, Error, AddUsersParams, Options}

pub record Selector (S : Type 0) : Type 0 where
  pub cores : Assoc String S
  pub nodes : Assoc String String

unfoldable pub is_supported : String → List String → Bool
is_supported protocol [] = false
is_supported protocol (p ∷ ps) = if protocol == p then true else is_supported protocol ps

abbrev pub not_have : Error
not_have = some "the node is not have"

abbrev pub not_support : Error
not_support = some "the node type is not support"

module _ {S R : Type 0} (core : Core S R) where
  -- A core of the loop in `AddNode` that is not passed over.
  abbrev pub suits : NodeInfo → Options R → S → Bool
  suits info option c =
      if option.core == ""
      then is_supported info.node_type (core.protocols c)
      else option.core == core.core_type c

  -- The loop: the last core that suits is taken.
  unfoldable pub select_last :
      NodeInfo → Options R → Assoc String S → Option (String × S) → Option (String × S)
  select_last info option [] found = found
  select_last info option ((name, c) ∷ cs) found =
      select_last info option cs (if suits info option c then some (name, c) else found)

  abbrev pub named : String → Option S → Option (String × S)
  named name none = none
  named name (some c) = some (name, c)

  unfoldable pub select_core : NodeInfo → Options R → Selector S → Option (String × S)
  select_core info option s =
      if not (option.core_name == "")
      then named option.core_name (load option.core_name s.cores)
      else select_last info option s.cores none

  -- The options once the core is known; `none` where they cannot be decoded.
  unfoldable pub decode_options :
      (Options R → Option (Options R)) → Options R → S → Option (Options R)
  decode_options unmarshal option c =
      if option.core == ""
      then elim (unmarshal (record option { core = core.core_type c })) [
        | none ↦ none
        | some o ↦ some (record o { raw_options = none })
      ]
      else some option

  abbrev pub store_node : String → String → S × Error → Selector S → Selector S × Error
  store_node tag name (c, some e) s = (record s { cores = store name c s.cores }, some e)
  store_node tag name (c, none) s =
      (record s { cores = store name c s.cores; nodes = store tag name s.nodes }, none)

  -- `unmarshal` is `UnmarshalJSON` of the options on their raw part. The options, which the code
  -- changes in place, are the last part of the result.
  unfoldable pub add_node :
      (Options R → Option (Options R))
      → String
      → NodeInfo
      → Options R
      → Selector S
      → (Selector S × Error) × Options R
  add_node unmarshal tag info option s = elim (select_core info option s) [
    | none ↦ ((s, not_support), option)
    | some (name, c) ↦ elim (decode_options unmarshal option c) [
      | none ↦ ((s, some "unmarshal option error"), record option { core = core.core_type c })
      | some o ↦ (store_node tag name (core.add_node tag info o c) s, o)
    ]
  ]

  -- The name and the state of the core of a tag.
  abbrev pub node_core : String → Selector S → Option (String × S)
  node_core tag s = elim (load tag s.nodes) [
    | none ↦ none
    | some name ↦ named name (load name s.cores)
  ]

  abbrev pub delete_node : String → String → S × Error → Selector S → Selector S × Error
  delete_node tag name (c, some e) s = (record s { cores = store name c s.cores }, some e)
  delete_node tag name (c, none) s =
      (record s { cores = store name c s.cores; nodes = delete tag s.nodes }, none)

  unfoldable pub del_node : String → Selector S → Selector S × Error
  del_node tag s = elim (node_core tag s) [
    | none ↦ (s, not_have)
    | some (name, c) ↦ delete_node tag name (core.del_node tag c) s
  ]

  unfoldable pub add_users : AddUsersParams → Selector S → Selector S × ℤ × Error
  add_users p s = elim (node_core p.tag s) [
    | none ↦ (s, pos 0, not_have)
    | some (name, c) ↦
        let (c', added, e) = core.add_users p c in
        (record s { cores = store name c' s.cores }, added, e)
  ]

  unfoldable pub get_user_traffic_slice :
      String → Bool → Selector S → Selector S × List UserTraffic × Error
  get_user_traffic_slice tag reset s = elim (node_core tag s) [
    | none ↦ (s, [], not_have)
    | some (name, c) ↦
        let (c', traffic, e) = core.get_user_traffic_slice tag reset c in
        (record s { cores = store name c' s.cores }, traffic, e)
  ]

  unfoldable pub del_users : List UserInfo → String → NodeInfo → Selector S → Selector S × Error
  del_users users tag info s = elim (node_core tag s) [
    | none ↦ (s, not_have)
    | some (name, c) ↦
        let (c', e) = core.del_users users tag info c in
        (record s { cores = store name c' s.cores }, e)
  ]

  unfoldable pub protocols : Assoc String S → List String
  protocols [] = []
  protocols ((name, c) ∷ cs) = core.protocols c ++ protocols cs

  -- The loop of `Start`, which stops at the first error.
  unfoldable pub start_all : Assoc String S → Assoc String S × Error
  start_all [] = ([], none)
  start_all ((name, c) ∷ cs) =
      let (c', e) = core.start c in
      let (cs', e') = start_all cs in
      elim e [ some text ↦ ((name, c') ∷ cs, some text) | none ↦ ((name, c') ∷ cs', e') ]

  -- The loop of `Close`, which goes on, and the errors that it joins.
  unfoldable pub close_all : Assoc String S → Assoc String S × List String
  close_all [] = ([], [])
  close_all ((name, c) ∷ cs) =
      let (c', e) = core.close c in
      let (cs', errs) = close_all cs in
      ((name, c') ∷ cs', elim e [ none ↦ errs | some text ↦ text ∷ errs ])
