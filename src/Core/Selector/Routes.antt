-- ===== src/Core/Selector/Routes.antt =====
-- Which core the selector sends a node to, and which one it asks afterwards.
use ccaa.Base.{
  String, string_eq, ◌&&◌, true, not, ◌≡◌, ◌≢◌, ◌⊎◌, inl, inr, refl, ◌∙◌, [], ◌∷◌, Option, none,
  some, Assoc, load, store, load-store, load-delete, ◌==◌, if◌then◌else◌, is_some, Any, arith,
  Bool-cases, Option-cases, beq_refl,
}
use text.Mathlib.TextEquality.{eq_iff}
use ccaa.Panel.Node.{NodeInfo}
use ccaa.Core.Interface.{Core, Error, Options}
use ccaa.Core.Selector.{
  Selector, suits, select_last, select_core, decode_options, store_node, add_node, node_core,
  del_node, delete_node,
}

module _ {S R : Type 0} (core : Core S R) where
  -- An entry of the cores under that name, which suits the node.
  abbrev pub Suits : NodeInfo → Options R → String × S → Assoc String S → Type 0
  Suits info option n cs = Any (λ e. (e ≡ n) × (suits core info option e.1 ≡ true)) cs

  select_last-Suits :
      (info : NodeInfo) (option : Options R) (cs : Assoc String S) (found : Option (String × S))
      (n : String × S)
      → select_last core info option cs found ≡ some n
      → (found ≡ some n) ⊎ Suits info option n cs
  unfolding select_last
  select_last-Suits info option [] found n h = inl h
  select_last-Suits info option ((name, c) ∷ cs) found n h =
      elim (Bool-cases (suits core info option c)) [
        | inl p ↦
            elim (select_last-Suits info option cs (some (name, c)) n (ground (arith, p, h))) [
              | inl e ↦ inr (inl (ground (arith, e), p))
              | inr a ↦ inr (inr a)
            ]
        | inr p ↦ elim (select_last-Suits info option cs found n (ground (arith, p, h))) [
          | inl e ↦ inl e
          | inr a ↦ inr (inr a)
        ]
      ]

  -- What the choice of `AddNode` means: a core that is named, or the last one of the type that is
  -- asked for, or else the last one that supports the node's type.
  abbrev pub IsChosen : NodeInfo → Options R → String × S → Selector S → Type 0
  IsChosen info option n s =
      ((option.core_name ≢ "")
        × (n.0 ≡ option.core_name)
        × (load option.core_name s.cores ≡ some n.1))
      ⊎ ((option.core_name ≡ "") × Suits info option n s.cores)

  select_core-IsChosen :
      (info : NodeInfo) (option : Options R) (s : Selector S) (n : String × S)
      → select_core core info option s ≡ some n
      → IsChosen info option n s
  unfolding select_core
  select_core-IsChosen info option s n h = elim (Bool-cases (option.core_name == "")) [
    | inl p ↦ elim (select_last-Suits info option s.cores none n (ground (arith, p, h))) [
      | inl e ↦ absurd (ground (arith, e))
      | inr a ↦ inr ((eq_iff option.core_name "").0 p, a)
    ]
    | inr p ↦ elim (Option-cases (load option.core_name s.cores)) [
      | inl e ↦ absurd (ground (arith, p, e, h))
      | inr (c, e) ↦
          let same : some (option.core_name, c) ≡ some n = ground (arith, p, e, h) in
          inl (
            λ q. absurd (ground (arith, p, (eq_iff option.core_name "").1 q)),
            ground (arith, same),
            e ∙ ground (arith, same),
          )
    ]
  ]

  -- The end of `AddNode`, after the core `n` has answered `r`.
  store_node-routes :
      (tag : String) (n : String × S) (s : Selector S) (r : S × Error)
      → let (s', e) = store_node core tag n.0 r s in
        ((e ≡ none)
          × (s'.nodes ≡ store tag n.0 s.nodes)
          × (node_core core tag s' ≡ some (n.0, r.0))
          × (r.1 ≡ none))
        ⊎ ((e ≢ none) × (s'.nodes ≡ s.nodes))
  store_node-routes tag n s (c, none) = inl (
    refl,
    refl,
    ground (
      arith,
      load-store tag tag n.0 s.nodes,
      load-store n.0 n.0 c s.cores,
      beq_refl tag,
      beq_refl n.0,
    ),
    refl,
  )
  store_node-routes tag n s (c, some e) = inr (λ p. absurd (ground (arith, p)), refl)

  -- When AddNode gives no error, the tag leads to a core that was rightly chosen, and what is there
  -- now is that core after it took the node with the options as they are left. When it gives an
  -- error, no tag leads elsewhere.
  pub add_node-routes :
      (unmarshal : Options R → Option (Options R)) (tag : String) (info : NodeInfo)
      (option : Options R) (s : Selector S)
      → let ((s', e), o) = add_node core unmarshal tag info option s in
        ((n : String × S) × (e ≡ none)
          × IsChosen info option n s
          × (s'.nodes ≡ store tag n.0 s.nodes)
          × (node_core core tag s' ≡ some (n.0, (core.add_node tag info o n.1).0))
          × ((core.add_node tag info o n.1).1 ≡ none))
        ⊎ ((e ≢ none) × (s'.nodes ≡ s.nodes))
  unfolding add_node
  add_node-routes unmarshal tag info option s =
      elim (Option-cases (select_core core info option s)) [
        | inl e ↦ rw (e, add_node) (inr (λ p. absurd (ground (arith, p)), refl))
        | inr (n, e) ↦ elim (Option-cases (decode_options core unmarshal option n.1)) [
          | inl d ↦ rw (e, add_node) (rw d (inr (λ p. absurd (ground (arith, p)), refl)))
          | inr (o, d) ↦
              rw (e, add_node)
                (rw d (elim (store_node-routes tag n s (core.add_node tag info o n.1)) [
                  | inl (p, q, w, f) ↦ inl (n, p, select_core-IsChosen info option s n e, q, w, f)
                  | inr f ↦ inr f
                ]))
        ]
      ]

  delete_node-routes :
      (tag other : String) (n : String × S) (s : Selector S) (r : S × Error)
      → let (s', e) = delete_node core tag n.0 r s in
        (e ≡ r.1)
        × (load other s'.nodes
            ≡ (if not (is_some e) && tag == other then none else load other s.nodes))
        × (load n.0 s'.cores ≡ some r.0)
  delete_node-routes tag other n s (c, none) = (
    refl,
    load-delete tag other s.nodes,
    ground (arith, load-store n.0 n.0 c s.cores, beq_refl n.0),
  )
  delete_node-routes tag other n s (c, some e) =
      (refl, refl, ground (arith, load-store n.0 n.0 c s.cores, beq_refl n.0))

  -- DelNode of a tag that leads to a core asks that core; the tag leads nowhere afterwards exactly
  -- when the core gave no error, and else still leads where it did. Other tags keep their cores.
  pub del_node-routes :
      (tag other : String) (s : Selector S) (n : String × S)
      → node_core core tag s ≡ some n
      → let (s', e) = del_node core tag s in
        (e ≡ (core.del_node tag n.1).1)
        × (load other s'.nodes
            ≡ (if not (is_some e) && tag == other then none else load other s.nodes))
        × (load n.0 s'.cores ≡ some (core.del_node tag n.1).0)
  unfolding del_node
  del_node-routes tag other s n h =
      rw (h, del_node) (delete_node-routes tag other n s (core.del_node tag n.1))
