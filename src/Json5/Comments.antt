-- ===== src/Json5/Comments.antt =====
-- The comments: consumeComment ends.
use ccaa.Base.{
  ◌+◌, ◌-◌, true, ◌≡◌, inl, inr, refl, ap, ◌∙◌, some, ◌==◌, nat_eq, ltb, arith, Bool-cases,
}
use ccaa.Json5.{
  Scan, move, blank, is_nl, line_turn, after_star, block_turn, stands_at, consume_line,
  consume_block, then_block, consume_comment,
}
use ccaa.Json5.Follows.{
  Follows-refl, Follows-trans, blank-Follows, blank-move, IsGood, Ends, run-Ends,
}

line_turn-IsGood : (st : Scan) → IsGood st (line_turn st)
unfolding line_turn
line_turn-IsGood st = elim (Bool-cases (ltb st.at st.size)) [
  | inr p ↦ inl (st, rw (p, line_turn) refl, Follows-refl st)
  | inl p ↦ elim (Bool-cases (is_nl (st.byte st.at))) [
    | inl q ↦ inl (st, rw (p, line_turn) (rw q refl), Follows-refl st)
    | inr q ↦ inr (
      move (st.at + 1) (blank st.at st),
      rw (p, line_turn) (rw q refl),
      blank-move st.at (st.at + 1) st (omega arith),
      omega arith,
      ground (arith, p),
    )
  ]
]

after_star-IsGood : (st : Scan) → ltb st.at st.size ≡ true → IsGood st (some (after_star st))
after_star-IsGood st p =
    let two = blank-move st.at (st.at + 2) st (omega arith) in
    elim (Bool-cases (ltb (st.at + 1) st.size)) [
      | inr q ↦
          inr (move (st.at + 2) (blank st.at st), rw q refl, two, omega arith, ground (arith, p))
      | inl q ↦ elim (Bool-cases (st.byte (st.at + 1) == 47)) [
        | inr r ↦ inr (
          move (st.at + 2) (blank st.at st),
          rw q (rw r refl),
          two,
          omega arith,
          ground (arith, p),
        )
        | inl r ↦ inl (
          move (st.at + 1) (blank (st.at + 1) (blank st.at st)),
          rw q (rw r refl),
          Follows-trans st (move (st.at + 1) (blank st.at st))
              (move (st.at + 1) (blank (st.at + 1) (blank st.at st)))
              (blank-move st.at (st.at + 1) st (omega arith))
              (let (u, v, w) = blank-Follows (st.at + 1) (blank st.at st) in (u, omega arith, w)),
        )
      ]
    ]

block_turn-IsGood : (st : Scan) → IsGood st (block_turn st)
unfolding block_turn
block_turn-IsGood st = elim (Bool-cases (ltb st.at st.size)) [
  | inr p ↦ inl (st, rw (p, block_turn) refl, Follows-refl st)
  | inl p ↦ elim (Bool-cases (st.byte st.at == 42)) [
    | inl q ↦ rw (p, block_turn) (rw q (after_star-IsGood st p))
    | inr q ↦ inr (
      move (st.at + 1) (blank st.at st),
      rw (p, block_turn) (rw q refl),
      blank-move st.at (st.at + 1) st (omega arith),
      omega arith,
      ground (arith, p),
    )
  ]
]

consume_line-Ends : (st : Scan) → Ends st (consume_line st)
consume_line-Ends st = elim (Bool-cases (stands_at 47 st)) [
  | inr p ↦ (st, rw p refl, Follows-refl st)
  | inl p ↦
      let s = blank (st.at - 1) st in
      let (r, e, f) = run-Ends line_turn s line_turn-IsGood in
      (r, rw p e, Follows-trans st s r (blank-Follows (st.at - 1) st) f)
]

consume_block-Ends : (st : Scan) → Ends st (consume_block st)
consume_block-Ends st = elim (Bool-cases (stands_at 42 st)) [
  | inr p ↦ (st, rw p refl, Follows-refl st)
  | inl p ↦
      let a = blank (st.at - 1) st in
      let b = blank st.at a in
      let (r, e, f) = run-Ends block_turn b block_turn-IsGood in
      let g = Follows-trans st a b (blank-Follows (st.at - 1) st) (blank-Follows st.at a) in
      (r, rw p e, Follows-trans st b r g f)
]

pub consume_comment-Ends : (st : Scan) → Ends st (consume_comment st)
unfolding consume_comment
consume_comment-Ends st =
    let (a, e, f) = consume_line-Ends st in
    let (b, e', f') = consume_block-Ends a in (b, ap then_block e ∙ e', Follows-trans st a b f f')
