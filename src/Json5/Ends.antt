-- ===== src/Json5/Ends.antt =====
-- The scan ends, and all that it does to a byte is to blank it.
use ccaa.Base.{
  ℕ, ◌+◌, ◌<◌, ◌||◌, ◌≡◌, ◌⊎◌, inl, inr, refl, ap, Option, some, ◌==◌, nat_eq, ltb, arith,
  Bool-cases,
}
use ccaa.Json5.{
  Scan, goes_on, move, blank, run, is_ws, consume_comment, string_turn, on, comma_turn, main_turn,
  prep,
}
use ccaa.Json5.Follows.{
  Follows, Follows-refl, Follows-trans, move-Follows, blank-Follows, IsGood, Ends, run-Ends,
  IsMoving, loop-moves,
}
use ccaa.Json5.Comments.{consume_comment-Ends}

string_turn-IsGood : (st : Scan) → IsGood st (string_turn st)
unfolding string_turn
string_turn-IsGood st = elim (Bool-cases (ltb st.at st.size)) [
  | inr p ↦ inl (st, rw (p, string_turn) refl, Follows-refl st)
  | inl p ↦
      let one = move-Follows (st.at + 1) st (omega arith) in
      elim (Bool-cases (st.byte st.at == 34)) [
        | inl q ↦ inl (move (st.at + 1) st, rw (p, string_turn) (rw q refl), one)
        | inr q ↦ elim (Bool-cases (st.byte st.at == 92)) [
          | inl r ↦ inr (
            move (st.at + 2) st,
            rw (p, string_turn) (rw q (rw r refl)),
            move-Follows (st.at + 2) st (omega arith),
            omega arith,
            ground (arith, p),
          )
          | inr r ↦ inr (
            move (st.at + 1) st,
            rw (p, string_turn) (rw q (rw r refl)),
            one,
            omega arith,
            ground (arith, p),
          )
        ]
      ]
]

-- The scan goes on from where it comes out of a loop that begins further on.
on-goes :
    (st begin : Scan) (o : Option Scan)
    → st.at < st.size
    → Follows st begin
    → st.at < begin.at
    → Ends begin o
    → (st' : Scan) × (on o ≡ some (goes_on st'))
      × Follows st st'
      × (st.at < st'.at)
      × (st.at < st.size)
on-goes st begin o p f more (r, e, g) =
    (r, ap on e, Follows-trans st begin r f g, ground (arith, more, g.1), p)

comma_turn-IsMoving : (j : ℕ) (st : Scan) → IsMoving st (comma_turn j st)
unfolding comma_turn
comma_turn-IsMoving j st =
    let next = move (st.at + 1) st in
    let c = st.byte next.at in
    let one = move-Follows (st.at + 1) st (omega arith) in
    elim (Bool-cases (ltb next.at next.size)) [
      | inr p ↦ inl (next, rw (p, comma_turn) refl, Follows-refl next)
      | inl p ↦ elim (Bool-cases (c == 125 || c == 93)) [
        | inl q ↦ inl (blank j next, rw (p, comma_turn) (rw q refl), blank-Follows j next)
        | inr q ↦ elim (Bool-cases (c == 47)) [
          | inl r ↦
              let two = move (st.at + 2) st in
              rw (p, comma_turn)
                (rw q (
                  rw r (
                    inr (
                      on-goes st two (consume_comment two) (ground (arith, p))
                        (move-Follows (st.at + 2) st (omega arith)) (omega arith)
                        (consume_comment-Ends two)))))
          | inr r ↦ elim (Bool-cases (is_ws c)) [
            | inl w ↦ inr (
              next,
              rw (p, comma_turn) (rw q (rw r (rw w refl))),
              one,
              omega arith,
              ground (arith, p),
            )
            | inr w ↦ inl (next, rw (p, comma_turn) (rw q (rw r (rw w refl))), Follows-refl next)
          ]
        ]
      ]
    ]

main_turn-IsGood : (st : Scan) → IsGood st (main_turn st)
unfolding main_turn
main_turn-IsGood st =
    let next = move (st.at + 1) st in
    let one = move-Follows (st.at + 1) st (omega arith) in
    elim (Bool-cases (ltb st.at st.size)) [
      | inr p ↦ inl (st, rw (p, main_turn) refl, Follows-refl st)
      | inl p ↦ elim (Bool-cases (st.byte st.at == 34)) [
        | inl q ↦
            rw (p, main_turn)
              (rw q (
                inr (
                  on-goes st next (run string_turn next) (ground (arith, p)) one (omega arith)
                    (run-Ends string_turn next string_turn-IsGood))))
        | inr q ↦ elim (Bool-cases (st.byte st.at == 47)) [
          | inl r ↦
              rw (p, main_turn)
                (rw q (
                  rw r (
                    inr (
                      on-goes st next (consume_comment next) (ground (arith, p)) one (omega arith)
                        (consume_comment-Ends next)))))
          | inr r ↦ elim (Bool-cases (st.byte st.at == 44)) [
            | inl w ↦
                rw (p, main_turn)
                  (rw q (
                    rw r (
                      rw w (
                        inr (
                          on-goes st next (run (comma_turn st.at) st) (ground (arith, p)) one
                            (omega arith)
                            (loop-moves (comma_turn st.at) (st.size + 1) st
                              (comma_turn-IsMoving st.at) (omega arith) (omega arith)))))))
            | inr w ↦ inr (
              next,
              rw (p, main_turn) (rw q (rw r (rw w refl))),
              one,
              omega arith,
              ground (arith, p),
            )
          ]
        ]
      ]
    ]

-- The removal of comments ends on every text, with fuel for as many turns of each loop as the whole
-- text has bytes and one more. The text keeps its size, and each byte of it is as it was or blank.
pub prep_lem :
    (byte : ℕ → ℕ) (size k : ℕ)
    → (st : Scan) × (prep byte size ≡ some st)
      × (st.size ≡ size)
      × ((st.byte k ≡ byte k) ⊎ (st.byte k ≡ 32))
unfolding prep
prep_lem byte size k =
    let st : Scan = record { byte = byte; size = size; at = 0 } in
    let (s, e, (p, q, r)) = run-Ends main_turn st main_turn-IsGood in (s, e, p, r k)
