-- ===== src/Json5/Tests.antt =====
-- The removal of comments at a concrete text: the comment {/*a*b*/} is blanked but for its b.
use ccaa.Base.{ℕ, ◌≡◌, ◌⊎◌, some, Option, List, [], ◌∷◌, none, get_elem?, refl}
use ccaa.Json5.{
  Scan, prep, loop, main_turn, consume_comment, line_turn, block_turn, string_turn, comma_turn,
  blank,
}
use ccaa.Json5.Ends.{prep_lem}

abbrev byte_of : Option ℕ → ℕ
byte_of none = 0
byte_of (some b) = b

abbrev text : ℕ → ℕ
text k = byte_of (get_elem? (123 ∷ 47 ∷ 42 ∷ 97 ∷ 42 ∷ 98 ∷ 42 ∷ 47 ∷ 125 ∷ []) k)

prep_lem_example :
    (st : Scan) × (prep text 9 ≡ some st)
    × (st.size ≡ 9)
    × ((st.byte 5 ≡ text 5) ⊎ (st.byte 5 ≡ 32))
prep_lem_example = prep_lem text 9 5

abbrev result : Option Scan → List ℕ
result none = []
result (some st) =
    st.byte 0
    ∷ st.byte 1
    ∷ st.byte 2
    ∷ st.byte 3
    ∷ st.byte 4
    ∷ st.byte 5
    ∷ st.byte 6
    ∷ st.byte 7
    ∷ st.byte 8
    ∷ []

starred_comment_left : result (prep text 9) ≡ 123 ∷ 32 ∷ 32 ∷ 32 ∷ 32 ∷ 98 ∷ 32 ∷ 32 ∷ 125 ∷ []
unfolding prep loop main_turn consume_comment line_turn block_turn string_turn comma_turn blank
starred_comment_left = refl
