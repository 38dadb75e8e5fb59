-- ===== src/Json5.antt =====
-- common/json5/json5.go: what NewTrimNodeReader does to a text before it is read as JSON. The slice
-- is a length and the byte at each index; bytes are numbers.
pub mod Follows
pub mod Comments
pub mod Ends
mod Tests
use ccaa.Base.{
  ℕ, zero, suc, ◌+◌, ◌-◌, Bool, true, false, ◌||◌, Option, none, some, ◌==◌, nat_eq, if◌then◌else◌,
  ltb,
}

pub record Scan : Type 0 where
  pub byte : ℕ → ℕ
  pub size : ℕ
  pub at : ℕ

-- What one turn of a `for` does: it ends the loop, or the loop goes on.
pub data Turn : Type 0 where
  stops goes_on : Scan → Turn

abbrev pub move : ℕ → Scan → Scan
move i st = record st { at = i }

-- `s[i] = ' '`
unfoldable pub blank : ℕ → Scan → Scan
blank i st = record st { byte = λ k. if k == i then 32 else st.byte k }

-- A `for`; `none` at the end of the fuel.
unfoldable pub loop : ℕ → (Scan → Option Turn) → Scan → Option Scan
loop zero body st = none
loop (suc fuel) body st = elim (body st) [
  | none ↦ none
  | some turn ↦ elim turn [ stops st' ↦ some st' | goes_on st' ↦ loop fuel body st' ]
]

-- A loop over the rest of the slice: each turn but the last moves on.
abbrev pub run : (Scan → Option Turn) → Scan → Option Scan
run body st = loop (st.size + 1) body st

abbrev pub is_nl : ℕ → Bool
is_nl c = c == 10 || c == 13

abbrev pub is_ws : ℕ → Bool
is_ws c = c == 32 || (c == 9 || is_nl c)

-- The rest of a line.
unfoldable pub line_turn : Scan → Option Turn
line_turn st =
    if ltb st.at st.size
    then if is_nl (st.byte st.at)
      then some (stops st)
      else some (goes_on (move (st.at + 1) (blank st.at st)))
    else some (stops st)

-- After a star: a slash ends the comment, and another byte is passed over as it is.
abbrev pub after_star : Scan → Turn
after_star st =
    if ltb (st.at + 1) st.size
    then if st.byte (st.at + 1) == 47
      then stops (move (st.at + 1) (blank (st.at + 1) (blank st.at st)))
      else goes_on (move (st.at + 2) (blank st.at st))
    else goes_on (move (st.at + 2) (blank st.at st))

unfoldable pub block_turn : Scan → Option Turn
block_turn st =
    if ltb st.at st.size
    then if st.byte st.at == 42
      then some (after_star st)
      else some (goes_on (move (st.at + 1) (blank st.at st)))
    else some (stops st)

-- The scan stands at a byte of that number.
abbrev pub stands_at : ℕ → Scan → Bool
stands_at c st = if ltb st.at st.size then st.byte st.at == c else false

-- `consumeComment`: the scan is behind a slash. A line, then a block.
abbrev pub consume_line : Scan → Option Scan
consume_line st = if stands_at 47 st then run line_turn (blank (st.at - 1) st) else some st

abbrev pub consume_block : Scan → Option Scan
consume_block st =
    if stands_at 42 st then run block_turn (blank st.at (blank (st.at - 1) st)) else some st

abbrev pub then_block : Option Scan → Option Scan
then_block none = none
then_block (some st) = consume_block st

unfoldable pub consume_comment : Scan → Option Scan
consume_comment st = then_block (consume_line st)

-- Within a string.
unfoldable pub string_turn : Scan → Option Turn
string_turn st =
    if ltb st.at st.size
    then if st.byte st.at == 34
      then some (stops (move (st.at + 1) st))
      else if st.byte st.at == 92
      then some (goes_on (move (st.at + 2) st))
      else some (goes_on (move (st.at + 1) st))
    else some (stops st)

abbrev pub on : Option Scan → Option Turn
on none = none
on (some st) = some (goes_on st)

-- Behind the comma at j.
unfoldable pub comma_turn : ℕ → Scan → Option Turn
comma_turn j st =
    let next = move (st.at + 1) st in
    if ltb next.at next.size
    then if st.byte next.at == 125 || st.byte next.at == 93
      then some (stops (blank j next))
      else if st.byte next.at == 47
      then on (consume_comment (move (st.at + 2) st))
      else if is_ws (st.byte next.at)
      then some (goes_on next)
      else some (stops next)
    else some (stops next)

unfoldable pub main_turn : Scan → Option Turn
main_turn st =
    if ltb st.at st.size
    then if st.byte st.at == 34
      then on (run string_turn (move (st.at + 1) st))
      else if st.byte st.at == 47
      then on (consume_comment (move (st.at + 1) st))
      else if st.byte st.at == 44
      then on (run (comma_turn st.at) st)
      else some (goes_on (move (st.at + 1) st))
    else some (stops st)

-- `prep`, of a text that is read without an error.
unfoldable pub prep : (ℕ → ℕ) → ℕ → Option Scan
prep byte size = run main_turn (record { byte = byte; size = size; at = 0 })
