-- ===== src/Json5/Follows.antt =====
-- How a loop over the text moves on, and what it leaves of the text.
use ccaa.Base.{
  ℕ, zero, suc, ◌+◌, ◌≤◌, ◌<◌, ◌≡◌, ◌⊎◌, inl, inr, refl, ◌∙◌, Option, some, ◌==◌, nat_eq, arith,
  Bool-cases,
}
use ccaa.Json5.{Scan, Turn, stops, goes_on, move, blank, loop, run}

-- One scan comes from another: the size is the same, it has not gone back, and each byte is as it
-- was or blank.
abbrev pub Follows : Scan → Scan → Type 0
Follows st st' =
    (st'.size ≡ st.size)
    × (st.at ≤ st'.at)
    × ((k : ℕ) → (st'.byte k ≡ st.byte k) ⊎ (st'.byte k ≡ 32))

pub Follows-refl : (st : Scan) → Follows st st
Follows-refl st = (refl, omega arith, λ k. inl refl)

pub Follows-trans : (a b c : Scan) → Follows a b → Follows b c → Follows a c
Follows-trans a b c (p, q, r) (p', q', r') = (
  p' ∙ p,
  omega arith,
  λ k. elim (r' k) [
    | inr e ↦ inr e
    | inl e ↦ elim (r k) [ inl f ↦ inl (e ∙ f) | inr f ↦ inr (e ∙ f) ]
  ],
)

pub move-Follows : (i : ℕ) (st : Scan) → st.at ≤ i → Follows st (move i st)
move-Follows i st h = (refl, h, λ k. inl refl)

pub blank-Follows : (i : ℕ) (st : Scan) → Follows st (blank i st)
unfolding blank
blank-Follows i st = (
  refl,
  omega arith,
  λ k. elim (Bool-cases (k == i)) [ inl p ↦ inr (rw p refl) | inr p ↦ inl (rw p refl) ],
)

pub blank-move : (k i : ℕ) (st : Scan) → st.at ≤ i → Follows st (move i (blank k st))
blank-move k i st h = let (p, q, r) = blank-Follows k st in (p, h, r)

-- A turn ends the loop, or moves on inside the slice.
abbrev pub IsGood : Scan → Option Turn → Type 0
IsGood st turn =
    ((st' : Scan) × (turn ≡ some (stops st')) × Follows st st')
    ⊎ ((st' : Scan) × (turn ≡ some (goes_on st'))
        × Follows st st'
        × (st.at < st'.at)
        × (st.at < st.size))

abbrev pub Ends : Scan → Option Scan → Type 0
Ends st o = (st' : Scan) × (o ≡ some st') × Follows st st'

loop-Ends :
    (body : Scan → Option Turn) (fuel : ℕ) (st : Scan)
    → ((s : Scan) → IsGood s (body s))
    → st.size < fuel + st.at
    → 0 < fuel
    → Ends st (loop fuel body st)
unfolding loop
loop-Ends body zero st good h z = absurd (omega arith)
loop-Ends body (suc fuel) st good h z = elim (good st) [
  | inl (s, e, f) ↦ (s, rw (e, loop) refl, f)
  | inr (s, e, f, more, less) ↦
      let (r, p, g) =
        loop-Ends body fuel s good (ground (arith, f.0, h, more)) (ground (arith, h, less)) in
      (r, rw (e, loop) p, Follows-trans st s r f g)
]

pub run-Ends :
    (body : Scan → Option Turn) (st : Scan)
    → ((s : Scan) → IsGood s (body s))
    → Ends st (run body st)
run-Ends body st good = loop-Ends body (st.size + 1) st good (omega arith) (omega arith)

-- A turn that moves on also where it ends the loop.
abbrev pub IsMoving : Scan → Option Turn → Type 0
IsMoving st turn =
    ((st' : Scan) × (turn ≡ some (stops st')) × Follows (move (st.at + 1) st) st')
    ⊎ ((st' : Scan) × (turn ≡ some (goes_on st'))
        × Follows st st'
        × (st.at < st'.at)
        × (st.at < st.size))

IsMoving-IsGood : (st : Scan) (turn : Option Turn) → IsMoving st turn → IsGood st turn
IsMoving-IsGood st turn (inr g) = inr g
IsMoving-IsGood st turn (inl (s, e, f)) =
    inl
      (s, e, Follows-trans st (move (st.at + 1) st) s (move-Follows (st.at + 1) st (omega arith)) f)

pub loop-moves :
    (body : Scan → Option Turn) (fuel : ℕ) (st : Scan)
    → ((s : Scan) → IsMoving s (body s))
    → st.size < fuel + st.at
    → 0 < fuel
    → Ends (move (st.at + 1) st) (loop fuel body st)
unfolding loop
loop-moves body zero st moving h z = absurd (omega arith)
loop-moves body (suc fuel) st moving h z = elim (moving st) [
  | inl (s, e, f) ↦ (s, rw (e, loop) refl, f)
  | inr (s, e, f, more, less) ↦
      let (r, p, g) =
        loop-Ends body fuel s (λ x. IsMoving-IsGood x (body x) (moving x))
          (ground (arith, f.0, h, more)) (ground (arith, h, less)) in
      (
        r,
        rw (e, loop) p,
        Follows-trans (move (st.at + 1) st) s r (f.0, ground (arith, more), f.2) g,
      )
]
