-- ===== src/Core/Dispatcher/Sniffing/Handed.antt =====
-- What the reader of a sniffed connection hands on: first what is kept, then what it reads.
use ccaa.Base.{
  ℕ, zero, suc, ◌+◌, ◌≡◌, ◌⊎◌, inl, inr, refl, ap, ◌∙◌, List, [], ◌∷◌, ◌++◌, Option, none, some,
  arith,
}
use mathlib.Core.List.{append_assoc}
use ccaa.Core.Dispatcher.Sniffing.{Attempt, read_multi_buffer}

abbrev pub bytes_of : {U : Type 0} → Option (List U) → List U
bytes_of none = []
bytes_of (some mb) = mb

-- What k reads from the i-th on give.
abbrev pub inputs : {U : Type 0} → (ℕ → Attempt U) → ℕ → ℕ → List U
inputs attempts zero i = []
inputs attempts (suc k) i = bytes_of (attempts i).input ++ inputs attempts k (i + 1)

-- What a handler gets with m reads after the sniffing, where the next read of the reader is the i-th.
unfoldable pub handed_on : {U : Type 0} → ℕ → (ℕ → Attempt U) → ℕ → List U → List U
handed_on zero attempts i kept = []
handed_on (suc m) attempts i [] =
    let (got, kept) = read_multi_buffer (attempts i).input [] in
    bytes_of got ++ handed_on m attempts (i + 1) kept
handed_on (suc m) attempts i (b ∷ bs) =
    let (got, kept) = read_multi_buffer (attempts i).input (b ∷ bs) in
    bytes_of got ++ handed_on m attempts i kept

module _ {U : Type 0} (attempts : ℕ → Attempt U) where
  handed_on-none : (m i : ℕ) → handed_on m attempts i [] ≡ inputs attempts m i
  unfolding handed_on read_multi_buffer
  handed_on-none zero i = refl
  handed_on-none (suc m) i = ap (λ x. bytes_of (attempts i).input ++ x) (handed_on-none m (i + 1))

  inputs-add :
      (k m i j : ℕ)
      → j ≡ i + k
      → inputs attempts k i ++ inputs attempts m j ≡ inputs attempts (k + m) i
  inputs-add zero m i j e =
      let here : j ≡ i = omega arith in
      let same : m ≡ zero + m = omega arith in
      ap (inputs attempts m) here ∙ ap (λ x. inputs attempts x i) same
  inputs-add (suc k) m i j e =
      let first = bytes_of (attempts i).input in
      let more : suc (k + m) ≡ suc k + m = omega arith in
      append_assoc first (inputs attempts k (i + 1)) (inputs attempts m j)
      ∙ (ap (λ x. first ++ x) (inputs-add k m (i + 1) j (omega arith))
          ∙ ap (λ x. inputs attempts x i) more)

  -- The first read gives all that is kept, and is not one of the reader's unless nothing is.
  pub handed_on-kept :
      (m k : ℕ) (kept : List U)
      → kept ≡ inputs attempts k 0
      → (handed_on (suc m) attempts k kept ≡ inputs attempts (k + m) 0)
        ⊎ (handed_on (suc m) attempts k kept ≡ inputs attempts (k + suc m) 0)
  unfolding handed_on read_multi_buffer
  handed_on-kept m k [] e = inr (
      handed_on-none (suc m) k
      ∙ (ap (λ x. x ++ inputs attempts (suc m) k) e ∙ inputs-add k (suc m) 0 k (omega arith)))
  handed_on-kept m k (b ∷ bs) e = inl (
      ap (λ x. x ++ handed_on m attempts k []) e
      ∙ (ap (λ x. inputs attempts k 0 ++ x) (handed_on-none m k)
          ∙ inputs-add k m 0 k (omega arith)))
