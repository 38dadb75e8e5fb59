-- ===== src/Core/Dispatcher/Managed.antt =====
-- linkmanager.go: to close all links of a user closes each of them.
use ccaa.Base.{
  ℕ, nat_eq, ◌≡◌, inl, inr, refl, List, [], ◌∷◌, ◌++◌, none, some, load, load-delete, ◌==◌, arith,
  Any, Bool-cases, nat_beq_iff,
}
use ccaa.Core.Dispatcher.{
  ManagedLink, LinkManager, Effect, close_ends, remove_writer, close_links, close_all,
}

-- The effect is among those of the list.
abbrev IsDone : Effect → List Effect → Type 0
IsDone e out = Any (λ f. f ≡ e) out

IsDone-front : (e : Effect) (xs ys : List Effect) → IsDone e xs → IsDone e (xs ++ ys)
IsDone-front e [] ys h = elim h [ ]
IsDone-front e (x ∷ xs) ys h = elim h [ inl p ↦ inl p | inr q ↦ inr (IsDone-front e xs ys q) ]

IsDone-back : (e : Effect) (xs ys : List Effect) → IsDone e ys → IsDone e (xs ++ ys)
IsDone-back e [] ys h = h
IsDone-back e (x ∷ xs) ys h = inr (IsDone-back e xs ys h)

module _ {B : Type 0} where
  close_links-left :
      (w : ℕ) (ls m : LinkManager B)
      → load w (close_links ls m).0 ≡ (elim (load w ls) [ none ↦ load w m | some l ↦ none ])
  unfolding close_links remove_writer load
  close_links-left w [] m = refl
  close_links-left w ((i, l) ∷ ls) m =
      ground (arith, close_links-left w ls (remove_writer i m), load-delete i w m, nat_beq_iff i w)

  close_links-IsDone :
      (e : Effect) (w : ℕ) (l : ManagedLink B) (ls m : LinkManager B)
      → load w ls ≡ some l
      → IsDone e (close_ends l.writer l.reader)
      → IsDone e (close_links ls m).1
  unfolding close_links load
  close_links-IsDone e w l [] m h d = absurd cc
  close_links-IsDone e w l ((i, k) ∷ ls) m h d = elim (Bool-cases (i == w)) [
    | inl p ↦
        let same : some k ≡ some l = ground (arith, p, h) in
        let entry : k ≡ l = ground (arith, same) in
        IsDone-front e (close_ends k.writer k.reader) (close_links ls (remove_writer i m)).1
          (rw entry d)
    | inr p ↦
        IsDone-back e (close_ends k.writer k.reader) (close_links ls (remove_writer i m)).1
          (close_links-IsDone e w l ls (remove_writer i m) (ground (arith, p, h)) d)
  ]

  -- CloseAll leaves no link managed, and does to each link that was managed what closes it: its
  -- writer is closed, and its reader interrupted as far as the reader hands an interrupt on.
  close_all_lem :
      (e : Effect) (i w : ℕ) (l : ManagedLink B) (m : LinkManager B)
      → load w m ≡ some l
      → IsDone e (close_ends l.writer l.reader)
      → let (m', out) = close_all m in (load i m' ≡ none) × IsDone e out
  unfolding close_all
  close_all_lem e i w l m h d =
      (ground (arith, close_links-left i m m), close_links-IsDone e w l m m h d)
