-- ===== src/Base/Equality.antt =====
-- Go's `==` on the types that the program uses as map keys and compares.
use Prim.Native.Nat.{ℕ}
use Prim.Native.String.{String}
use mathlib.Core.Path.{◌≡◌, refl}
use mathlib.Core.Logic.{◌↔◌, ◌⊎◌, inl, inr}
use mathlib.Core.Bool.{Bool, true, false, ◌||◌}
use text.Mathlib.Text.{◌==◌ as str_beq}
use text.Mathlib.TextEquality.{eq_iff}
use ccaa.Base.Tests.{nat_beq, nat_beq_iff}
use ccaa.Base.Int.{ℤ, int_beq, int_beq_iff}

-- A test for equality, and that it decides equality.
pub record Comparable {ℓ} (K : Type ℓ) : Type ℓ where
  pub same : K → K → Bool
  pub same_iff : (j k : K) → (same j k ≡ true) ↔ (j ≡ k)

infix 50 ◌==◌
abbrev pub ◌==◌ {ℓ} : {K : Type ℓ} ⦃e : Comparable K⦄ (j k : K) → Bool
◌==◌ ⦃e⦄ j k = e.same j k

instance abbrev pub string_eq : Comparable String
string_eq = record { same = str_beq; same_iff = eq_iff }

instance abbrev pub int_eq : Comparable ℤ
int_eq = record { same = int_beq; same_iff = int_beq_iff }

instance abbrev pub nat_eq : Comparable ℕ
nat_eq = record { same = nat_beq; same_iff = nat_beq_iff }

pub beq_refl {ℓ} : {K : Type ℓ} ⦃e : Comparable K⦄ (k : K) → (k == k) ≡ true
beq_refl ⦃e⦄ k = (e.same_iff k k).1 (λ _. k)

-- Either test holds.
either_beq :
    (a b : Bool) (s j k : String)
    → (a ≡ true → s ≡ j)
    → (b ≡ true → s ≡ k)
    → (a || b) ≡ true
    → (s ≡ j) ⊎ (s ≡ k)
either_beq true b s j k f g e = inl (f refl)
either_beq false b s j k f g e = inr (g e)

pub beq_or : (s j k : String) → (s == j || s == k) ≡ true → (s ≡ j) ⊎ (s ≡ k)
beq_or s j k e = either_beq (s == j) (s == k) s j k (eq_iff s j).0 (eq_iff s k).0 e
