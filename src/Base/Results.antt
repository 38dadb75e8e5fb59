-- ===== src/Base/Results.antt =====
-- What a Go function of a value and an error gives: a value, an error's text, or a panic.
use Prim.Native.String.{String}
use mathlib.Core.Path.{◌≡◌, refl}
use mathlib.Core.Logic.{◌⊎◌, inl, inr}
use mathlib.Core.Bool.{Bool, true, false}
use ccaa.Base.Tests.{if◌then◌else◌}

pub data Result {ℓ} (A : Type ℓ) : Type ℓ where
  ok : A → Result A
  err : String → Result A
  panicked : Result A

infixl 5 ◌>>=◌ ◌>>◌
abbrev pub ◌>>=◌ {ℓ κ} : {A : Type ℓ} {B : Type κ} → Result A → (A → Result B) → Result B
ok a >>= f = f a
err e >>= f = err e
panicked >>= f = panicked

abbrev pub ◌>>◌ {ℓ} : {B : Type ℓ} → Result (Unit {0}) → Result B → Result B
m >> k = m >>= λ _. k

-- `if c { return err }`
abbrev pub refuse_if : Bool → String → Result (Unit {0})
refuse_if true e = err e
refuse_if false e = ok tt

-- A result of a library's function that does not panic.
abbrev pub of_sum {ℓ} : {A : Type ℓ} → String ⊎ A → Result A
of_sum (inl e) = err e
of_sum (inr a) = ok a

-- No panic, and every value that is given has the property.
abbrev pub Gives {ℓ} : {A : Type ℓ} → (A → Type 0) → Result A → Type 0
Gives P (ok a) = P a
Gives P (err e) = Unit
Gives P panicked = ⊥

pub bind-Gives {ℓ κ} :
    {A : Type ℓ} {B : Type κ} (P : A → Type 0) (Q : B → Type 0) (m : Result A) (f : A → Result B)
    → Gives P m
    → ((a : A) → m ≡ ok a → P a → Gives Q (f a))
    → Gives Q (m >>= f)
bind-Gives P Q (ok a) f h k = k a refl h
bind-Gives P Q (err e) f h k = tt
bind-Gives P Q panicked f h k = h

module _ {ℓ} {A : Type ℓ} (P : A → Type 0) where
  pub if-Gives :
      (b : Bool) (x y : Result A)
      → (b ≡ true → Gives P x)
      → (b ≡ false → Gives P y)
      → Gives P (if b then x else y)
  if-Gives true x y h k = h refl
  if-Gives false x y h k = k refl

  pub refuse_if-Gives :
      (b : Bool) (e : String) (m : Result A)
      → (b ≡ false → Gives P m)
      → Gives P (refuse_if b e >> m)
  refuse_if-Gives true e m h = tt
  refuse_if-Gives false e m h = h refl

  pub of_sum-Gives : (r : String ⊎ A) → ((a : A) → r ≡ inr a → P a) → Gives P (of_sum r)
  of_sum-Gives (inl e) h = tt
  of_sum-Gives (inr a) h = h a refl

pub Gives-map {ℓ} :
    {A : Type ℓ} (P Q : A → Type 0) (m : Result A) → Gives P m → ((a : A) → P a → Q a) → Gives Q m
Gives-map P Q (ok a) h k = k a h
Gives-map P Q (err e) h k = tt
Gives-map P Q panicked h k = h

-- What a first step has given when a chain has a result.
pub bind-ok {ℓ κ} :
    {A : Type ℓ} {B : Type κ} (m : Result A) (f : A → Result B) (b : B)
    → (m >>= f) ≡ ok b
    → (a : A) × (m ≡ ok a) × (f a ≡ ok b)
bind-ok (ok a) f b h = (a, refl, h)
bind-ok (err e) f b h = absurd (cc)
bind-ok panicked f b h = absurd (cc)

pub ok-injective {ℓ} : {A : Type ℓ} {a b : A} → ok a ≡ ok b → a ≡ b
ok-injective h = cc
