-- ===== src/Base/Text.antt =====
-- What the program calls of Go's `strings`, over the native texts.
use Prim.Native.Char.{code}
use Prim.Native.Nat.{ℕ}
use Prim.Native.String.{String, [], ◌∷◌, ◌++◌, len, slice}
use mathlib.Core.List as L
use mathlib.Core.List.{List}
use mathlib.Core.Path.{◌≡◌, refl}
use mathlib.Core.Bool.{Bool, true, false}
use text.Mathlib.Text.{starts_with}
use text.Mathlib.TextLemmas.{append_cancel_left}
use ccaa.Base.Tests.{nat_beq, if◌then◌else◌}

abbrev pub str_append : String → String → String
str_append s t = s ++ t

-- `strings.HasPrefix`
abbrev pub has_prefix : String → String → Bool
has_prefix s p = starts_with s p

-- `strings.TrimPrefix`
abbrev pub trim_prefix : String → String → String
trim_prefix s p = if has_prefix s p then slice s (len p) (len s) else s

-- `strings.Split` at one character; the first argument is the part that is being read.
unfoldable pub split_from : ℕ → String → String → List String
split_from c part [] = L.◌∷◌ part L.[]
split_from c part (ch ∷ s) =
    let closed = split_from c "" s in
    let longer = split_from c (part ++ (ch ∷ [])) s in
    if nat_beq (code ch) c then L.◌∷◌ part closed else longer

unfoldable pub split : ℕ → String → List String
split c s = split_from c "" s

-- `strings.Contains` of one character.
unfoldable pub contains_char : ℕ → String → Bool
contains_char c [] = false
contains_char c (ch ∷ s) =
    let rest = contains_char c s in if nat_beq (code ch) c then true else rest

pub str_append_cancel : (s t u : String) → str_append s t ≡ str_append s u → t ≡ u
str_append_cancel s t u h = append_cancel_left s t u h

trim_mapped : trim_prefix "::ffff:10.0.0.1" "::ffff:" ≡ "10.0.0.1"
trim_mapped = refl

trim_other : trim_prefix "::1" "::ffff:" ≡ "::1"
trim_other = refl

split_example : split 44 "a,,b" ≡ L.◌∷◌ "a" (L.◌∷◌ "" (L.◌∷◌ "b" L.[]))
unfolding split split_from
split_example = refl

contains_example : (contains_char 58 "::1" ≡ true) × (contains_char 58 "10.0.0.1" ≡ false)
unfolding contains_char
contains_example = (refl, refl)
