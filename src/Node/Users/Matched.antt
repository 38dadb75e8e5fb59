-- ===== src/Node/Users/Matched.antt =====
-- Which users compareUserList keeps, adds and deletes, as members of the two lists.
use Prim.Native.String.{count}
use text.Mathlib.TextLemmas.{append_inj}
use ccaa.Base.{
  ℕ, zero, suc, ◌≡◌, ◌⊎◌, inl, inr, refl, sym, ap, ◌∙◌, String, string_eq, true, false, List, [],
  ◌∷◌, ◌++◌, some, Assoc, load, delete, ◌==◌, is_some, get_elem?, All, Any, arith, Bool-cases,
  Option-cases, subst,
}
use text.Mathlib.TextEquality.{eq_iff}
use ccaa.Panel.User.{UserInfo}
use ccaa.Limiter.Users.Known.{mentions}
use ccaa.Node.Users.{user_key, match_users, pick_users, compare_user_list, index_users}
use ccaa.Node.Users.Difference.{has_key, match_users-found, match_users-missing}

abbrev pub Member : UserInfo → List UserInfo → Type 0
Member u us = Any (λ w. w ≡ u) us

-- No uuid twice.
abbrev pub Distinct : List UserInfo → Type 0
Distinct [] = Unit
Distinct (u ∷ us) = (mentions u.uuid us ≡ false) × Distinct us

-- All uuids have the length n.
abbrev pub OfLength : ℕ → List UserInfo → Type 0
OfLength n us = All (λ u. count u.uuid ≡ n) us

pub Member-mentions : (u : UserInfo) (us : List UserInfo) → Member u us → mentions u.uuid us ≡ true
Member-mentions u [] h = elim h [ ]
Member-mentions u (w ∷ us) (inl e) = ground (arith, ap (λ x. x.uuid) e, eq_iff w.uuid u.uuid)
Member-mentions u (w ∷ us) (inr m) = ground (arith, Member-mentions u us m)

pub Member-has_key :
    (u : UserInfo) (us : List UserInfo) → Member u us → has_key (user_key u) us ≡ true
Member-has_key u [] h = elim h [ ]
Member-has_key u (w ∷ us) (inl e) = ground (arith, ap user_key e, eq_iff (user_key w) (user_key u))
Member-has_key u (w ∷ us) (inr m) = ground (arith, Member-has_key u us m)

pub mentions-Member :
    (v : String) (us : List UserInfo)
    → mentions v us ≡ true
    → (u : UserInfo) × Member u us × (u.uuid ≡ v)
mentions-Member v [] h = absurd (ground (arith, h))
mentions-Member v (w ∷ us) h = elim (Bool-cases (w.uuid == v)) [
  | inl p ↦ (w, inl refl, (eq_iff w.uuid v).0 p)
  | inr p ↦ let (u, m, e) = mentions-Member v us (ground (arith, h, p)) in (u, inr m, e)
]

pub has_key-Member :
    (k : String) (us : List UserInfo)
    → has_key k us ≡ true
    → (u : UserInfo) × Member u us × (user_key u ≡ k)
has_key-Member k [] h = absurd (ground (arith, h))
has_key-Member k (w ∷ us) h = elim (Bool-cases (user_key w == k)) [
  | inl p ↦ (w, inl refl, (eq_iff (user_key w) k).0 p)
  | inr p ↦ let (u, m, e) = has_key-Member k us (ground (arith, h, p)) in (u, inr m, e)
]

pub Member-All :
    (P : UserInfo → Type 0) (u : UserInfo) (us : List UserInfo) → Member u us → All P us → P u
Member-All P u [] m h = elim m [ ]
Member-All P u (w ∷ us) (inl e) h = subst P e h.0
Member-All P u (w ∷ us) (inr m) h = Member-All P u us m h.1

-- The uuid decides the user, in a list where none is there twice.
pub Distinct-same :
    (u w : UserInfo) (us : List UserInfo)
    → Distinct us
    → Member u us
    → Member w us
    → u.uuid ≡ w.uuid
    → u ≡ w
Distinct-same u w [] d p q e = elim p [ ]
Distinct-same u w (x ∷ us) d (inl p) (inl q) e = sym p ∙ q
Distinct-same u w (x ∷ us) d (inl p) (inr q) e =
    absurd (ground (arith, d.0, Member-mentions w us q, ap (λ y. y.uuid) p, e))
Distinct-same u w (x ∷ us) d (inr p) (inl q) e =
    absurd (ground (arith, d.0, Member-mentions u us p, ap (λ y. y.uuid) q, e))
Distinct-same u w (x ∷ us) d (inr p) (inr q) e = Distinct-same u w us d.1 p q e

Member-concat :
    (u w : UserInfo) (us : List UserInfo) → Member u (us ++ (w ∷ [])) → Member u us ⊎ (w ≡ u)
Member-concat u w [] (inr m) = elim m [ ]
Member-concat u w [] (inl e) = inr e
Member-concat u w (x ∷ us) (inl e) = inl (inl e)
Member-concat u w (x ∷ us) (inr m) = elim (Member-concat u w us m) [
  | inl n ↦ inl (inr n)
  | inr e ↦ inr e
]

match_users-Member :
    (u : UserInfo) (us : List UserInfo) (m : Assoc String ℕ) (added : List UserInfo)
    → Member u (match_users us (m, added)).1
    → Member u us ⊎ Member u added
unfolding match_users
match_users-Member u [] m added h = inr h
match_users-Member u (w ∷ us) m added h = elim (Bool-cases (is_some (load (user_key w) m))) [
  | inl p ↦
      elim (match_users-Member u us (delete (user_key w) m) added
        (subst (λ s. Member u s.1) (match_users-found w us m added p) h)) [
          | inl n ↦ inl (inr n)
          | inr n ↦ inr n
        ]
  | inr p ↦
      elim (match_users-Member u us m (added ++ (w ∷ []))
        (subst (λ s. Member u s.1) (match_users-missing w us m added p) h)) [
          | inl n ↦ inl (inr n)
          | inr n ↦ elim (Member-concat u w added n) [ inl a ↦ inr a | inr e ↦ inl (inl e) ]
        ]
]

get_elem?-Member :
    (us : List UserInfo) (i : ℕ) (u : UserInfo) → get_elem? us i ≡ some u → Member u us
get_elem?-Member [] i u h = absurd (cc)
get_elem?-Member (x ∷ us) zero u h = inl (ground (arith, h))
get_elem?-Member (x ∷ us) (suc i) u h = inr (get_elem?-Member us i u h)

pick_users-Member :
    (u : UserInfo) (old : List UserInfo) (m : Assoc String ℕ)
    → Member u (pick_users old m)
    → Member u old
unfolding pick_users
pick_users-Member u old [] h = elim h [ ]
pick_users-Member u old ((k, i) ∷ m) h = elim (Option-cases (get_elem? old i)) [
  | inl e ↦ pick_users-Member u old m (rw (e, pick_users) at h)
  | inr (w, e) ↦ elim (rw (e, pick_users) at h) as (λ _. Member u old) [
    | inl p ↦ get_elem?-Member old i u (e ∙ ap some p)
    | inr n ↦ pick_users-Member u old m n
  ]
]

-- The deleted users are of the old list, the added users of the new one.
pub compare_user_list-Member :
    (u : UserInfo) (old us : List UserInfo)
    → let (deleted, added) = compare_user_list old us in
      (Member u deleted → Member u old) × (Member u added → Member u us)
unfolding compare_user_list
compare_user_list-Member u old us =
    let m = index_users 0 old [] in
    (
      λ h. pick_users-Member u old (match_users us (m, [])).0 h,
      λ h. elim (match_users-Member u us m [] h) [ inl n ↦ n | inr n ↦ absurd n ],
    )

-- Keys of uuids of one length tell the uuids apart.
pub user_key_tells :
    (n : ℕ) (u w : UserInfo)
    → count u.uuid ≡ n
    → count w.uuid ≡ n
    → user_key u ≡ user_key w
    → u.uuid ≡ w.uuid
unfolding user_key
user_key_tells n u w p q e = (append_inj e (p ∙ sym q)).0
