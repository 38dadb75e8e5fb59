-- ===== src/Node/Users/Difference.antt =====
-- compareUserList computes the difference of two lists of users, by their keys.
use ccaa.Base.{
  ℕ, ◌+◌, ◌≡◌, ◌⊎◌, inl, inr, refl, sym, ◌∙◌, String, string_eq, Bool, true, false, not, ◌&&◌, ◌||◌,
  List, [], ◌∷◌, ◌++◌, none, some, Assoc, load, store, delete, load-store, load-delete, ◌==◌,
  if◌then◌else◌, is_some, get_elem?, All, arith, Bool-cases, length, length-append,
}
use mathlib.Core.List.{append_assoc}
use text.Mathlib.TextEquality.{eq_iff}
use ccaa.Panel.User.{UserInfo}
use ccaa.Node.Users.{user_key, index_users, match_users, pick_users, compare_user_list}

abbrev pub has_key : String → List UserInfo → Bool
has_key k [] = false
has_key k (u ∷ us) = user_key u == k || has_key k us

has_key-concat :
    (k : String) (us : List UserInfo) (u : UserInfo)
    → has_key k (us ++ (u ∷ [])) ≡ (has_key k us || user_key u == k)
has_key-concat k [] u = ground arith
has_key-concat k (v ∷ us) u = ground (arith, has_key-concat k us u)

-- An entry leads to a user of the list with its key.
abbrev IsEntry : List UserInfo → String × ℕ → Type 0
IsEntry old e = (u : UserInfo) × (get_elem? old e.1 ≡ some u) × (user_key u ≡ e.0)

abbrev Valid : List UserInfo → Assoc String ℕ → Type 0
Valid old m = All (IsEntry old) m

Valid-store :
    (old : List UserInfo) (k : String) (i : ℕ) (m : Assoc String ℕ)
    → IsEntry old (k, i)
    → Valid old m
    → Valid old (store k i m)
unfolding store
Valid-store old k i [] e v = (e, tt)
Valid-store old k i ((j, w) ∷ m) e v = elim (Bool-cases (j == k)) [
  | inl p ↦ rw p ((e.0, e.1, e.2 ∙ sym ((eq_iff j k).0 p)), v.1)
  | inr p ↦ rw p (v.0, Valid-store old k i m e v.1)
]

Valid-delete :
    (old : List UserInfo) (k : String) (m : Assoc String ℕ) → Valid old m → Valid old (delete k m)
unfolding delete
Valid-delete old k [] v = tt
Valid-delete old k ((j, w) ∷ m) v = elim (Bool-cases (j == k)) [
  | inl p ↦ rw p (Valid-delete old k m v.1)
  | inr p ↦ rw p (v.0, Valid-delete old k m v.1)
]

get_elem?-append :
    (pre us : List UserInfo) (u : UserInfo) → get_elem? (pre ++ (u ∷ us)) (length pre) ≡ some u
get_elem?-append [] us u = refl
get_elem?-append (p ∷ pre) us u = get_elem?-append pre us u

-- The index of `us`, which stands behind `pre`.
index_users-Valid :
    (old pre us : List UserInfo) (i : ℕ) (m : Assoc String ℕ)
    → old ≡ pre ++ us
    → i ≡ length pre
    → Valid old m
    → Valid old (index_users i us m)
unfolding index_users
index_users-Valid old pre [] i m p q v = v
index_users-Valid old pre (u ∷ us) i m p q v =
    let entry : IsEntry old (user_key u, i) = (u, rw (p, q) (get_elem?-append pre us u), refl) in
    index_users-Valid old (pre ++ (u ∷ [])) us (i + 1) (store (user_key u) i m)
      (p ∙ sym (append_assoc pre (u ∷ []) us)) (omega (arith, q, length-append pre (u ∷ [])))
      (Valid-store old (user_key u) i m entry v)

index_users-keys :
    (k : String) (us : List UserInfo) (i : ℕ) (m : Assoc String ℕ)
    → is_some (load k (index_users i us m)) ≡ (has_key k us || is_some (load k m))
unfolding index_users
index_users-keys k [] i m = refl
index_users-keys k (u ∷ us) i m =
    ground
      (arith, index_users-keys k us (i + 1) (store (user_key u) i m), load-store (user_key u) k i m)

-- The two steps of the loop.
pub match_users-found :
    (u : UserInfo) (us : List UserInfo) (m : Assoc String ℕ) (added : List UserInfo)
    → is_some (load (user_key u) m) ≡ true
    → match_users (u ∷ us) (m, added) ≡ match_users us (delete (user_key u) m, added)
unfolding match_users
match_users-found u us m added p = rw p refl

pub match_users-missing :
    (u : UserInfo) (us : List UserInfo) (m : Assoc String ℕ) (added : List UserInfo)
    → is_some (load (user_key u) m) ≡ false
    → match_users (u ∷ us) (m, added) ≡ match_users us (m, added ++ (u ∷ []))
unfolding match_users
match_users-missing u us m added p = rw p refl

-- What is left of the map, and which keys the added users have.
match_users-left :
    (k : String) (us : List UserInfo) (m : Assoc String ℕ) (added : List UserInfo)
    → load k (match_users us (m, added)).0 ≡ (if has_key k us then none else load k m)
unfolding match_users
match_users-left k [] m added = refl
match_users-left k (u ∷ us) m added = elim (Bool-cases (is_some (load (user_key u) m))) [
  | inl p ↦ rw (match_users-found u us m added p) (
      ground
        (arith, match_users-left k us (delete (user_key u) m) added, load-delete (user_key u) k m))
  | inr p ↦
      rw (match_users-missing u us m added p)
        (ground (arith, match_users-left k us m (added ++ (u ∷ [])), eq_iff (user_key u) k))
]

match_users-Valid :
    (old us : List UserInfo) (m : Assoc String ℕ) (added : List UserInfo)
    → Valid old m
    → Valid old (match_users us (m, added)).0
unfolding match_users
match_users-Valid old [] m added v = v
match_users-Valid old (u ∷ us) m added v = elim (Bool-cases (is_some (load (user_key u) m))) [
  | inl p ↦
      rw (match_users-found u us m added p)
        (match_users-Valid old us (delete (user_key u) m) added (Valid-delete old (user_key u) m v))
  | inr p ↦
      rw (match_users-missing u us m added p) (match_users-Valid old us m (added ++ (u ∷ [])) v)
]

-- An added user is one of the new list, and a new user without an entry is added.
match_users-added :
    (k : String) (us : List UserInfo) (m : Assoc String ℕ) (added : List UserInfo)
    → let out = has_key k (match_users us (m, added)).1 in
      ((out ≡ false) ⊎ ((has_key k us || has_key k added) ≡ true))
      × ((has_key k added ≡ false) ⊎ (out ≡ true))
      × ((has_key k us ≡ false) ⊎ ((is_some (load k m) || out) ≡ true))
unfolding match_users
match_users-added k [] m added = (ground arith, ground arith, inl refl)
match_users-added k (u ∷ us) m added = elim (Bool-cases (is_some (load (user_key u) m))) [
  | inl p ↦
      let ih = match_users-added k us (delete (user_key u) m) added in
      rw (match_users-found u us m added p) (
        ground (arith, ih.0),
        ground (arith, ih.1),
        ground (arith, ih.2, load-delete (user_key u) k m, eq_iff (user_key u) k),
      )
  | inr p ↦
      let ih = match_users-added k us m (added ++ (u ∷ [])) in
      rw (match_users-missing u us m added p) (
        ground (arith, ih.0, has_key-concat k added u),
        ground (arith, ih.1, has_key-concat k added u),
        ground (arith, ih.1, ih.2, has_key-concat k added u),
      )
]

pick_users-keys :
    (k : String) (old : List UserInfo) (m : Assoc String ℕ)
    → Valid old m
    → has_key k (pick_users old m) ≡ is_some (load k m)
unfolding pick_users load
pick_users-keys k old [] v = refl
pick_users-keys k old ((j, i) ∷ m) v =
    let (u, e, q) = v.0 in ground (arith, e, q, pick_users-keys k old m v.1)

-- What compareUserList returns: a key is among the deleted exactly when it is in the old list and
-- not in the new one, and it is in the new list exactly when it is kept from the old list or added.
pub compare_user_list-keys :
    (k : String) (old new : List UserInfo)
    → let (deleted, added) = compare_user_list old new in
      (has_key k deleted ≡ (has_key k old && not (has_key k new)))
      × (has_key k new ≡ ((has_key k old && not (has_key k deleted)) || has_key k added))
unfolding compare_user_list load
compare_user_list-keys k old new =
    let m = index_users 0 old [] in
    let v = index_users-Valid old [] old 0 [] refl refl tt in
    let left = match_users-left k new m [] in
    let picked =
      pick_users-keys k old (match_users new (m, [])).0 (match_users-Valid old new m [] v) in
    let keys = index_users-keys k old 0 [] in
    let add = match_users-added k new m [] in
    (ground (arith, left, picked, keys), ground (arith, left, picked, keys, add.0, add.1, add.2))
