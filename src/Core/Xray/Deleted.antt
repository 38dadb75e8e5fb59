-- ===== src/Core/Xray/Deleted.antt =====
-- Whom DelUsers leaves behind.
use ccaa.Base.{
  ℕ, String, string_eq, ◌≡◌, ◌⊎◌, inl, inr, refl, ap, subst, ◌∙◌, List, [], ◌∷◌, Option, none, some,
  Assoc, load, delete, load-store, load-delete, arith, Any, Option-cases, beq_refl,
}
use ccaa.Format.{user_tag}
use ccaa.Panel.User.{UserInfo}
use ccaa.Counter.{TrafficCounter, delete_counter}
use ccaa.Core.Interface.{Error}
use ccaa.Core.Xray.{Xray, drop_count, forget, remove_users, del_users}

-- The counts of a user in the counter of the tag, if there is one.
abbrev pub count_of : String → Option TrafficCounter → Option ℕ
count_of user none = none
count_of user (some c) = load user c.counters

-- Nothing is left of a user: no uid, no count and no link.
abbrev pub IsGone : {R B M : Type 0} → String → String → Xray R B M → Type 0
IsGone tag user x =
    (load user x.uid_map ≡ none)
    × (count_of user (load tag x.dispatcher.counter) ≡ none)
    × (load user x.dispatcher.link_managers ≡ none)

delete-none {ℓ} :
    {V : Type ℓ} (k j : String) (m : Assoc String V) → load j m ≡ none → load j (delete k m) ≡ none
delete-none k j m h = ground (arith, load-delete k j m, h)

drop_count-other :
    (tag user other : String) (c : Option TrafficCounter) (counter : Assoc String TrafficCounter)
    → load tag counter ≡ c
    → count_of other c ≡ none
    → count_of other (load tag (drop_count tag user c counter)) ≡ none
unfolding delete_counter
drop_count-other tag user other none counter e h = ap (count_of other) e
drop_count-other tag user other (some c) counter e h =
    rw (load-store tag tag (delete_counter user c) counter)
      (rw (beq_refl tag) (delete-none user other c.counters h))

drop_count-same :
    (tag user : String) (c : Option TrafficCounter) (counter : Assoc String TrafficCounter)
    → load tag counter ≡ c
    → count_of user (load tag (drop_count tag user c counter)) ≡ none
unfolding delete_counter
drop_count-same tag user none counter e = ap (count_of user) e
drop_count-same tag user (some c) counter e =
    rw (load-store tag tag (delete_counter user c) counter)
      (rw (beq_refl tag) (load-delete user user c.counters ∙ ground (arith, beq_refl user)))

module _ {R B M : Type 0} where
  forget-IsGone : (tag user : String) (x : Xray R B M) → IsGone tag user (forget tag user x).0
  unfolding forget
  forget-IsGone tag user x =
      let d = x.dispatcher in
      (
        load-delete user user x.uid_map ∙ ground (arith, beq_refl user),
        drop_count-same tag user (load tag d.counter) d.counter refl,
        load-delete user user d.link_managers ∙ ground (arith, beq_refl user),
      )

  forget-keeps :
      (tag user other : String) (x : Xray R B M)
      → IsGone tag other x
      → IsGone tag other (forget tag user x).0
  unfolding forget
  forget-keeps tag user other x (p, q, r) =
      let d = x.dispatcher in
      (
        delete-none user other x.uid_map p,
        drop_count-other tag user other (load tag d.counter) d.counter refl q,
        delete-none user other d.link_managers r,
      )

module _ {R B M : Type 0} (remove_user : String → M → M × Error) where
  -- Without an error, whoever is in the list is gone, and whoever was gone is.
  remove_users-IsGone :
      (tag other : String) (us : List UserInfo) (m : M) (x : Xray R B M)
      → Any (λ u. user_tag tag u.uuid ≡ other) us ⊎ IsGone tag other x
      → (remove_users remove_user tag us m x).2 ≡ none
      → IsGone tag other (remove_users remove_user tag us m x).0
  unfolding remove_users
  remove_users-IsGone tag other [] m x (inl a) = elim a [ ]
  remove_users-IsGone tag other [] m x (inr g) = λ e. g
  remove_users-IsGone tag other (u ∷ us) m x g =
      let user = user_tag tag u.uuid in
      let m' = (remove_user user m).0 in
      let y = (forget tag user x).0 in
      let left : Any (λ w. user_tag tag w.uuid ≡ other) us ⊎ IsGone tag other y = elim g [
        | inr h ↦ inr (forget-keeps tag user other x h)
        | inl a ↦ elim a [
          | inl e ↦ inr (subst (λ k. IsGone tag k y) e (forget-IsGone tag user x))
          | inr b ↦ inl b
        ]
      ] in
      elim (Option-cases (remove_user user m).1) [
        | inr (text, p) ↦ rw (p, remove_users) (λ e. absurd cc)
        | inl p ↦ rw (p, remove_users) (remove_users-IsGone tag other us m' y left)
      ]

  -- When DelUsers gives no error, nothing is left of any user of the list: no uid, so that no
  -- traffic is reported, no count in the counter of the tag, and no link manager.
  pub del_users-IsGone :
      (us : List UserInfo) (u : UserInfo) (tag : String) (x : Xray R B M)
      → Any (λ w. w ≡ u) us
      → (del_users remove_user us tag x).2 ≡ none
      → IsGone tag (user_tag tag u.uuid) (del_users remove_user us tag x).0
  unfolding del_users
  del_users-IsGone us u tag x a = elim (Option-cases (load tag x.managers)) [
    | inl p ↦ rw (p, del_users) (λ e. absurd cc)
    | inr (m, p) ↦
        rw (p, del_users) (remove_users-IsGone tag (user_tag tag u.uuid) us m x (inl (by_key us a)))
  ]
    where
      by_key :
          (ws : List UserInfo)
          → Any (λ w. w ≡ u) ws
          → Any (λ w. user_tag tag w.uuid ≡ user_tag tag u.uuid) ws
      by_key [] b = elim b [ ]
      by_key (w ∷ ws) b = elim b [
        | inl e ↦ inl (ap (λ v. user_tag tag (UserInfo.uuid v)) e)
        | inr c ↦ inr (by_key ws c)
      ]
