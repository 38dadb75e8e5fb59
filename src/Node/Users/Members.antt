-- ===== src/Node/Users/Members.antt =====
-- compareUserList by uuids: whom the two lists that it returns name, where keys tell users apart.
use Prim.Native.String.{count}
use ccaa.Base.{
  ℕ, ◌≡◌, inl, inr, sym, ap, ◌∙◌, String, string_eq, true, false, List, if◌then◌else◌, arith,
  Bool-cases, subst,
}
use ccaa.Panel.User.{UserInfo}
use ccaa.Limiter.Users.Known.{mentions}
use ccaa.Node.Users.{user_key, compare_user_list}
use ccaa.Node.Users.Difference.{has_key, compare_user_list-keys}
use ccaa.Node.Users.Matched.{
  Member, Distinct, OfLength, Member-mentions, Member-has_key, mentions-Member, has_key-Member,
  Member-All, Distinct-same, compare_user_list-Member, user_key_tells,
}

module _ (n : ℕ) (old us : List UserInfo) (old_length : OfLength n old) (new_length : OfLength n us)
    (distinct : Distinct old) where
  abbrev deleted : List UserInfo
  deleted = (compare_user_list old us).0

  abbrev added : List UserInfo
  added = (compare_user_list old us).1

  added-mentions : (v : String) → mentions v added ≡ true → mentions v us ≡ true
  added-mentions v h =
      let (u, m, e) = mentions-Member v added h in
      subst (λ x. mentions x us ≡ true) e
        (Member-mentions u us ((compare_user_list-Member u old us).1 m))

  old_uuid :
      (u w : UserInfo) → Member u old → Member w us → user_key u ≡ user_key w → u.uuid ≡ w.uuid
  old_uuid u w p q =
      user_key_tells n u w (Member-All (λ x. count x.uuid ≡ n) u old p old_length)
        (Member-All (λ x. count x.uuid ≡ n) w us q new_length)

  new_uuid :
      (u w : UserInfo) → Member u us → Member w us → user_key u ≡ user_key w → u.uuid ≡ w.uuid
  new_uuid u w p q =
      user_key_tells n u w (Member-All (λ x. count x.uuid ≡ n) u us p new_length)
        (Member-All (λ x. count x.uuid ≡ n) w us q new_length)

  added-has_key :
      (u : UserInfo)
      → Member u us
      → mentions u.uuid added ≡ false
      → has_key (user_key u) added ≡ false
  added-has_key u m h = elim (Bool-cases (has_key (user_key u) added)) [
    | inr p ↦ p
    | inl p ↦
        let (w, k, e) = has_key-Member (user_key u) added p in
        let same = new_uuid w u ((compare_user_list-Member w old us).1 k) m e in
        absurd (ground (arith, h, Member-mentions w added k, same))
  ]

  -- A user of the new list who is not added is a user of the old list, with the same key.
  kept-Member :
      (u : UserInfo)
      → Member u us
      → mentions u.uuid added ≡ false
      → (w : UserInfo) × Member w old × (user_key w ≡ user_key u) × (w.uuid ≡ u.uuid)
  kept-Member u m h =
      let keys = compare_user_list-keys (user_key u) old us in
      let (w, k, e) =
        has_key-Member (user_key u) old
          (ground (arith, keys, Member-has_key u us m, added-has_key u m h)) in
      (w, k, e, old_uuid w u k m e)

  -- A deleted user who is not added is in no other way in the new list.
  deleted-mentions :
      (v : String) → mentions v deleted ≡ true → mentions v added ≡ false → mentions v us ≡ false
  deleted-mentions v d a = elim (Bool-cases (mentions v us)) [
    | inr p ↦ p
    | inl p ↦
        let (u, m, e) = mentions-Member v us p in
        let (w, k, q, r) = kept-Member u m (ap (λ y. mentions y added) e ∙ a) in
        let (x, l, f) = mentions-Member v deleted d in
        let same =
          Distinct-same x w old distinct ((compare_user_list-Member x old us).0 l) k
            (f ∙ sym (r ∙ e)) in
        absurd (
          ground (
            arith,
            compare_user_list-keys (user_key x) old us,
            Member-has_key x deleted l,
            Member-has_key u us m,
            ap user_key same,
            q,
          ))
  ]

  kept-mentions :
      (v : String)
      → mentions v deleted ≡ false
      → mentions v added ≡ false
      → mentions v old ≡ mentions v us
  kept-mentions v d a = elim (Bool-cases (mentions v old)) [
    | inl p ↦
        let (u, m, e) = mentions-Member v old p in
        elim (Bool-cases (has_key (user_key u) us)) [
          | inl q ↦
              let (w, k, f) = has_key-Member (user_key u) us q in
              p
              ∙ sym (
                  subst (λ x. mentions x us ≡ true) (sym (old_uuid u w m k (sym f)) ∙ e)
                    (Member-mentions w us k))
          | inr q ↦
              let (x, l, f) = has_key-Member (user_key u) deleted (
                ground
                  (arith, q, compare_user_list-keys (user_key u) old us, Member-has_key u old m)) in
              let same =
                user_key_tells n x u
                  (Member-All (λ y. count y.uuid ≡ n) x old
                    ((compare_user_list-Member x old us).0 l) old_length)
                  (Member-All (λ y. count y.uuid ≡ n) u old m old_length) f in
              absurd (ground (arith, d, Member-mentions x deleted l, same, e))
        ]
    | inr p ↦ elim (Bool-cases (mentions v us)) [
      | inr q ↦ p ∙ sym q
      | inl q ↦
          let (u, m, e) = mentions-Member v us q in
          let (w, k, f, g) = kept-Member u m (ap (λ y. mentions y added) e ∙ a) in
          absurd (ground (arith, p, Member-mentions w old k, g, e))
    ]
  ]

  -- To drop the deleted and then take the added leads from the old list's uuids to the new list's.
  pub compare_user_list-mentions :
      (v : String)
      → (if mentions v added then true else if mentions v deleted then false else mentions v old)
        ≡ mentions v us
  compare_user_list-mentions v =
      ground (arith, added-mentions v, deleted-mentions v, kept-mentions v)
