-- ===== src/Node/Monitor/Unchanged.antt =====
-- What nodeInfoMonitor does to the users of a node that has not changed.
use ccaa.Base.{
  String, nat_eq, string_eq, ◌&&◌, ◌≡◌, ◌≢◌, ◌⊎◌, inl, inr, refl, ap, ◌∙◌, Option-cases, List, [],
  ◌∷◌, none, some, if◌then◌else◌, arith,
}
use ccaa.Panel.User.{UserInfo}
use ccaa.Panel.Node.{NodeInfo}
use ccaa.Limiter.Registry.{Registry}
use ccaa.Limiter.Users.{update_user}
use ccaa.Core.Interface.{Core, Error}
use ccaa.Node.Users.{compare_user_list}
use ccaa.Node.Controller.{Controller, modify_limiter}
use ccaa.Node.Monitor.{
  is_nil, drop_users, take_users, after_take, after_drop, limit_users, change_users,
}

module _ {S R : Type 0} (core : Core S R) where
  -- What the server is asked for the deleted users and then for the added ones, where there are any,
  -- under a tag and for a node; and what the calls leave and give.
  abbrev pub asked_to_delete : List UserInfo → String → NodeInfo → S → S × Error
  asked_to_delete [] tag info s = (s, none)
  asked_to_delete (u ∷ us) tag info s = core.del_users (u ∷ us) tag info s

  abbrev pub asked_to_add : List UserInfo → String → NodeInfo → S → S × Error
  asked_to_add [] tag info s = (s, none)
  asked_to_add (u ∷ us) tag info s =
      let (s', n, e) = core.add_users (record { tag = tag; users = u ∷ us; node_info = info }) s in
      (s', e)

module _ {S X B R : Type 0} (core : Core S R) where
  -- What a call of the server leaves as it is.
  abbrev pub IsServed : Controller S X B R → Controller S X B R → Type 0
  IsServed c d =
      (d.user_list ≡ c.user_list)
      × (d.registry ≡ c.registry)
      × (d.tag ≡ c.tag)
      × (d.limiter ≡ c.limiter)

  pub drop_users-IsServed :
      (us : List UserInfo) (c : Controller S X B R) → IsServed c (drop_users core us c).0
  unfolding drop_users
  drop_users-IsServed [] c = (refl, refl, refl, refl)
  drop_users-IsServed (u ∷ us) c = (refl, refl, refl, refl)

  pub take_users-IsServed :
      (us : List UserInfo) (c : Controller S X B R) → IsServed c (take_users core us c).0
  unfolding take_users
  take_users-IsServed [] c = (refl, refl, refl, refl)
  take_users-IsServed (u ∷ us) c = (refl, refl, refl, refl)

  -- What the limiters become when the limiter of `c` is told.
  abbrev pub told : List UserInfo → List UserInfo → Controller S X B R → Registry X B
  told deleted added c =
      if is_nil added && is_nil deleted
      then c.registry
      else modify_limiter (update_user c.tag added deleted) c.limiter c.registry

  drop_users-asked :
      (us : List UserInfo) (c : Controller S X B R)
      → drop_users core us c ≡ (
        record c { server = (asked_to_delete core us c.tag c.info c.server).0 },
        (asked_to_delete core us c.tag c.info c.server).1,
      )
  unfolding drop_users
  drop_users-asked [] c = refl
  drop_users-asked (u ∷ us) c = refl

  take_users-asked :
      (us : List UserInfo) (c : Controller S X B R)
      → take_users core us c ≡ (
        record c { server = (asked_to_add core us c.tag c.info c.server).0 },
        (asked_to_add core us c.tag c.info c.server).1,
      )
  unfolding take_users
  take_users-asked [] c = refl
  take_users-asked (u ∷ us) c = refl

  -- The list and the limiters of `d` are those of `c`, or the new ones.
  abbrev pub IsOld : Controller S X B R → Controller S X B R → Type 0
  IsOld c d = (d.user_list ≡ c.user_list) × (d.registry ≡ c.registry)

  abbrev pub IsNew :
      List UserInfo
      → List UserInfo
      → List UserInfo
      → Controller S X B R
      → Controller S X B R
      → Type 0
  IsNew deleted added us c d = (d.user_list ≡ us) × (d.registry ≡ told deleted added c)

  -- What a round has done, where the server is asked for the deleted users (s1, e1), then for the
  -- added ones (s2, e2).
  abbrev pub IsRound :
      List UserInfo
      → List UserInfo
      → List UserInfo
      → Controller S X B R
      → Controller S X B R
      → Type 0
  IsRound deleted added us c d =
      let (s1, e1) = asked_to_delete core deleted c.tag c.info c.server in
      let (s2, e2) = asked_to_add core added c.tag c.info s1 in
      ((e1 ≡ none) × (e2 ≡ none) × (d.server ≡ s2) × IsNew deleted added us c d)
      ⊎ ((e1 ≢ none) × (d.server ≡ s1) × IsOld c d)
      ⊎ ((e1 ≡ none) × (e2 ≢ none) × (d.server ≡ s2) × IsOld c d)

  limit_users-server :
      (deleted added : List UserInfo) (c : Controller S X B R)
      → (limit_users core deleted added c).server ≡ c.server
  unfolding limit_users
  limit_users-server deleted added c = ground arith

  -- After the added users, with what the server has left and given.
  after_take-whole :
      (deleted added us : List UserInfo) (c : Controller S X B R) (s : S) (e : Error)
      → let d = after_take core deleted added us (record c { server = s }, e) in
        ((e ≡ none) × (d.server ≡ s) × IsNew deleted added us c d)
        ⊎ ((e ≢ none) × (d.server ≡ s) × IsOld c d)
  unfolding limit_users
  after_take-whole deleted added us c s none =
      inl (refl, limit_users-server deleted added (record c { server = s }), (refl, ground arith))
  after_take-whole deleted added us c s (some text) =
      inr (λ e. absurd (ground (arith, e)), refl, (refl, refl))

  -- A round on users whose node has not changed first asks the server to delete the users that are
  -- no longer there, if there are any, and then, unless that gave an error, to add the new ones, if
  -- there are any. If neither call gives an error, the new list is kept, and the limiter has been
  -- given the same added and deleted users. If one gives an error, the list and the limiters are as
  -- they were, while the server is as its calls left it: it may have dropped the deleted users.
  pub change_users-whole :
      (us : List UserInfo) (c : Controller S X B R)
      → let (deleted, added) = compare_user_list c.user_list us in
        IsRound deleted added us c (change_users core us c)
  unfolding change_users
  change_users-whole us c =
      let (deleted, added) = compare_user_list c.user_list us in
      let (s1, e1) = asked_to_delete core deleted c.tag c.info c.server in
      let c1 : Controller S X B R = record c { server = s1 } in
      let (s2, e2) = asked_to_add core added c.tag c.info s1 in
      let after = after_drop core deleted added us in
      let dropped = ap after (drop_users-asked deleted c) in
      elim (Option-cases e1) [
        | inr (text, h) ↦
            let same = dropped ∙ ap (λ e. after (c1, e)) h in
            inr (
              inl (
                λ g. absurd (ground (arith, g, h)),
                ap Controller.server same,
                (ap Controller.user_list same, ap Controller.registry same),
              ))
        | inl h ↦
            let same =
              dropped
              ∙ ap (λ e. after (c1, e)) h
              ∙ ap (after_take core deleted added us) (take_users-asked added c1) in
            elim (after_take-whole deleted added us c1 s2 e2) [
              | inl (f, g, (k, l)) ↦ inl (
                h,
                f,
                ap Controller.server same ∙ g,
                (ap Controller.user_list same ∙ k, ap Controller.registry same ∙ l),
              )
              | inr (f, g, (k, l)) ↦ inr (
                  inr (
                    h,
                    f,
                    ap Controller.server same ∙ g,
                    (ap Controller.user_list same ∙ k, ap Controller.registry same ∙ l),
                  ))
            ]
      ]
