-- ===== src/Core/Xray/Users/Added.antt =====
-- Whom AddUsers registers.
use ccaa.Base.{
  suc, beq_refl, All, ℤ, pos, String, string_eq, List, [], ◌∷◌, Option, none, some, ◌⊎◌, load,
  store, load-store, length, ◌≡◌, refl, ap, sym, ◌∙◌, Result, ok, err, panicked, Gives, arith,
  Assoc, inl, inr, Option-cases,
}
use ccaa.Format.{user_tag}
use ccaa.Panel.User.{UserInfo}
use ccaa.Panel.Node.{NodeInfo}
use ccaa.Limiter.Users.Known.{last_user, override, user_tag_beq}
use ccaa.Core.Interface.{Error}
use ccaa.Core.Xray.{Xray}
use ccaa.Core.Xray.Users.{
  User, build_users, put_uids, add_all, count_or, add_with, add_built, add_users,
}
use ccaa.Core.Xray.Users.Built.{IsLong, Fits, emails, tags, build_users-emails}

put_uids-load :
    (tag v : String) (us : List UserInfo) (uids : Assoc String ℤ)
    → load (user_tag tag v) (put_uids tag us uids)
      ≡ override UserInfo.id (last_user v us) (load (user_tag tag v) uids)
unfolding put_uids
put_uids-load tag v [] uids = refl
put_uids-load tag v (u ∷ us) uids = ground (
  arith,
  put_uids-load tag v us (store (user_tag tag u.uuid) u.id uids),
  user_tag_beq tag u.uuid v,
  load-store (user_tag tag u.uuid) (user_tag tag v) u.id uids,
)

length-emails : (xs : List User) → length (emails xs) ≡ length xs
length-emails [] = refl
length-emails (x ∷ xs) = ap suc (length-emails xs)

length-tags : (tag : String) (us : List UserInfo) → length (tags tag us) ≡ length us
length-tags tag [] = refl
length-tags tag (u ∷ us) = ap suc (length-tags tag us)

sum-cases {ℓ} : {A B : Type ℓ} (s : A ⊎ B) → ((a : A) × (s ≡ inl a)) ⊎ ((b : B) × (s ≡ inr b))
sum-cases (inl a) = inl (a, refl)
sum-cases (inr b) = inr (b, refl)

module _ {V M : Type 0} (to_memory_user : User → String ⊎ V) (add_user : V → M → M × Error) where
  -- The manager takes the users one after the other, in their order: each becomes a user of xray's,
  -- and no call gives an error.
  abbrev pub Taken : List User → M → M → Type 0
  Taken [] m m' = m' ≡ m
  Taken (u ∷ us) m m' =
      (w : V) × (next : M) × (to_memory_user u ≡ inr w)
      × (add_user w m ≡ (next, none))
      × Taken us next m'

  add_all-Taken :
      (us : List User) (m : M)
      → (add_all to_memory_user add_user us m).1 ≡ none
      → Taken us m (add_all to_memory_user add_user us m).0
  unfolding add_all
  add_all-Taken [] m e = refl
  add_all-Taken (u ∷ us) m e = elim (sum-cases (to_memory_user u)) [
    | inl (text, p) ↦ absurd (ground (arith, e, p))
    | inr (w, p) ↦ elim (Option-cases (add_user w m).1) [
      | inr (text, q) ↦ absurd (ground (arith, e, p, q))
      | inl q ↦
          let next = (add_user w m).0 in
          let later = add_all-Taken us next (ground (arith, e, p, q)) in
          (w, next, p, ap (λ x. (next, x)) q, rw (p, add_all) (rw (q, add_all) later))
    ]
  ]

module _ {R B V M : Type 0} (to_memory_user : User → String ⊎ V)
    (add_user : V → M → M × Error) where
  -- The answer counts the users, and the tag's manager has taken one for each, in their order, each
  -- under its own email.
  abbrev pub AreRegistered : String → List UserInfo → Xray R B M → Xray R B M → ℤ → Type 0
  AreRegistered tag us x y n =
      (n ≡ pos (length us))
      × (users : List User) × (m : M) × (m' : M) × (emails users ≡ tags tag us)
      × (load tag x.managers ≡ some m)
      × Taken to_memory_user add_user users m m'
      × (load tag y.managers ≡ some m')

  counted :
      (tag : String) (us : List UserInfo) (users : List User) (m : M) (x : Xray R B M) (e : Error)
      → emails users ≡ tags tag us
      → load tag x.managers ≡ some m
      → (add_all to_memory_user add_user users m).1 ≡ e
      → let m' = (add_all to_memory_user add_user users m).0 in
        Gives
          (AreRegistered tag us x (record x { managers = store tag m' x.managers }))
          (count_or to_memory_user add_user users e)
  counted tag us users m x (some e) h found p = tt
  counted tag us users m x none h found p =
      let m' = (add_all to_memory_user add_user users m).0 in
      (
        ap pos (sym (length-emails users) ∙ ap length h ∙ length-tags tag us),
        users,
        m,
        m',
        h,
        found,
        add_all-Taken to_memory_user add_user users m p,
        ground (arith, load-store tag tag m' x.managers, beq_refl tag),
      )

  add_with-AreRegistered :
      (tag : String) (us : List UserInfo) (users : List User) (o : Option M) (x : Xray R B M)
      → emails users ≡ tags tag us
      → load tag x.managers ≡ o
      → let (y, answer) = add_with to_memory_user add_user tag users o x in
        Gives (AreRegistered tag us x y) answer
  add_with-AreRegistered tag us users none x h e = tt
  add_with-AreRegistered tag us users (some m) x h e =
      counted tag us users m x (add_all to_memory_user add_user users m).1 h e refl

  add_built-AreRegistered :
      (tag : String) (us : List UserInfo) (r : Result (List User)) (x : Xray R B M)
      → Gives (λ xs. emails xs ≡ tags tag us) r
      → let (y, answer) = add_built to_memory_user add_user tag r x in
        Gives (AreRegistered tag us x y) answer
  add_built-AreRegistered tag us (err e) x h = tt
  add_built-AreRegistered tag us panicked x h = h
  add_built-AreRegistered tag us (ok users) x h =
      add_with-AreRegistered tag us users (load tag x.managers) x h refl

  add_with-uids :
      (tag : String) (users : List User) (o : Option M) (x : Xray R B M)
      → (add_with to_memory_user add_user tag users o x).0.uid_map ≡ x.uid_map
  add_with-uids tag users none x = refl
  add_with-uids tag users (some m) x = refl

  add_built-uids :
      (tag : String) (r : Result (List User)) (x : Xray R B M)
      → (add_built to_memory_user add_user tag r x).0.uid_map ≡ x.uid_map
  add_built-uids tag (ok users) x = add_with-uids tag users (load tag x.managers) x
  add_built-uids tag (err e) x = refl
  add_built-uids tag panicked x = refl

  -- Where the node's settings are not those of another type than its own and every uuid has at least
  -- 32 characters, AddUsers does not panic. Whether it gives an error or not, the uid of every user is
  -- then the one of its last entry in the list, or the one from before; and if it gives no error it
  -- answers the number of users, and the tag's manager has taken one for each, in their order, under
  -- the email that the limiter and the counters know the user by.
  pub add_users-AreRegistered :
      (to_lower encode : String → String) (tag v : String) (us : List UserInfo) (info : NodeInfo)
      (x : Xray R B M)
      → Fits info.node_type info.settings
      → All IsLong us
      → let (y, answer) = add_users to_memory_user add_user to_lower encode tag us info x in
        (load (user_tag tag v) y.uid_map
          ≡ override UserInfo.id (last_user v us) (load (user_tag tag v) x.uid_map))
        × Gives (AreRegistered tag us x y) answer
  unfolding add_users
  add_users-AreRegistered to_lower encode tag v us info x fits long =
      let r = build_users to_lower encode info tag us in
      let z = record x { uid_map = put_uids tag us x.uid_map } in
      (
        rw (add_built-uids tag r z) (put_uids-load tag v us x.uid_map),
        add_built-AreRegistered tag us r z
            (build_users-emails to_lower encode tag info us fits long),
      )
