-- ===== src/Core/Xray.antt =====
-- core/xray/user.go: DelUsers. M is xray's manager of an inbound's users, and `remove_user` its
-- RemoveUser.
pub mod Deleted
pub mod Users
mod Tests
use ccaa.Base.{
  ℕ, ℤ, pos, ◌+ℤ◌, String, string_eq, Bool, true, false, ◌||◌, List, [], ◌∷◌, ◌++◌, Option, none,
  some, Assoc, load, store, delete, ◌==◌, if◌then◌else◌,
}
use ccaa.Format.{user_tag}
use ccaa.Panel.User.{UserInfo}
use ccaa.Counter.{TrafficCounter, delete_counter}
use ccaa.Core.Interface.{Error}
use ccaa.Core.Dispatcher.{Dispatcher, LinkManager, Effect, close_all}

-- `uid_map` and the managers of the inbounds' users; no manager is an error of GetUserManager.
pub record Xray (R B M : Type 0) : Type 0 where
  pub uid_map : Assoc String ℤ
  pub managers : Assoc String M
  pub dispatcher : Dispatcher R B

-- The counter of a tag, if there is one, drops the user.
abbrev pub drop_count :
    String
    → String
    → Option TrafficCounter
    → Assoc String TrafficCounter
    → Assoc String TrafficCounter
drop_count tag user none counter = counter
drop_count tag user (some c) counter = store tag (delete_counter user c) counter

abbrev pub closing : {B : Type 0} → Option (LinkManager B) → List Effect
closing none = []
closing (some m) = (close_all m).1

module _ {R B M : Type 0} where
  -- What DelUsers does for a user whom xray has removed: the uid, the counter, and the links.
  unfoldable pub forget : String → String → Xray R B M → Xray R B M × List Effect
  forget tag user x =
      let d = x.dispatcher in
      (
        record x {
          uid_map = delete user x.uid_map;
          dispatcher = record d {
            counter = drop_count tag user (load tag d.counter) d.counter;
            link_managers = delete user d.link_managers;
          };
        },
        closing (load user d.link_managers),
      )

module _ {R B M : Type 0} (remove_user : String → M → M × Error) where
  -- The loop of DelUsers, which an error of xray's ends.
  unfoldable pub remove_users :
      String → List UserInfo → M → Xray R B M → Xray R B M × List Effect × Error
  remove_users tag [] m x = (record x { managers = store tag m x.managers }, [], none)
  remove_users tag (u ∷ us) m x =
      let user = user_tag tag u.uuid in
      let (m', e) = remove_user user m in
      let (x', out) = forget tag user x in
      let (x'', out', e') = remove_users tag us m' x' in
      elim e [
        | some text ↦ (record x { managers = store tag m' x.managers }, [], some text)
        | none ↦ (x'', out ++ out', e')
      ]

  unfoldable pub del_users : List UserInfo → String → Xray R B M → Xray R B M × List Effect × Error
  del_users us tag x = elim (load tag x.managers) [
    | none ↦ (x, [], some "get user manager error")
    | some m ↦ remove_users tag us m x
  ]
