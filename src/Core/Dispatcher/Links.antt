-- ===== src/Core/Dispatcher/Links.antt =====
-- default.go: getLink, and what DispatchLink does to its link before the sniffing. The pipes that
-- the calls make or are given are numbers; `none` is an error.
pub mod Admitted
pub mod Entered
use ccaa.Base.{
  ℕ, ◌+◌, ℤ, String, string_eq, nat_eq, Bool, true, false, List, [], ◌∷◌, Option, none, some, Assoc,
  load, store, ◌==◌, if◌then◌else◌,
}
use ccaa.Counter.{TrafficCounter, get_counter, Ref}
use ccaa.Limiter.{Limiter}
use ccaa.Limiter.Registry.{get_limiter}
use ccaa.Limiter.Check.{check_limit}
use ccaa.Core.Dispatcher.{
  Dispatcher, Writer, pipe_writer, managed_writer, rate_limit_writer, size_stat_writer, Reader,
  pipe_reader, counter_reader, Link, ManagedLink, Effect, closes, interrupts, up, down, add_link,
  manager_of, counter_of, close_ends,
}

-- xray's session: the inbound's tag, the user's email if there is a user, and where the connection
-- comes from.
pub record SessionInbound : Type 0 where
  pub tag : String
  pub email : Option String
  pub source : String
  pub source_is_tcp : Bool

-- The user that is to be limited and counted: there is a session, with a user that has an email.
abbrev pub named_user : SessionInbound → Option String → Option (SessionInbound × String)
named_user s none = none
named_user s (some email) = if email == "" then none else some (s, email)

abbrev pub session_user : Option SessionInbound → Option (SessionInbound × String)
session_user none = none
session_user (some s) = named_user s s.email

abbrev pub limited {ℓ} : {B : Type ℓ} → {W : Type ℓ} → (B → W → W) → Option B → W → W
limited limit none w = w
limited limit (some b) w = limit b w

-- The inbound and the outbound link, and the limiter of the user.
abbrev pub Links : Type 0 → Type 0
Links B = Link B × Link B × Option ℕ

-- Both pipes are closed and interrupted.
abbrev pub close_both : ℕ → ℕ → List Effect
close_both up_pipe down_pipe =
    closes down_pipe ∷ closes up_pipe ∷ interrupts up_pipe ∷ interrupts down_pipe ∷ []

module _ {R B : Type 0} where
  abbrev pub put_limiter : ℕ → Limiter R B → Dispatcher R B → Dispatcher R B
  put_limiter r l d = record d { registry = record d.registry { heap = store r l d.registry.heap } }

  -- The storage of the user in the counter of the tag.
  unfoldable pub count_user : String → String → Dispatcher R B → Ref × Dispatcher R B
  count_user tag email d =
      let (ts, c) = get_counter email (counter_of tag d) in
      (ts, record d { counter = store tag c d.counter })

  -- A writer is put under the user's manager.
  unfoldable pub manage : String → Writer B → Reader → Dispatcher R B → Dispatcher R B
  manage email w x d = record d {
    link_managers =
        store email (add_link d.next (record { writer = w; reader = x }) (manager_of email d))
          d.link_managers;
    next = d.next + 1;
  }

  -- The links of an admitted user, over the pipes up and down.
  unfoldable pub link_user :
      SessionInbound
      → String
      → ℕ
      → ℕ
      → ℕ × Option B
      → Dispatcher R B
      → Dispatcher R B × Link B × Link B
  link_user s email up_pipe down_pipe (r, b) d =
      let managed = managed_writer email d.next (pipe_writer up_pipe) in
      let (ts, d') =
        count_user s.tag email (manage email (pipe_writer up_pipe) (pipe_reader up_pipe) d) in
      (
        d',
        record {
          reader = pipe_reader down_pipe;
          writer = size_stat_writer ts up (limited rate_limit_writer b managed);
        },
        record {
          reader = pipe_reader up_pipe;
          writer = size_stat_writer ts down (limited rate_limit_writer b (pipe_writer down_pipe));
        },
      )

  -- `DispatchLink` wraps the link that it is given.
  unfoldable pub wrap_link :
      SessionInbound → String → Link B → ℕ × Option B → Dispatcher R B → Dispatcher R B × Link B
  wrap_link s email outbound (r, b) d =
      let (ts, d') = count_user s.tag email d in
      let reader = counter_reader ts outbound.reader in
      (
        manage email outbound.writer reader d',
        record {
          reader = reader;
          writer =
              size_stat_writer ts down
                (limited rate_limit_writer b (managed_writer email d.next outbound.writer));
        },
      )

module _ {R B : Type 0} (new_bucket : ℤ → ℤ → B) where
  -- The limiter is found and admits the user: it, and the bucket.
  unfoldable pub admit :
      ℤ → SessionInbound → String → Bool → Dispatcher R B → Dispatcher R B × Option (ℕ × Option B)
  admit now s email is_tcp d = elim (get_limiter s.tag d.registry) [
    | none ↦ (d, none)
    | some r ↦ elim (load r d.registry.heap) [
      | none ↦ (d, none)
      | some l ↦
          let (l', b, reject) =
            check_limit new_bucket now email s.source is_tcp s.source_is_tcp l in
          (put_limiter r l' d, if reject then none else some (r, b))
    ]
  ]

  unfoldable pub get_link :
      ℤ
      → Option SessionInbound
      → Bool
      → ℕ
      → ℕ
      → Dispatcher R B
      → Dispatcher R B × List Effect × Option (Links B)
  get_link now inbound is_tcp up_pipe down_pipe d = elim (session_user inbound) [
    | none ↦ (
      d,
      [],
      some (
        record { reader = pipe_reader down_pipe; writer = pipe_writer up_pipe },
        record { reader = pipe_reader up_pipe; writer = pipe_writer down_pipe },
        none,
      ),
    )
    | some (s, email) ↦
        let (d', admitted) = admit now s email is_tcp d in
        elim admitted [
          | none ↦ (d', close_both up_pipe down_pipe, none)
          | some (r, b) ↦
              let (d'', inbound_link, outbound_link) =
                link_user s email up_pipe down_pipe (r, b) d' in
              (d'', [], some (inbound_link, outbound_link, some r))
        ]
  ]

  unfoldable pub enter_link :
      ℤ
      → Option SessionInbound
      → Bool
      → Link B
      → Dispatcher R B
      → Dispatcher R B × List Effect × Option (Link B × Option ℕ)
  enter_link now inbound is_tcp outbound d = elim (session_user inbound) [
    | none ↦ (d, [], some (outbound, none))
    | some (s, email) ↦
        let (d', admitted) = admit now s email is_tcp d in
        elim admitted [
          | none ↦ (d', close_ends outbound.writer outbound.reader, none)
          | some (r, b) ↦
              let (d'', link) = wrap_link s email outbound (r, b) d' in
              (d'', [], some (link, some r))
        ]
  ]
