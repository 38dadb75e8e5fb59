-- ===== src/Core/Dispatcher/Links/Admitted.antt =====
-- Whom getLink lets in, and what is registered for them.
use ccaa.Base.{
  ℕ, ℤ, String, string_eq, nat_eq, Bool, true, false, ◌≡◌, ◌⊎◌, inl, inr, refl, ◌∙◌, List, [],
  Option, none, some, Assoc, load, store, load-store, if◌then◌else◌, arith, Bool-cases,
  Option-cases, beq_refl,
}
use ccaa.Counter.Totals.{get_counter-registers}
use ccaa.Counter.{TrafficCounter, get_counter}
use ccaa.Limiter.{Limiter}
use ccaa.Limiter.Registry.{get_limiter}
use ccaa.Limiter.Check.{check_limit}
use ccaa.Limiter.Check.Reject.{MustReject, check_limit-rejects}
use ccaa.Core.Dispatcher.{
  Dispatcher, Writer, pipe_writer, managed_writer, size_stat_writer, rate_limit_writer, Reader,
  pipe_reader, ManagedLink, Effect, up, down, add_link, manager_of, counter_of,
}
use ccaa.Core.Dispatcher.Links.{
  Links, SessionInbound, session_user, admit, put_limiter, count_user, manage, link_user, limited,
  close_both, get_link,
}

-- The user's storage in the counter of the tag is ts.
abbrev pub CountsInto : {R B : Type 0} → String → String → ℕ → Dispatcher R B → Type 0
CountsInto tag email ts d =
    (c : TrafficCounter) × (load tag d.counter ≡ some c) × (load email c.counters ≡ some ts)

-- The user's manager has the writer w with its reader under that number.
abbrev pub Manages : {R B : Type 0} → String → ℕ → Writer B → Reader → Dispatcher R B → Type 0
Manages {B = B} email i w x d =
    (m : Assoc ℕ (ManagedLink B)) × (load email d.link_managers ≡ some m)
    × (load i m ≡ some (record { writer = w; reader = x }))

module _ {R B : Type 0} where
  pub count_user-CountsInto :
      (tag email : String) (d : Dispatcher R B)
      → let (ts, d') = count_user tag email d in CountsInto tag email ts d'
  unfolding count_user
  count_user-CountsInto tag email d =
      let (ts, c) = get_counter email (counter_of tag d) in
      (
        c,
        load-store tag tag c d.counter ∙ ground (arith, beq_refl tag),
        get_counter-registers email (counter_of tag d),
      )

  pub manage-Manages :
      (email : String) (w : Writer B) (x : Reader) (d : Dispatcher R B)
      → Manages email d.next w x (manage email w x d)
  unfolding manage add_link
  manage-Manages email w x d =
      let l : ManagedLink B = record { writer = w; reader = x } in
      let m = store d.next l (manager_of email d) in
      (
        m,
        load-store email email m d.link_managers ∙ ground (arith, beq_refl email),
        load-store d.next d.next l (manager_of email d) ∙ ground (arith, beq_refl d.next),
      )

  pub count_user-Manages :
      (tag email : String) (i : ℕ) (w : Writer B) (x : Reader) (d : Dispatcher R B)
      → Manages email i w x d
      → Manages email i w x (count_user tag email d).1
  unfolding count_user
  count_user-Manages tag email i w x d h = h

  pub manage-CountsInto :
      (tag email : String) (ts : ℕ) (w : Writer B) (x : Reader) (d : Dispatcher R B)
      → CountsInto tag email ts d
      → CountsInto tag email ts (manage email w x d)
  unfolding manage
  manage-CountsInto tag email ts w x d h = h

module _ {R B : Type 0} (new_bucket : ℤ → ℤ → B) where
  -- The limiter's tag leads to l.
  pub admit-admits :
      (now : ℤ) (s : SessionInbound) (email : String) (is_tcp : Bool) (r : ℕ) (l : Limiter R B)
      (d : Dispatcher R B)
      → get_limiter s.tag d.registry ≡ some r
      → load r d.registry.heap ≡ some l
      → let (l', b, reject) = check_limit new_bucket now email s.source is_tcp s.source_is_tcp l in
        admit new_bucket now s email is_tcp d
        ≡ (put_limiter r l' d, if reject then none else some (r, b))
  unfolding admit
  admit-admits now s email is_tcp r l d e f = rw (e, admit) (rw f refl)

  -- The answers of CheckLimit to a connection of the session.
  abbrev pub rejects : ℤ → SessionInbound → String → Bool → Limiter R B → Bool
  rejects now s email is_tcp l =
      (check_limit new_bucket now email s.source is_tcp s.source_is_tcp l).2

  abbrev pub bucket : ℤ → SessionInbound → String → Bool → Limiter R B → Option B
  bucket now s email is_tcp l =
      (check_limit new_bucket now email s.source is_tcp s.source_is_tcp l).1

  pub rejects-MustReject :
      (now : ℤ) (s : SessionInbound) (email : String) (is_tcp : Bool) (l : Limiter R B)
      → ((rejects now s email is_tcp l ≡ true) × MustReject email s.source s.source_is_tcp l)
        ⊎ ((rejects now s email is_tcp l ≡ false) × ¬ (MustReject email s.source s.source_is_tcp l))
  rejects-MustReject now s email is_tcp l =
      let iff = check_limit-rejects new_bucket now email s.source is_tcp s.source_is_tcp l in
      elim (Bool-cases (rejects now s email is_tcp l)) [
        | inl p ↦ inl (p, iff.0 p)
        | inr p ↦ inr (p, λ m. absurd (ground (arith, p, iff.1 m)))
      ]

  -- What getLink does with the answer of `admit`.
  after_admit :
      ℕ
      → ℕ
      → SessionInbound
      → String
      → Dispatcher R B
      → Option (ℕ × Option B)
      → Dispatcher R B × List Effect × Option (Links B)
  after_admit up_pipe down_pipe s email d none = (d, close_both up_pipe down_pipe, none)
  after_admit up_pipe down_pipe s email d (some (r, b)) =
      let (d', inbound, outbound) = link_user s email up_pipe down_pipe (r, b) d in
      (d', [], some (inbound, outbound, some r))

  -- The user is not let in: nothing is registered and nothing counted.
  abbrev pub IsRefused : Dispatcher R B → Dispatcher R B → Type 0
  IsRefused d d' = (d'.counter ≡ d.counter) × (d'.link_managers ≡ d.link_managers)

  module _ (now : ℤ) (inbound : Option SessionInbound) (s : SessionInbound) (email : String)
      (is_tcp : Bool) (r : ℕ) (l : Limiter R B) (d : Dispatcher R B)
      (named : session_user inbound ≡ some (s, email))
      (found : get_limiter s.tag d.registry ≡ some r)
      (there : load r d.registry.heap ≡ some l) where
    get_link-after_admit :
        (up_pipe down_pipe : ℕ)
        → get_link new_bucket now inbound is_tcp up_pipe down_pipe d ≡ (
            let (d', admitted) = admit new_bucket now s email is_tcp d in
            after_admit up_pipe down_pipe s email d' admitted)
    unfolding get_link after_admit
    get_link-after_admit up_pipe down_pipe =
        elim (Option-cases (admit new_bucket now s email is_tcp d).1) [
          | inl e ↦ rw (named, get_link) (rw e refl)
          | inr (q, e) ↦ rw (named, get_link) (rw e refl)
        ]

    -- A user with an email, whose inbound has a limiter, gets a link exactly when CheckLimit need
    -- not reject the connection. Then nothing is closed; both writers count into the storage that
    -- the user has in the counter of the inbound, one up and one down, and are limited by the
    -- user's bucket, if there is one; and the user's link manager has the inbound writer. Else both
    -- pipes are closed and interrupted, and nothing is counted or registered.
    pub get_link_lem :
        (up_pipe down_pipe : ℕ)
        → let (d', out, links) = get_link new_bucket now inbound is_tcp up_pipe down_pipe d in
          let b = bucket now s email is_tcp l in
          (MustReject email s.source s.source_is_tcp l
            × (links ≡ none)
            × (out ≡ close_both up_pipe down_pipe)
            × IsRefused d d')
          ⊎ (¬ (MustReject email s.source s.source_is_tcp l)
              × (out ≡ [])
              × ((ts : ℕ) × CountsInto s.tag email ts d'
                  × (links
                      ≡ some (
                        record {
                          reader = pipe_reader down_pipe;
                          writer = size_stat_writer ts up (
                              limited rate_limit_writer b
                                (managed_writer email d.next (pipe_writer up_pipe)));
                        },
                        record {
                          reader = pipe_reader up_pipe;
                          writer =
                              size_stat_writer ts down
                                (limited rate_limit_writer b (pipe_writer down_pipe));
                        },
                        some r,
                      )))
              × Manages email d.next (pipe_writer up_pipe) (pipe_reader up_pipe) d')
    unfolding link_user after_admit
    get_link_lem up_pipe down_pipe =
        let admits = admit-admits now s email is_tcp r l d found there in
        elim (rejects-MustReject now s email is_tcp l) [
          | inl (p, m) ↦
              rw (get_link-after_admit up_pipe down_pipe)
                (rw admits (rw p (inl (m, refl, refl, (refl, refl)))))
          | inr (p, m) ↦ rw (get_link-after_admit up_pipe down_pipe) (
              rw admits (
                rw p (
                  let l' = (check_limit new_bucket now email s.source is_tcp s.source_is_tcp l).0 in
                  let d1 = put_limiter r l' d in
                  let d2 = manage email (pipe_writer up_pipe) (pipe_reader up_pipe) d1 in
                  let (ts, d3) = count_user s.tag email d2 in
                  inr (
                    m,
                    refl,
                    (ts, count_user-CountsInto s.tag email d2, refl),
                    count_user-Manages s.tag email d.next (pipe_writer up_pipe)
                        (pipe_reader up_pipe) d2
                        (manage-Manages email (pipe_writer up_pipe) (pipe_reader up_pipe) d1),
                  ))))
        ]
