-- ===== src/Core/Dispatcher/Links/Entered.antt =====
-- Whom DispatchLink lets in, and what is registered for them.
use ccaa.Base.{
  ℕ, ℤ, String, string_eq, nat_eq, Bool, true, false, ◌≡◌, ◌⊎◌, inl, inr, refl, List, [], Option,
  none, some, load, Option-cases,
}
use ccaa.Limiter.{Limiter}
use ccaa.Limiter.Registry.{get_limiter}
use ccaa.Limiter.Check.{check_limit}
use ccaa.Limiter.Check.Reject.{MustReject}
use ccaa.Core.Dispatcher.{
  Dispatcher, Writer, managed_writer, size_stat_writer, rate_limit_writer, Reader, counter_reader,
  Link, Effect, down, close_ends,
}
use ccaa.Core.Dispatcher.Links.{
  SessionInbound, session_user, admit, put_limiter, count_user, manage, limited, wrap_link,
  enter_link,
}
use ccaa.Core.Dispatcher.Links.Admitted.{
  CountsInto, Manages, IsRefused, rejects, bucket, rejects-MustReject, admit-admits,
  count_user-CountsInto, manage-Manages, manage-CountsInto,
}

-- To count the user leaves the next number as it is.
next-Manages :
    {R B : Type 0} (tag email : String) (w : Writer B) (x : Reader) (d : Dispatcher R B)
    → Manages email d.next w x (manage email w x (count_user tag email d).1)
unfolding count_user
next-Manages tag email w x d = manage-Manages email w x (count_user tag email d).1

module _ {R B : Type 0} (new_bucket : ℤ → ℤ → B) where
  -- What DispatchLink does with the answer of `admit`.
  after_admit :
      Link B
      → SessionInbound
      → String
      → Dispatcher R B
      → Option (ℕ × Option B)
      → Dispatcher R B × List Effect × Option (Link B × Option ℕ)
  after_admit outbound s email d none = (d, close_ends outbound.writer outbound.reader, none)
  after_admit outbound s email d (some (r, b)) =
      let (d', link) = wrap_link s email outbound (r, b) d in (d', [], some (link, some r))

  module _ (now : ℤ) (inbound : Option SessionInbound) (s : SessionInbound) (email : String)
      (is_tcp : Bool) (r : ℕ) (l : Limiter R B) (d : Dispatcher R B)
      (named : session_user inbound ≡ some (s, email))
      (found : get_limiter s.tag d.registry ≡ some r)
      (there : load r d.registry.heap ≡ some l) where
    enter_link-after_admit :
        (outbound : Link B)
        → enter_link new_bucket now inbound is_tcp outbound d ≡ (
            let (d', admitted) = admit new_bucket now s email is_tcp d in
            after_admit outbound s email d' admitted)
    unfolding enter_link after_admit
    enter_link-after_admit outbound =
        elim (Option-cases (admit new_bucket now s email is_tcp d).1) [
          | inl e ↦ rw (named, enter_link) (rw e refl)
          | inr (q, e) ↦ rw (named, enter_link) (rw e refl)
        ]

    pub enter_link-admitted :
        (outbound : Link B)
        → rejects new_bucket now s email is_tcp l ≡ false
        → let l' = (check_limit new_bucket now email s.source is_tcp s.source_is_tcp l).0 in
          let b = bucket new_bucket now s email is_tcp l in
          let (d', link) = wrap_link s email outbound (r, b) (put_limiter r l' d) in
          enter_link new_bucket now inbound is_tcp outbound d ≡ (d', [], some (link, some r))
    unfolding after_admit
    enter_link-admitted outbound p =
        rw (enter_link-after_admit outbound)
          (rw (admit-admits new_bucket now s email is_tcp r l d found there) (rw p refl))

    pub enter_link-rejected :
        (outbound : Link B)
        → rejects new_bucket now s email is_tcp l ≡ true
        → let l' = (check_limit new_bucket now email s.source is_tcp s.source_is_tcp l).0 in
          enter_link new_bucket now inbound is_tcp outbound d
          ≡ (put_limiter r l' d, close_ends outbound.writer outbound.reader, none)
    unfolding after_admit
    enter_link-rejected outbound p =
        rw (enter_link-after_admit outbound)
          (rw (admit-admits new_bucket now s email is_tcp r l d found there) (rw p refl))

    -- A user with an email, whose inbound has a limiter, may go on with the link exactly when
    -- CheckLimit need not reject the connection. Then nothing is closed; the reader counts up and the
    -- writer down into the storage that the user has in the counter of the inbound, the writer is
    -- limited by the user's bucket, if there is one, and the user's link manager has the link. Else
    -- the link is closed and interrupted, and nothing is counted or registered.
    pub enter_link_lem :
        (outbound : Link B)
        → let (d', out, entered) = enter_link new_bucket now inbound is_tcp outbound d in
          let b = bucket new_bucket now s email is_tcp l in
          (MustReject email s.source s.source_is_tcp l
            × (entered ≡ none)
            × (out ≡ close_ends outbound.writer outbound.reader)
            × IsRefused new_bucket d d')
          ⊎ (¬ (MustReject email s.source s.source_is_tcp l)
              × (out ≡ [])
              × ((ts : ℕ) × CountsInto s.tag email ts d'
                  × (entered
                      ≡ some (
                        record {
                          reader = counter_reader ts outbound.reader;
                          writer = size_stat_writer ts down (
                              limited rate_limit_writer b
                                (managed_writer email d.next outbound.writer));
                        },
                        some r,
                      ))
                  × Manages email d.next outbound.writer (counter_reader ts outbound.reader) d'))
    unfolding wrap_link after_admit
    enter_link_lem outbound = elim (rejects-MustReject new_bucket now s email is_tcp l) [
      | inl (p, m) ↦ rw (enter_link-rejected outbound p) (inl (m, refl, refl, (refl, refl)))
      | inr (p, m) ↦ rw (enter_link-admitted outbound p) (
          let l' = (check_limit new_bucket now email s.source is_tcp s.source_is_tcp l).0 in
          let d1 = put_limiter r l' d in
          let (ts, d2) = count_user s.tag email d1 in
          inr (
            m,
            refl,
            (
              ts,
              manage-CountsInto s.tag email ts outbound.writer (counter_reader ts outbound.reader)
                  d2 (count_user-CountsInto s.tag email d1),
              refl,
              next-Manages s.tag email outbound.writer (counter_reader ts outbound.reader) d1,
            ),
          ))
    ]
