-- ===== src/Core/Sing/Decides.antt =====
-- What becomes of a connection that sing-box hands to the hook.
use ccaa.Base.{
  ℕ, ℤ, String, string_eq, nat_eq, Bool, true, false, ◌||◌, ◌≡◌, ◌⊎◌, inl, inr, ◌↔◌, refl, ◌∙◌,
  Option, none, some, Assoc, load, load-store, if◌then◌else◌, arith, Bool-cases, Option-cases,
  beq_refl,
}
use ccaa.Format.{user_tag}
use ccaa.Counter.Totals.{get_counter-registers}
use ccaa.Counter.{TrafficCounter, get_counter}
use ccaa.Limiter.{Limiter, UserLimitInfo}
use ccaa.Limiter.Registry.{get_limiter}
use ccaa.Limiter.Speed.{determine_speed_limit}
use ccaa.Limiter.Check.{
  check_limit, check_known, check_device, known_device, first_device, speed_bucket,
  user_speed_limit, bytes_per_second,
}
use ccaa.Limiter.Check.Reject.{
  MustReject, check_limit-rejects, check_limit-known, check_limit-unknown, plain_ip,
}
use ccaa.Limiter.Rules.{check_domain_rule, check_protocol_rule}
use ccaa.Core.Sing.{
  HookServer, InboundContext, Routed, count_user, counter_of, blocked, finish, routed_with, routed,
  put, routed_connection, routed_packet_connection, protocol_of,
}

-- No check changes the rules.
user_speed_limit-rules :
    {R B : Type 0} (now : ℤ) (t : String) (u : UserLimitInfo) (l : Limiter R B)
    → let m = (user_speed_limit now t u l).1 in
      (m.domain_rules ≡ l.domain_rules) × (m.protocol_rules ≡ l.protocol_rules)
unfolding user_speed_limit
user_speed_limit-rules now t u l = (ground arith, ground arith)

check_device-rules :
    {R B : Type 0} (t ip : String) (uid limit : ℤ) (l : Limiter R B)
    → let m = (check_device t ip uid limit l).0 in
      (m.domain_rules ≡ l.domain_rules) × (m.protocol_rules ≡ l.protocol_rules)
unfolding check_device known_device first_device
check_device-rules t ip uid limit l = (ground arith, ground arith)

speed_bucket-rules :
    {R B : Type 0} (new_bucket : ℤ → ℤ → B) (t : String) (limit : ℤ) (l : Limiter R B)
    → let m = (speed_bucket new_bucket t limit l).0 in
      (m.domain_rules ≡ l.domain_rules) × (m.protocol_rules ≡ l.protocol_rules)
unfolding speed_bucket
speed_bucket-rules new_bucket t limit l = (ground arith, ground arith)

check_known-rules :
    {R B : Type 0} (new_bucket : ℤ → ℤ → B) (now : ℤ) (t ip : String) (no_ss_udp : Bool)
    (u : UserLimitInfo) (l : Limiter R B)
    → let m = (check_known new_bucket now t ip no_ss_udp u l).0 in
      (m.domain_rules ≡ l.domain_rules) × (m.protocol_rules ≡ l.protocol_rules)
unfolding check_known
check_known-rules new_bucket now t ip no_ss_udp u l =
    let (user_limit, l1) = user_speed_limit now t u l in
    let l2 = (check_device t ip u.uid u.device_limit l1).0 in
    let rate = bytes_per_second (determine_speed_limit l.speed_limit user_limit) in
    let a = user_speed_limit-rules now t u l in
    let b = check_device-rules t ip u.uid u.device_limit l1 in
    let c = speed_bucket-rules new_bucket t rate l1 in
    let d = speed_bucket-rules new_bucket t rate l2 in
    (ground (arith, a, b, c, d), ground (arith, a, b, c, d))

pub check_limit-rules :
    {R B : Type 0} (new_bucket : ℤ → ℤ → B) (now : ℤ) (t ip : String) (is_tcp no_ss_udp : Bool)
    (l : Limiter R B)
    → let m = (check_limit new_bucket now t ip is_tcp no_ss_udp l).0 in
      (m.domain_rules ≡ l.domain_rules) × (m.protocol_rules ≡ l.protocol_rules)
check_limit-rules new_bucket now t ip is_tcp no_ss_udp l =
    elim (Option-cases (load t l.user_limit_info)) [
      | inl e ↦ rw (check_limit-unknown new_bucket now t ip is_tcp no_ss_udp l e) (refl, refl)
      | inr (u, e) ↦
          rw (check_limit-known new_bucket now t ip is_tcp no_ss_udp u l e)
            (check_known-rules new_bucket now t (plain_ip ip) no_ss_udp u l)
    ]

count_user-registers :
    (tag user : String) (counter : Assoc String TrafficCounter)
    → let (r, counter') = count_user tag user counter in
      (c : TrafficCounter) × (load tag counter' ≡ some c) × (load user c.counters ≡ some r)
unfolding count_user
count_user-registers tag user counter =
    let (r, c) = get_counter user (counter_of (load tag counter)) in
    (
      c,
      load-store tag tag c counter ∙ ground (arith, beq_refl tag),
      get_counter-registers user (counter_of (load tag counter)),
    )

-- A connection that is closed is not counted; any other one counts into its user's storage.
abbrev pub IsCounted :
    {R B : Type 0} → InboundContext → HookServer R B → HookServer R B × Routed B → Type 0
IsCounted m h (h', out) =
    ((out.closed ≡ true) × (h'.counter ≡ h.counter) × (out.storage ≡ none))
    ⊎ ((c : TrafficCounter) × (q : ℕ) × (out.closed ≡ false)
        × (out.storage ≡ some q)
        × (load m.inbound h'.counter ≡ some c)
        × (load m.user c.counters ≡ some q))

module _ {R B : Type 0} (match_string : R → String → Bool) where
  pub blocked-congr :
      (destination protocol : String) (l m : Limiter R B)
      → (m.domain_rules ≡ l.domain_rules) × (m.protocol_rules ≡ l.protocol_rules)
      → blocked match_string destination protocol m ≡ blocked match_string destination protocol l
  unfolding blocked check_domain_rule check_protocol_rule
  blocked-congr destination protocol l m (a, b) = rw (a, b) refl

  finish-IsCounted :
      (protocol : String) (m : InboundContext) (b : Option B) (l : Limiter R B) (h : HookServer R B)
      → IsCounted m h (finish match_string protocol m b l h)
  unfolding finish
  finish-IsCounted protocol m b l h =
      let (q, counter) = count_user m.inbound m.user h.counter in
      let (c, e, f) = count_user-registers m.inbound m.user h.counter in
      elim (Bool-cases (blocked match_string m.destination protocol l)) [
        | inl p ↦ rw (p, finish) (inl (refl, refl, refl))
        | inr p ↦ rw (p, finish) (inr (c, q, refl, refl, e, f))
      ]

module _ {R B : Type 0} (new_bucket : ℤ → ℤ → B) (match_string : R → String → Bool) where
  routed_with-closed :
      (now : ℤ) (is_tcp : Bool) (m : InboundContext) (r : ℕ) (l : Limiter R B) (h : HookServer R B)
      → let t = user_tag m.inbound m.user in
        (routed_with new_bucket match_string now is_tcp m r l h).1.closed ≡ (
          (check_limit new_bucket now t m.source is_tcp is_tcp l).2
          || blocked match_string m.destination (protocol_of is_tcp m) l)
  unfolding routed_with finish
  routed_with-closed now is_tcp m r l h =
      let t = user_tag m.inbound m.user in
      let l' = (check_limit new_bucket now t m.source is_tcp is_tcp l).0 in
      ground (
        arith,
        blocked-congr match_string m.destination (protocol_of is_tcp m) l l'
            (check_limit-rules new_bucket now t m.source is_tcp is_tcp l),
      )

  routed_with-IsCounted :
      (now : ℤ) (is_tcp : Bool) (m : InboundContext) (r : ℕ) (l : Limiter R B) (h : HookServer R B)
      → IsCounted m h (routed_with new_bucket match_string now is_tcp m r l h)
  unfolding routed_with
  routed_with-IsCounted now is_tcp m r l h =
      let t = user_tag m.inbound m.user in
      let (l', b, reject) = check_limit new_bucket now t m.source is_tcp is_tcp l in
      elim (Bool-cases reject) [
        | inl p ↦ rw (p, routed_with) (inl (refl, refl, refl))
        | inr p ↦
            rw (p, routed_with)
              (finish-IsCounted match_string (protocol_of is_tcp m) m (if is_tcp then b else none)
                l' (put r l' h))
      ]

  routed_with-closes :
      (now : ℤ) (is_tcp : Bool) (m : InboundContext) (r : ℕ) (l : Limiter R B) (h : HookServer R B)
      → ((routed_with new_bucket match_string now is_tcp m r l h).1.closed ≡ true) ↔ (
          MustReject (user_tag m.inbound m.user) m.source is_tcp l
          ⊎ (blocked match_string m.destination (protocol_of is_tcp m) l ≡ true))
  routed_with-closes now is_tcp m r l h =
      let t = user_tag m.inbound m.user in
      let rejects = check_limit-rejects new_bucket now t m.source is_tcp is_tcp l in
      let closed = routed_with-closed now is_tcp m r l h in
      (
        λ c. elim (Bool-cases (check_limit new_bucket now t m.source is_tcp is_tcp l).2) [
          | inl p ↦ inl (rejects.0 p)
          | inr p ↦ inr (ground (arith, closed, c, p))
        ],
        λ d. elim d [
          | inl j ↦ ground (arith, closed, rejects.1 j)
          | inr j ↦ ground (arith, closed, j)
        ],
      )

  routed-found :
      (now : ℤ) (is_tcp : Bool) (m : InboundContext) (r : ℕ) (l : Limiter R B) (h : HookServer R B)
      → get_limiter m.inbound h.registry ≡ some r
      → load r h.registry.heap ≡ some l
      → routed new_bucket match_string now is_tcp m h
        ≡ routed_with new_bucket match_string now is_tcp m r l h
  unfolding routed
  routed-found now is_tcp m r l h e f = rw (e, routed) (rw f refl)

  -- Where the inbound has a limiter, a stream is closed exactly when CheckLimit must reject its user
  -- and address as a device, or a rule blocks it; a packet connection exactly when its user is not
  -- known, or a rule blocks it. A connection that is closed is not counted, and one that stays open
  -- counts its traffic in the storage that its user has in the inbound's counter.
  pub routed_lem :
      (now : ℤ) (m : InboundContext) (r : ℕ) (l : Limiter R B) (h : HookServer R B)
      → get_limiter m.inbound h.registry ≡ some r
      → load r h.registry.heap ≡ some l
      → let t = user_tag m.inbound m.user in
        let stream = routed_connection new_bucket match_string now m h in
        let packet = routed_packet_connection new_bucket match_string now m h in
        ((stream.1.closed ≡ true) ↔ (
          MustReject t m.source true l ⊎ (blocked match_string m.destination m.protocol l ≡ true)))
        × ((packet.1.closed ≡ true) ↔ (
            (load t l.user_limit_info ≡ none)
            ⊎ (blocked match_string m.destination m.network l ≡ true)))
        × IsCounted m h stream
        × IsCounted m h packet
  unfolding routed_connection routed_packet_connection
  routed_lem now m r l h e f =
      let stream = routed_with-closes now true m r l h in
      let packet = routed_with-closes now false m r l h in
      rw (routed-found now true m r l h e f, routed-found now false m r l h e f)
        (
          stream,
          (
            λ c. elim (packet.0 c) [
              | inl j ↦ elim j [ inl n ↦ inl n | inr (u, k, tcp, o) ↦ absurd (ground (arith, tcp)) ]
              | inr j ↦ inr j
            ],
            λ d. packet.1 (elim d [ inl n ↦ inl (inl n) | inr j ↦ inr j ]),
          ),
          routed_with-IsCounted now true m r l h,
          routed_with-IsCounted now false m r l h,
        )
