-- ===== src/Core/Hysteria2/Logger/Marks.antt =====
-- What an event of a connection does to the traffic that is logged next.
use ccaa.Base.{
  ℕ, ℤ, Bool, true, false, ◌&&◌, ◌≡◌, refl, sym, ◌∙◌, ap, subst, inl, inr, ◌↔◌, String, string_eq,
  nat_eq, Option, some, is_some, load, store, load-store, beq_refl, ◌==◌, arith, Option-cases,
}
use mathlib.Core.Option.{some-injective}
use ccaa.Format.{user_tag}
use ccaa.Limiter.{Limiter, UserLimitInfo}
use ccaa.Limiter.Registry.{Registry, get_limiter}
use ccaa.Limiter.Check.{check_limit}
use ccaa.Limiter.Check.Device.{IsOverDeviceLimit}
use ccaa.Limiter.Check.Reject.{plain_ip, check_limit-rejects, check_limit-unknown}
use ccaa.Limiter.Check.Known.{is_forgotten, check_limit-knows}
use ccaa.Core.Hysteria2.{HookServer, over_limit, log_traffic}
use ccaa.Core.Hysteria2.Logs.{log_with-flag, log_traffic-found}
use ccaa.Core.Hysteria2.Logger.{Addr, network, extract_ip_from_addr, set_mark, after_check, connect}

over_limit-set_mark :
    {R B : Type 0} (t : String) (b : Bool) (l : Limiter R B)
    → over_limit t (set_mark t b l) ≡ (is_some (load t l.user_limit_info) && b)
unfolding set_mark
over_limit-set_mark t b l = elim (Option-cases (load t l.user_limit_info)) [
  | inl e ↦ ground arith
  | inr (u, e) ↦
      ground (arith, beq_refl t, load-store t t (record u { over_limit = b }) l.user_limit_info)
]

-- The user is known and stays known, and comes from one address too many.
abbrev pub MustRefuse : {R B : Type 0} → ℤ → String → Addr → Limiter R B → Type 0
MustRefuse now t addr l =
    (u : UserLimitInfo) × (load t l.user_limit_info ≡ some u)
    × (is_forgotten now u ≡ false)
    × IsOverDeviceLimit t (plain_ip (extract_ip_from_addr addr)) u l

module _ {R B : Type 0} (new_bucket : ℤ → ℤ → B) (now : ℤ) where
  checked : String → Addr → Limiter R B → Limiter R B × Option B × Bool
  checked t addr l =
      check_limit new_bucket now t (extract_ip_from_addr addr) (network addr == "tcp") true l

  after_check_lem :
      (t : String) (addr : Addr) (l : Limiter R B)
      → over_limit t (after_check new_bucket now t addr l)
        ≡ (is_some (load t (checked t addr l).0.user_limit_info) && (checked t addr l).2)
  unfolding after_check checked
  after_check_lem t addr l = over_limit-set_mark t (checked t addr l).2 (checked t addr l).0

  checked-rejects :
      (t : String) (addr : Addr) (l : Limiter R B) (u : UserLimitInfo)
      → load t l.user_limit_info ≡ some u
      → ((checked t addr l).2 ≡ true)
        ↔ IsOverDeviceLimit t (plain_ip (extract_ip_from_addr addr)) u l
  unfolding checked
  checked-rejects t addr l u e =
      let iff =
        check_limit-rejects new_bucket now t (extract_ip_from_addr addr) (network addr == "tcp")
          true l in
      (
        λ h. elim (iff.0 h) [
          | inl f ↦ absurd (ground arith)
          | inr (v, f, g, o) ↦
              let same : v ≡ u = some-injective _ _ (sym f ∙ e) in
              subst (λ w. IsOverDeviceLimit t (plain_ip (extract_ip_from_addr addr)) w l) same o
        ],
        λ o. iff.1 (inr (u, e, refl, o)),
      )

  after_check-over_limit :
      (t : String) (addr : Addr) (l : Limiter R B)
      → (over_limit t (after_check new_bucket now t addr l) ≡ true) ↔ MustRefuse now t addr l
  unfolding checked
  after_check-over_limit t addr l = elim (Option-cases (load t l.user_limit_info)) [
    | inl e ↦
        let same =
          check_limit-unknown new_bucket now t (extract_ip_from_addr addr) (network addr == "tcp")
            true l e in
        (
          λ h. absurd (ground (arith, after_check_lem t addr l, same, e)),
          λ (u, f, g, o). absurd (ground arith),
        )
    | inr (u, e) ↦
        let knows =
          check_limit-knows new_bucket now t (extract_ip_from_addr addr) (network addr == "tcp")
            true u l e in
        let flag = after_check_lem t addr l in
        let rejects = checked-rejects t addr l u e in
        (
          λ h. (u, e, ground arith, rejects.0 (ground arith)),
          λ (v, f, g, o).
              let same : v ≡ u = some-injective _ _ (sym f ∙ e) in
              let over = rejects.1 (
                subst (λ w. IsOverDeviceLimit t (plain_ip (extract_ip_from_addr addr)) w l) same
                  o) in
              let kept = rw same at g in ground arith,
        )
  ]

  -- Where the node has a limiter, Connect, TCPRequest and UDPRequest return, and LogTraffic for the
  -- same user right after refuses exactly when the user is known, is not forgotten by the check for
  -- a dynamic limit that has run out, and comes from an address that is one device too many. In
  -- particular the traffic of a user whom the node does not know is accepted.
  pub connect-log_traffic :
      (h : HookServer R B) (q : ℕ) (l : Limiter R B) (id : String) (addr : Addr) (t r : ℕ)
      → get_limiter h.tag h.registry ≡ some q
      → load q h.registry.heap ≡ some l
      → (g : Registry R B) × (connect new_bucket now h.tag addr id h.registry ≡ some g)
        × (((log_traffic id t r (record h { registry = g })).1 ≡ false)
            ↔ MustRefuse now (user_tag h.tag id) addr l)
  unfolding connect get_limiter
  connect-log_traffic h q l id addr t r e f =
      let m = after_check new_bucket now (user_tag h.tag id) addr l in
      let g = record h.registry { heap = store q m h.registry.heap } in
      let k = record h { registry = g } in
      let found : load q (store q m h.registry.heap) ≡ some m =
        ground (arith, load-store q q m h.registry.heap, beq_refl q) in
      let logs = log_traffic-found id t r q m k e found in
      let flag = ap (λ x. x.1) logs ∙ log_with-flag id t r q m k in
      let iff = after_check-over_limit (user_tag h.tag id) addr l in
      (
        g,
        rw (e, connect) (rw f refl),
        (λ a. iff.0 (ground (arith, flag)), λ d. ground (arith, flag, iff.1 d)),
      )
