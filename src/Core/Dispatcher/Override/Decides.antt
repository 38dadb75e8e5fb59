-- ===== src/Core/Dispatcher/Override/Decides.antt =====
-- When a sniffed domain takes the place of the destination.
use Prim.Native.String.{slice, len}
use ccaa.Base.{
  String, string_eq, Bool, true, false, not, ◌&&◌, ◌||◌, ◌≡◌, ◌≢◌, ◌⊎◌, inl, inr, ◌↔◌, refl, List,
  [], ◌∷◌, Option, some, ◌==◌, has_prefix, Any, Bool-cases, Option-cases, arith,
}
use text.Mathlib.TextEquality.{eq_iff}
use ccaa.Core.Dispatcher.Override.{
  SniffResult, SniffingRequest, excludes, is_excluded, protocol_string, is_subset_of, wants,
  is_wanted, should_override,
}

-- What makes one name of the request want the result.
abbrev pub Wants : Bool → SniffResult → String → Type 0
Wants in_pool r p =
    (has_prefix (protocol_string r) p ≡ true)
    ⊎ (has_prefix p (protocol_string r) ≡ true)
    ⊎ ((in_pool ≡ true) × (protocol_string r ≢ "bittorrent") × (p ≡ "fakedns"))
    ⊎ (is_subset_of p r.subset ≡ true)

-- What makes one exclusion fit the domain: an expression that compiles and matches, or the domain
-- in small letters.
abbrev pub Excludes :
    {R : Type 0}
    → (String → String)
    → (String → Option R)
    → (R → String → Bool)
    → String
    → String
    → Type 0
Excludes {R} to_lower compile match_string domain e =
    ((has_prefix e "regexp:" ≡ true)
      × ((r : R) × (compile (slice e 7 (len e)) ≡ some r) × (match_string r domain ≡ true)))
    ⊎ ((has_prefix e "regexp:" ≡ false) × (to_lower domain ≡ e))

module _ {R : Type 0} (to_lower : String → String) (compile : String → Option R)
    (match_string : R → String → Bool) where
  is_excluded-Any :
      (domain : String) (es : List String)
      → (is_excluded to_lower compile match_string domain es ≡ true)
        ↔ Any (λ e. excludes to_lower compile match_string domain e ≡ true) es
  unfolding is_excluded
  is_excluded-Any domain [] = (λ h. absurd (ground (arith, h)), λ h. elim h [ ])
  is_excluded-Any domain (e ∷ es) =
      let ih = is_excluded-Any domain es in
      (
        λ h. elim (Bool-cases (excludes to_lower compile match_string domain e)) [
          | inl m ↦ inl m
          | inr m ↦ inr (ih.0 (ground (arith, h, m)))
        ],
        λ h. elim h [ inl m ↦ ground (arith, m) | inr c ↦ ground (arith, ih.1 c) ],
      )

  excludes-Excludes :
      (domain e : String)
      → (excludes to_lower compile match_string domain e ≡ true)
        ↔ Excludes to_lower compile match_string domain e
  excludes-Excludes domain e = elim (Option-cases (compile (slice e 7 (len e)))) [
    | inl c ↦ (
      λ h. elim (Bool-cases (has_prefix e "regexp:")) [
        | inl p ↦ absurd (ground (arith, h, p, c))
        | inr p ↦ inr (p, (eq_iff (to_lower domain) e).0 (ground (arith, h, p)))
      ],
      λ h. elim h [
        | inl (p, (r, k, m)) ↦ absurd (ground (arith, c, k))
        | inr (p, q) ↦ ground (arith, p, (eq_iff (to_lower domain) e).1 q)
      ],
    )
    | inr (r, c) ↦ (
      λ h. elim (Bool-cases (has_prefix e "regexp:")) [
        | inl p ↦ inl (p, (r, c, ground (arith, h, p, c)))
        | inr p ↦ inr (p, (eq_iff (to_lower domain) e).0 (ground (arith, h, p)))
      ],
      λ h. elim h [
        | inl (p, (r', k, m)) ↦ ground (arith, p, k, m)
        | inr (p, q) ↦ ground (arith, p, (eq_iff (to_lower domain) e).1 q)
      ],
    )
  ]

or-true : (a b : Bool) → ((a || b) ≡ true) ↔ ((a ≡ true) ⊎ (b ≡ true))
or-true true b = (λ h. inl refl, λ h. refl)
or-true false b = (λ h. inr h, λ h. elim h [ inl q ↦ absurd (ground (arith, q)) | inr q ↦ q ])

both_true : (a b c : Bool) → ((a && (not b && c)) ≡ true) ↔ ((a ≡ true) × (b ≡ false) × (c ≡ true))
both_true a b c = (
  λ h. (ground (arith, h), ground (arith, h), ground (arith, h)),
  λ (x, y, z). ground (arith, x, y, z),
)

not_same : (a b : String) → a ≢ b → (a == b) ≡ false
not_same a b n = elim (Bool-cases (a == b)) [ inl e ↦ absurd (n ((eq_iff a b).0 e)) | inr e ↦ e ]

wants-Wants :
    (in_pool : Bool) (r : SniffResult) (p : String) → (wants in_pool r p ≡ true) ↔ Wants in_pool r p
unfolding wants
wants-Wants in_pool r p =
    let name = protocol_string r in
    let (out, back) =
      or-true (has_prefix name p || has_prefix p name)
        ((in_pool && (not (name == "bittorrent") && p == "fakedns")) || is_subset_of p r.subset) in
    let (out1, back1) = or-true (has_prefix name p) (has_prefix p name) in
    let (out2, back2) =
      or-true (in_pool && (not (name == "bittorrent") && p == "fakedns"))
        (is_subset_of p r.subset) in
    let (out3, back3) = both_true in_pool (name == "bittorrent") (p == "fakedns") in
    (
      λ h. elim (out h) [
        | inl a ↦ elim (out1 a) [ inl b ↦ inl b | inr b ↦ inr (inl b) ]
        | inr a ↦ elim (out2 a) [
          | inl b ↦
              let (x, y, z) = out3 b in
              inr (
                inr (
                  inl (
                    x,
                    λ q. absurd (ground (arith, y, (eq_iff name "bittorrent").1 q)),
                    (eq_iff p "fakedns").0 z,
                  )))
          | inr b ↦ inr (inr (inr b))
        ]
      ],
      λ h. elim h [
        | inl a ↦ back (inl (back1 (inl a)))
        | inr k ↦ elim k [
          | inl a ↦ back (inl (back1 (inr a)))
          | inr j ↦ elim j [
            | inl (x, y, z) ↦ back (
                inr
                  (back2 (inl (back3 (x, not_same name "bittorrent" y, (eq_iff p "fakedns").1 z)))))
            | inr a ↦ back (inr (back2 (inr a)))
          ]
        ]
      ],
    )

is_wanted-Any :
    (in_pool : Bool) (r : SniffResult) (ps : List String)
    → (is_wanted in_pool r ps ≡ true) ↔ Any (λ p. wants in_pool r p ≡ true) ps
unfolding is_wanted
is_wanted-Any in_pool r [] = (λ h. absurd (ground (arith, h)), λ h. elim h [ ])
is_wanted-Any in_pool r (p ∷ ps) =
    let ih = is_wanted-Any in_pool r ps in
    (
      λ h. elim (Bool-cases (wants in_pool r p)) [
        | inl m ↦ inl m
        | inr m ↦ inr (ih.0 (ground (arith, h, m)))
      ],
      λ h. elim h [ inl m ↦ ground (arith, m) | inr c ↦ ground (arith, ih.1 c) ],
    )

Any-iff {ℓ} :
    {A : Type ℓ} {P Q : A → Type 0} → ((x : A) → P x ↔ Q x) → (xs : List A) → Any P xs ↔ Any Q xs
Any-iff f [] = (λ h. h, λ h. h)
Any-iff f (x ∷ xs) =
    let ih = Any-iff f xs in
    (
      λ h. elim h [ inl p ↦ inl ((f x).0 p) | inr p ↦ inr (ih.0 p) ],
      λ h. elim h [ inl q ↦ inl ((f x).1 q) | inr q ↦ inr (ih.1 q) ],
    )

-- A result takes the place of the destination exactly when it has a domain, none of the request's
-- exclusions fits the domain (an expression that does not compile fits nothing), and one of the
-- protocols of the request wants the result: one of its name and the result's begins with the
-- other, or it is fakedns, the address is of the fake DNS and the result is not of bittorrent, or
-- the result is a subset of it.
pub should_override_lem :
    {R : Type 0} (to_lower : String → String) (compile : String → Option R)
    (match_string : R → String → Bool) (in_pool : Bool) (r : SniffResult) (q : SniffingRequest)
    → (should_override to_lower compile match_string in_pool r q ≡ true) ↔ (
        (r.domain ≢ "")
        × ¬ (Any (Excludes to_lower compile match_string r.domain) q.exclude_for_domain)
        × Any (Wants in_pool r) q.override_destination_for_protocol)
unfolding should_override
should_override_lem to_lower compile match_string in_pool r q =
    let es = q.exclude_for_domain in
    let ps = q.override_destination_for_protocol in
    let any_e = is_excluded-Any to_lower compile match_string r.domain es in
    let fits = Any-iff (excludes-Excludes to_lower compile match_string r.domain) es in
    let any_p = is_wanted-Any in_pool r ps in
    let wanted = Any-iff (wants-Wants in_pool r) ps in
    elim (Bool-cases (r.domain == "")) [
      | inl d ↦
          (λ h. absurd (ground (arith, h, d)), λ (n, x, w). absurd (n ((eq_iff r.domain "").0 d)))
      | inr d ↦ elim (Bool-cases (is_excluded to_lower compile match_string r.domain es)) [
        | inl e ↦
            (λ h. absurd (ground (arith, h, d, e)), λ (n, x, w). absurd (x (fits.0 (any_e.0 e))))
        | inr e ↦ (
          λ h. (
            λ s. absurd (ground (arith, d, (eq_iff r.domain "").1 s)),
            λ x. absurd (ground (arith, e, any_e.1 (fits.1 x))),
            wanted.0 (any_p.0 (ground (arith, h, d, e))),
          ),
          λ (n, x, w). ground (arith, d, e, any_p.1 (wanted.1 w)),
        )
      ]
    ]
