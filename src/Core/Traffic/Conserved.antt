-- ===== src/Core/Traffic/Conserved.antt =====
-- What a traffic report contains, and that reporting loses no traffic of a user that has a uid.
use ccaa.Base.{
  ℕ, ℤ, pos, ◌+ℤ◌, +ℤ_comm, +ℤ_assoc, zero-+ℤ, balance_trans, Bool, true, ◌≡◌, ◌≢◌, refl, sym, ap,
  ◌∙◌, String, string_eq, int_eq, nat_eq, List, [], ◌∷◌, ◌++◌, Assoc, load, ◌==◌, if◌then◌else◌,
  arith, All,
}
use mathlib.Core.List.{append_assoc, append-nil}
use ccaa.Counter.{TrafficCounter, TrafficStorage, zero_storage, delete_counter}
use ccaa.Panel.User.{UserTraffic}
use ccaa.Core.Traffic.{uid_or_zero, over_minimum, traffic_of, collect_entry, collect, traffic_slice}

-- No later entry leads to the same storage.
abbrev pub Fresh : ℕ → Assoc String ℕ → Type 0
Fresh r es = All (λ e. e.1 ≢ r) es

abbrev pub Distinct : Assoc String ℕ → Type 0
Distinct [] = Unit
Distinct (e ∷ es) = Fresh e.1 es × Distinct es

-- Every user of the table has a uid.
abbrev pub AllKnown : Assoc String ℤ → Assoc String ℕ → Type 0
AllKnown uids es = All (λ e. uid_or_zero (load e.0 uids) ≢ pos 0) es

-- The report, read off the storages as they are at the start.
abbrev pub slice_of : ℤ → Assoc String ℤ → (ℕ → TrafficStorage) → Assoc String ℕ → List UserTraffic
slice_of min uids heap [] = []
slice_of min uids heap (e ∷ es) =
    let rest = slice_of min uids heap es in
    if over_minimum min (heap e.1)
    then if uid_or_zero (load e.0 uids) == pos 0
      then rest
      else traffic_of (uid_or_zero (load e.0 uids)) (heap e.1) ∷ rest
    else rest

-- Sums, of the reported traffic and of what the storages hold.
abbrev pub sum_of : {A : Type 0} → (A → ℤ) → List A → ℤ
sum_of f [] = pos 0
sum_of f (x ∷ xs) = f x +ℤ sum_of f xs

module _ (min : ℤ) (reset : Bool) (uids : Assoc String ℤ) where
  -- One entry changes its own storage alone.
  collect_entry-heap :
      (key : String) (r q : ℕ) (c : TrafficCounter) (out : List UserTraffic)
      → (collect_entry min reset uids (key, r) (c, out)).0.heap q ≡ (
          if reset
          then if over_minimum min (c.heap r)
            then if r == q then zero_storage else c.heap q
            else c.heap q
          else c.heap q)
  unfolding collect_entry delete_counter
  collect_entry-heap key r q c out = ground arith

  slice_of-ext :
      (f g : ℕ → TrafficStorage) (es : Assoc String ℕ)
      → All (λ e. f e.1 ≡ g e.1) es
      → slice_of min uids f es ≡ slice_of min uids g es
  slice_of-ext f g [] h = refl
  slice_of-ext f g (e ∷ es) h = rw (h.0, slice_of-ext f g es h.1)

  Fresh-agree :
      (key : String) (r : ℕ) (c : TrafficCounter) (out : List UserTraffic) (es : Assoc String ℕ)
      → Fresh r es
      → All (λ e. (collect_entry min reset uids (key, r) (c, out)).0.heap e.1 ≡ c.heap e.1) es
  Fresh-agree key r c out [] h = tt
  Fresh-agree key r c out (e ∷ es) h =
      (ground (arith, collect_entry-heap key r e.1 c out), Fresh-agree key r c out es h.1)

  slice_of-cons :
      (heap : ℕ → TrafficStorage) (e : String × ℕ) (es : Assoc String ℕ)
      → slice_of min uids heap (e ∷ es)
        ≡ slice_of min uids heap (e ∷ []) ++ slice_of min uids heap es
  slice_of-cons heap e es = ground arith

  collect_entry-out :
      (key : String) (r : ℕ) (c : TrafficCounter) (out : List UserTraffic)
      → (collect_entry min reset uids (key, r) (c, out)).1
        ≡ out ++ slice_of min uids c.heap ((key, r) ∷ [])
  unfolding collect_entry
  collect_entry-out key r c out = ground (arith, append-nil out)

  collect-out :
      (es : Assoc String ℕ) (c : TrafficCounter) (out : List UserTraffic)
      → Distinct es
      → (collect min reset uids es (c, out)).1 ≡ out ++ slice_of min uids c.heap es
  unfolding collect
  collect-out [] c out d = sym (append-nil out)
  collect-out ((key, r) ∷ es) c out d =
      let (c', out') = collect_entry min reset uids (key, r) (c, out) in
      let one = slice_of min uids c.heap ((key, r) ∷ []) in
      let rest = slice_of min uids c.heap es in
      collect-out es c' out' d.1
      ∙ ap (λ s. out' ++ s) (slice_of-ext c'.heap c.heap es (Fresh-agree key r c out es d.0))
      ∙ ap (λ o. o ++ rest) (collect_entry-out key r c out)
      ∙ append_assoc out one rest
      ∙ ap (λ s. out ++ s) (sym (slice_of-cons c.heap (key, r) es))

  collect-frame :
      (q : ℕ) (es : Assoc String ℕ) (c : TrafficCounter) (out : List UserTraffic)
      → Fresh q es
      → (collect min reset uids es (c, out)).0.heap q ≡ c.heap q
  unfolding collect
  collect-frame q [] c out f = refl
  collect-frame q ((key, r) ∷ es) c out f =
      let (c', out') = collect_entry min reset uids (key, r) (c, out) in
      collect-frame q es c' out' f.1 ∙ ground (arith, collect_entry-heap key r q c out)

pub data Direction : Type 0 where
  up down : Direction

abbrev pub held : Direction → TrafficStorage → ℤ
held up s = s.up_counter
held down s = s.down_counter

abbrev pub said : Direction → UserTraffic → ℤ
said up t = t.upload
said down t = t.download

-- The traffic that the storages of `es` hold, and the traffic in a report.
abbrev pub pending : Direction → (ℕ → TrafficStorage) → Assoc String ℕ → ℤ
pending d heap es = sum_of (λ e. held d (heap e.1)) es

abbrev pub reported : Direction → List UserTraffic → ℤ
reported d out = sum_of (said d) out

reported-concat :
    (d : Direction) (out : List UserTraffic) (t : UserTraffic)
    → reported d (out ++ (t ∷ [])) ≡ reported d out +ℤ said d t
reported-concat d [] t = +ℤ_comm (said d t) (pos 0)
reported-concat d (x ∷ out) t =
    rw (reported-concat d out t) (sym (+ℤ_assoc (said d x) (reported d out) (said d t)))

pending-ext :
    (d : Direction) (f g : ℕ → TrafficStorage) (es : Assoc String ℕ)
    → All (λ e. f e.1 ≡ g e.1) es
    → pending d f es ≡ pending d g es
pending-ext d f g [] h = refl
pending-ext d f g (e ∷ es) h = rw (h.0, pending-ext d f g es h.1)

module _ (min : ℤ) (uids : Assoc String ℤ) where
  collect_entry-balance :
      (d : Direction) (key : String) (r : ℕ) (c : TrafficCounter) (out : List UserTraffic)
      → uid_or_zero (load key uids) ≢ pos 0
      → let (c', out') = collect_entry min true uids (key, r) (c, out) in
        held d (c'.heap r) +ℤ reported d out' ≡ held d (c.heap r) +ℤ reported d out
  unfolding collect_entry
  collect_entry-balance up key r c out k =
      let s = c.heap r in
      let t = traffic_of (uid_or_zero (load key uids)) s in
      ground (
        arith,
        reported-concat up out t,
        +ℤ_comm (reported up out) (said up t),
        zero-+ℤ (said up t +ℤ reported up out),
      )
  collect_entry-balance down key r c out k =
      let s = c.heap r in
      let t = traffic_of (uid_or_zero (load key uids)) s in
      ground (
        arith,
        reported-concat down out t,
        +ℤ_comm (reported down out) (said down t),
        zero-+ℤ (said down t +ℤ reported down out),
      )

  collect-balance :
      (d : Direction) (es : Assoc String ℕ) (c : TrafficCounter) (out : List UserTraffic)
      → Distinct es
      → AllKnown uids es
      → let (c', out') = collect min true uids es (c, out) in
        pending d c'.heap es +ℤ reported d out' ≡ pending d c.heap es +ℤ reported d out
  unfolding collect
  collect-balance d [] c out s k = refl
  collect-balance d ((key, r) ∷ es) c out s k =
      let (c', out') = collect_entry min true uids (key, r) (c, out) in
      let (c'', out'') = collect min true uids es (c', out') in
      let first = collect_entry-balance d key r c out k.0 in
      let rest = collect-balance d es c' out' s.1 k.1 in
      let same = pending-ext d c'.heap c.heap es (Fresh-agree min true uids key r c out es s.0) in
      rw (ap (held d) (collect-frame min true uids r es c' out' s.0)) (
        balance_trans (held d (c.heap r)) (held d (c'.heap r)) (pending d c.heap es)
          (pending d c''.heap es) (reported d out) (reported d out') (reported d out'') first
          (rw same at rest))

  -- A report that resets leaves no traffic of a user out: when each user has its own storage and a
  -- uid, then in each direction the traffic that the storages hold after the report and the traffic
  -- in the report come to what the storages held before.
  pub traffic_slice-conserves :
      (d : Direction) (c : TrafficCounter)
      → Distinct c.counters
      → AllKnown uids c.counters
      → let (c', out) = traffic_slice min true uids c in
        pending d c'.heap c.counters +ℤ reported d out ≡ pending d c.heap c.counters
  unfolding traffic_slice
  traffic_slice-conserves d c s k =
      collect-balance d c.counters c [] s k
      ∙ +ℤ_comm (pending d c.heap c.counters) (pos 0)
      ∙ zero-+ℤ (pending d c.heap c.counters)

-- When each user has its own storage, a report lists, in the order of the table, exactly the users
-- with a uid whose traffic both ways is above the minimum, each with its uid and its traffic
-- before the report.
pub traffic_slice-reports :
    (min : ℤ) (reset : Bool) (uids : Assoc String ℤ) (c : TrafficCounter)
    → Distinct c.counters
    → (traffic_slice min reset uids c).1 ≡ slice_of min uids c.heap c.counters
unfolding traffic_slice
traffic_slice-reports min reset uids c d = collect-out min reset uids c.counters c [] d
