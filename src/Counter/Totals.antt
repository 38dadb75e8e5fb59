-- ===== src/Counter/Totals.antt =====
-- What the counts come to over any sequence of calls.
use ccaa.Base.{
  ℕ, ℤ, ◌∙◌, beq_refl, ◌+◌, ◌<◌, pos, +ℤ_pos, wrap64_of_InInt64, two63, ◌≡◌, inl, inr, refl, String,
  string_eq, nat_eq, List, [], ◌∷◌, none, some, load, load-store, load-delete, ◌==◌, if◌then◌else◌,
  arith, Option-cases,
}
use text.Mathlib.TextEquality.{eq_iff}
use ccaa.Counter.{
  TrafficCounter, TrafficStorage, zero_storage, add64, add_up, add_down, get_counter, get_up_count,
  get_down_count, new_traffic_counter, rx, tx, reset, delete_counter, modify,
}

pub add64_pos : (a b : ℕ) → a + b < two63 → add64 (pos a) (pos b) ≡ pos (a + b)
unfolding add64
add64_pos a b h = rw +ℤ_pos (wrap64_of_InInt64 (pos (a + b)) (h, omega arith))

-- The map leads different users to different storages, all of them in use.
pub record IsSeparate (c : TrafficCounter) : Type 0 where
  pub used : (u : String) (r : ℕ) → load u c.counters ≡ some r → r < c.next
  pub apart :
      (u v : String) (r : ℕ) → load u c.counters ≡ some r → load v c.counters ≡ some r → u ≡ v

get_counter-IsSeparate :
    (u : String) (c : TrafficCounter) → IsSeparate c → IsSeparate (get_counter u c).1
unfolding get_counter
get_counter-IsSeparate u c s = record {
  used = λ v r e. ground (arith, s.used v r, eq_iff u v, load-store u v c.next c.counters);
  apart = λ v w r e f. ground (
    arith,
    s.apart v w r,
    s.used v r,
    s.used w r,
    eq_iff u v,
    eq_iff u w,
    load-store u v c.next c.counters,
    load-store u w c.next c.counters,
  );
}

-- What a user's storage holds: zeros where there is none.
pub storage_of : String → TrafficCounter → TrafficStorage
storage_of v c = elim (load v c.counters) [ none ↦ zero_storage | some r ↦ c.heap r ]

-- To change a user's storage, made if need be, changes no other user's.
modify_lem :
    (f : TrafficStorage → TrafficStorage) (u v : String) (c : TrafficCounter)
    → IsSeparate c
    → let (r, d) = get_counter u c in
      storage_of v (modify f r d) ≡ (if u == v then f (storage_of u c) else storage_of v c)
unfolding get_counter modify storage_of
modify_lem f u v c s = elim (Option-cases (load u c.counters)) [
  | inl e ↦ elim (Option-cases (load v c.counters)) [
    | inl g ↦ ground (arith, eq_iff u v, load-store u v c.next c.counters)
    | inr (q, g) ↦ ground (arith, s.used v q g, eq_iff u v, load-store u v c.next c.counters)
  ]
  | inr (r, e) ↦ elim (Option-cases (load v c.counters)) [
    | inl g ↦ ground (arith, eq_iff u v)
    | inr (q, g) ↦ ground (arith, s.apart u v r e, eq_iff u v)
  ]
]

-- The storage that a user gets is the user's.
pub get_counter-registers :
    (user : String) (c : TrafficCounter)
    → let (r, d) = get_counter user c in load user d.counters ≡ some r
unfolding get_counter
get_counter-registers user c = elim (Option-cases (load user c.counters)) [
  | inl e ↦
      rw (e, get_counter) (load-store user user c.next c.counters ∙ ground (arith, beq_refl user))
  | inr (r, e) ↦ rw (e, get_counter) e
]

-- Rx and Tx, with any number.
pub rx_lem :
    (u v : String) (n : ℤ) (c : TrafficCounter)
    → IsSeparate c
    → (storage_of v (rx u n c) ≡ (if u == v then add_down n (storage_of v c) else storage_of v c))
      × IsSeparate (rx u n c)
unfolding rx modify
rx_lem u v n c s =
    let d = get_counter-IsSeparate u c s in
    (
      ground (arith, modify_lem (add_down n) u v c s, eq_iff u v),
      record { used = d.used; apart = d.apart },
    )

pub tx_lem :
    (u v : String) (n : ℤ) (c : TrafficCounter)
    → IsSeparate c
    → (storage_of v (tx u n c) ≡ (if u == v then add_up n (storage_of v c) else storage_of v c))
      × IsSeparate (tx u n c)
unfolding tx modify
tx_lem u v n c s =
    let d = get_counter-IsSeparate u c s in
    (
      ground (arith, modify_lem (add_up n) u v c s, eq_iff u v),
      record { used = d.used; apart = d.apart },
    )

-- The traffic calls: `rx` counts down, `tx` counts up.
pub data Traffic : Type 0 where
  received : String → ℕ → Traffic
  sent : String → ℕ → Traffic

unfoldable pub count : Traffic → TrafficCounter → TrafficCounter
count (received u n) c = rx u (pos n) c
count (sent u n) c = tx u (pos n) c

unfoldable pub count_all : List Traffic → TrafficCounter → TrafficCounter
count_all [] c = c
count_all (t ∷ ts) c = count_all ts (count t c)

-- A user's share of the traffic, each way.
abbrev pub sent_by : String → List Traffic → ℕ
sent_by v [] = 0
sent_by v (sent u n ∷ ts) = let rest = sent_by v ts in if u == v then n + rest else rest
sent_by v (received u n ∷ ts) = sent_by v ts

abbrev pub received_by : String → List Traffic → ℕ
received_by v [] = 0
received_by v (sent u n ∷ ts) = received_by v ts
received_by v (received u n ∷ ts) = let rest = received_by v ts in if u == v then n + rest else rest

pub count-IsSeparate : (t : Traffic) (c : TrafficCounter) → IsSeparate c → IsSeparate (count t c)
unfolding count
count-IsSeparate (received u n) c s = (rx_lem u u (pos n) c s).1
count-IsSeparate (sent u n) c s = (tx_lem u u (pos n) c s).1

-- One call, from `a` up and `b` down, with no overflow.
count-storage :
    (t : Traffic) (v : String) (c : TrafficCounter) (a b : ℕ)
    → IsSeparate c
    → storage_of v c ≡ record { up_counter = pos a; down_counter = pos b }
    → a + sent_by v (t ∷ []) < two63
    → b + received_by v (t ∷ []) < two63
    → storage_of v (count t c) ≡ record {
      up_counter = pos (a + sent_by v (t ∷ []));
      down_counter = pos (b + received_by v (t ∷ []));
    }
unfolding count
count-storage (received u n) v c a b s e p q = ground (arith, rx_lem u v (pos n) c s, add64_pos b n)
count-storage (sent u n) v c a b s e p q = ground (arith, tx_lem u v (pos n) c s, add64_pos a n)

sent_by-cons :
    (v : String) (t : Traffic) (ts : List Traffic)
    → sent_by v (t ∷ ts) ≡ sent_by v (t ∷ []) + sent_by v ts
sent_by-cons v (received u n) ts = omega arith
sent_by-cons v (sent u n) ts = ground arith

received_by-cons :
    (v : String) (t : Traffic) (ts : List Traffic)
    → received_by v (t ∷ ts) ≡ received_by v (t ∷ []) + received_by v ts
received_by-cons v (sent u n) ts = omega arith
received_by-cons v (received u n) ts = ground arith

-- Any number of calls.
count_all-storage :
    (v : String) (ts : List Traffic) (c : TrafficCounter) (a b : ℕ)
    → IsSeparate c
    → storage_of v c ≡ record { up_counter = pos a; down_counter = pos b }
    → a + sent_by v ts < two63
    → b + received_by v ts < two63
    → storage_of v (count_all ts c)
      ≡ record { up_counter = pos (a + sent_by v ts); down_counter = pos (b + received_by v ts) }
unfolding count_all
count_all-storage v [] c a b s e p q = ground arith
count_all-storage v (t ∷ ts) c a b s e p q =
    let up = sent_by-cons v t ts in
    let down = received_by-cons v t ts in
    let first = count-storage t v c a b s e (omega arith) (omega arith) in
    let rest =
      count_all-storage v ts (count t c) (a + sent_by v (t ∷ [])) (b + received_by v (t ∷ []))
        (count-IsSeparate t c s) first (omega arith) (omega arith) in
    ground (arith, rest)

get_counts :
    (v : String) (c : TrafficCounter)
    → (get_up_count v c ≡ (storage_of v c).up_counter)
      × (get_down_count v c ≡ (storage_of v c).down_counter)
unfolding get_up_count get_down_count storage_of
get_counts v c = (ground arith, ground arith)

pub new-IsSeparate : IsSeparate new_traffic_counter
unfolding new_traffic_counter load
new-IsSeparate = record {
  used = λ u r e. absurd (ground arith);
  apart = λ u v r e f. absurd (ground arith);
}

-- A new counter, after any traffic calls for any users, has for each user the sum of what was sent
-- and the sum of what was received, as long as these stay below 2^63.
count_all-totals :
    (v : String) (ts : List Traffic)
    → sent_by v ts < two63
    → received_by v ts < two63
    → let c = count_all ts new_traffic_counter in
      (get_up_count v c ≡ pos (sent_by v ts)) × (get_down_count v c ≡ pos (received_by v ts))
count_all-totals v ts p q =
    let all =
      count_all-storage v ts new_traffic_counter 0 0 new-IsSeparate
        (unfold storage_of new_traffic_counter load in refl) (omega arith) (omega arith) in
    let gets = get_counts v (count_all ts new_traffic_counter) in
    (ground (arith, all, gets), ground (arith, all, gets))

-- In a counter that keeps its users' storages apart, Reset zeroes one user's counts, and Delete
-- drops them; other users' stay as they were.
reset-delete_counts :
    (u v : String) (c : TrafficCounter)
    → IsSeparate c
    → (storage_of v (reset u c) ≡ (if u == v then zero_storage else storage_of v c))
      × (storage_of v (delete_counter u c) ≡ (if u == v then zero_storage else storage_of v c))
unfolding reset delete_counter storage_of
reset-delete_counts u v c s = (
  elim (Option-cases (load u c.counters)) [
    | inl e ↦ ground (arith, eq_iff u v)
    | inr (r, e) ↦ elim (Option-cases (load v c.counters)) [
      | inl g ↦ ground (arith, eq_iff u v)
      | inr (q, g) ↦ ground (arith, s.apart u v r e, eq_iff u v)
    ]
  ],
  ground (arith, load-delete u v c.counters),
)
