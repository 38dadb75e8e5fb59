-- ===== src/Core/Hysteria2/Logs.antt =====
-- What LogTraffic counts, and when it refuses.
use ccaa.Base.{
  ℕ, pos, wrap64, ◌≡◌, refl, String, string_eq, nat_eq, not, ◌&&◌, some, load, load-store, ◌==◌,
  if◌then◌else◌, arith, beq_refl,
}
use ccaa.Format.{user_tag}
use ccaa.Counter.{TrafficCounter, add_up, add_down, rx, tx}
use ccaa.Counter.Totals.{IsSeparate, storage_of, rx_lem, tx_lem}
use ccaa.Limiter.{Limiter}
use ccaa.Limiter.Registry.{get_limiter}
use ccaa.Core.Hysteria2.{
  HookServer, counter_of, over_limit, count_traffic, clear_over_limit, log_with, log_traffic,
}

abbrev pub counter_at : {R B : Type 0} → HookServer R B → TrafficCounter
counter_at h = counter_of (load h.tag h.counter)

module _ {R B : Type 0} where
  count_traffic-storage :
      (id v : String) (t r : ℕ) (h : HookServer R B)
      → IsSeparate (counter_at h)
      → storage_of v (counter_at (count_traffic id t r h)) ≡ (
          if id == v
          then add_up (wrap64 (pos t)) (add_down (wrap64 (pos r)) (storage_of v (counter_at h)))
          else storage_of v (counter_at h))
  unfolding count_traffic
  count_traffic-storage id v t r h s =
      let c = counter_at h in
      let received = rx_lem id v (wrap64 (pos r)) c s in
      let d = rx id (wrap64 (pos r)) c in
      let sent = tx_lem id v (wrap64 (pos t)) d received.1 in
      ground (
        arith,
        load-store h.tag h.tag (tx id (wrap64 (pos t)) d) h.counter,
        beq_refl h.tag,
        received.0,
        sent.0,
      )

  pub log_with-flag :
      (id : String) (t r : ℕ) (q : ℕ) (l : Limiter R B) (h : HookServer R B)
      → (log_with id t r q l h).1 ≡ not (over_limit (user_tag h.tag id) l)
  unfolding log_with
  log_with-flag id t r q l h = ground arith

  log_with-state :
      (id : String) (t r : ℕ) (q : ℕ) (l : Limiter R B) (h : HookServer R B)
      → counter_at (log_with id t r q l h).0 ≡ (
          if over_limit (user_tag h.tag id) l
          then counter_at h
          else counter_at (count_traffic id t r h))
  unfolding log_with clear_over_limit
  log_with-state id t r q l h = ground arith

  pub log_traffic-found :
      (id : String) (t r : ℕ) (q : ℕ) (l : Limiter R B) (h : HookServer R B)
      → get_limiter h.tag h.registry ≡ some q
      → load q h.registry.heap ≡ some l
      → log_traffic id t r h ≡ log_with id t r q l h
  unfolding log_traffic
  log_traffic-found id t r q l h e f = rw (e, log_traffic) (rw f refl)

  -- Where the node has a limiter, and its counter keeps its users' storages apart, LogTraffic
  -- refuses exactly when the user is marked as over the limit. If it accepts, the user's counts
  -- have grown by what was sent and received, in 64 bits, and no other user's have changed; if it
  -- refuses, no count has changed.
  pub log_traffic_lem :
      (id v : String) (t r : ℕ) (q : ℕ) (l : Limiter R B) (h : HookServer R B)
      → get_limiter h.tag h.registry ≡ some q
      → load q h.registry.heap ≡ some l
      → IsSeparate (counter_at h)
      → let (h', accepted) = log_traffic id t r h in
        let before = storage_of v (counter_at h) in
        (accepted ≡ not (over_limit (user_tag h.tag id) l))
        × (storage_of v (counter_at h') ≡ (
            if accepted && id == v
            then add_up (wrap64 (pos t)) (add_down (wrap64 (pos r)) before)
            else before))
  log_traffic_lem id v t r q l h e f s = rw (log_traffic-found id t r q l h e f) (
    log_with-flag id t r q l h,
    ground (
      arith,
      log_with-flag id t r q l h,
      log_with-state id t r q l h,
      count_traffic-storage id v t r h s,
    ),
  )
