-- ===== src/Core/Dispatcher/Sniffing/Ends.antt =====
-- The sniffing ends, and keeps all that it has read for the handler.
use ccaa.Base.{
  ℕ, zero, suc, ◌+◌, ◌-◌, ◌<◌, ◌≤◌, Bool, true, false, ◌||◌, ◌≡◌, ◌⊎◌, inl, inr, refl, sym, ap, ◌∙◌,
  List, [], ◌∷◌, ◌++◌, Option, none, some, leb, arith, Bool-cases, Option-cases,
}
use mathlib.Core.List.{append-nil, append_assoc}
use ccaa.Core.Sniffer.{Clue, found, no_clue, unknown, ProtocolSniffer, sniff, sniff_metadata}
use ccaa.Core.Dispatcher.Override.{SniffResult}
use ccaa.Core.Dispatcher.Sniffing.Handed.{inputs, handed_on, handed_on-kept}
use ccaa.Core.Dispatcher.Sniffing.{
  Attempt, fitting, cache, Sniffing, Step, ends, goes_on, time_out, after_sniff, sniff_payload,
  attempt, content_loop, result_of, combine, sniffer, cache_deadline_ns,
}

module _ {U N R : Type 0} where
  -- The loop ends with the attempt, or goes on with one more of the attempts counted, of less than
  -- two.
  abbrev Outcome : Sniffing U N R → Step U N R → Type 0
  Outcome st step =
      ((r : Option R) × (st' : Sniffing U N R) × (step ≡ ends r st')
        × (st'.kept ≡ st.kept)
        × (st'.reads ≡ st.reads))
      ⊎ ((st' : Sniffing U N R) × (step ≡ goes_on st')
          × (st'.kept ≡ st.kept)
          × (st'.reads ≡ st.reads)
          × (st'.total_attempt ≡ st.total_attempt + 1)
          × (st'.total_attempt < 2))

  time_out-Outcome :
      (st : Sniffing U N R)
      → let step = time_out st in
        (step ≡ ends none st) ⊎ ((step ≡ goes_on st) × (st.total_attempt < 2))
  time_out-Outcome st = elim (Bool-cases (leb 2 st.total_attempt || leb st.cache_deadline 0)) [
    | inl p ↦ inl (rw p refl)
    | inr p ↦ inr (rw p refl, ground (arith, p))
  ]

  counted-Outcome :
      (st : Sniffing U N R) (ss : List (ProtocolSniffer (List U) N R))
      → Outcome st (time_out (record st { sniffers = ss; total_attempt = st.total_attempt + 1 }))
  counted-Outcome st ss =
      let st' : Sniffing U N R = record st {
        sniffers = ss;
        total_attempt = st.total_attempt + 1;
      } in
      elim (time_out-Outcome st') [
        | inl e ↦ inl (none, st', e, refl, refl)
        | inr (e, h) ↦ inr (st', e, refl, refl, refl, h)
      ]

  after_sniff-Outcome :
      (st : Sniffing U N R) (ss : List (ProtocolSniffer (List U) N R)) (c : Clue R)
      → Outcome st (after_sniff st (ss, c))
  after_sniff-Outcome st ss (found r) = inl (some r, record st { sniffers = ss }, refl, refl, refl)
  after_sniff-Outcome st ss unknown = inl (none, record st { sniffers = ss }, refl, refl, refl)
  after_sniff-Outcome st ss no_clue = counted-Outcome st ss

  sniff_payload-Outcome :
      (same : N → N → Bool) (n : N) (payload : List U) (st : Sniffing U N R)
      → Outcome st (sniff_payload same n payload st)
  unfolding sniff_payload
  sniff_payload-Outcome same n [] st = counted-Outcome st st.sniffers
  sniff_payload-Outcome same n (b ∷ bs) st =
      let (ss, c) = sniff same (b ∷ bs) n st.sniffers in after_sniff-Outcome st ss c

  -- The attempt does not read or reads an error and ends the loop, or what it reads goes behind what
  -- is kept.
  attempt-Outcome :
      (same : N → N → Bool) (capacity : ℕ) (n : N) (a : Attempt U) (st : Sniffing U N R)
      → let step = attempt same capacity n a st in
        (step ≡ ends none st)
        ⊎ ((a.input ≡ none) × (step ≡ ends none (record st { reads = st.reads + 1 })))
        ⊎ ((mb : List U) × (a.input ≡ some mb)
            × Outcome
                (record st {
                  kept = st.kept ++ mb;
                  reads = st.reads + 1;
                  cache_deadline = st.cache_deadline - a.elapsed;
                })
                step)
  unfolding attempt cache
  attempt-Outcome same capacity n a st = elim (Bool-cases a.is_done) [
    | inl p ↦ inl (rw p refl)
    | inr p ↦ elim (Option-cases a.input) [
      | inl e ↦ inr (inl (e, rw p (rw e refl)))
      | inr (mb, e) ↦ inr (
          inr (
            mb,
            e,
            rw p (
                rw e (
                  sniff_payload-Outcome same n (fitting capacity (st.kept ++ mb)) (record st {
                    kept = st.kept ++ mb;
                    reads = st.reads + 1;
                    cache_deadline = st.cache_deadline - a.elapsed;
                  }))),
          ))
    ]
  ]

  -- With as much fuel as attempts are left, the loop ends, and has kept what it has read.
  content_loop-ends :
      (same : N → N → Bool) (capacity : ℕ) (n : N) (attempts : ℕ → Attempt U) (fuel : ℕ)
      (st : Sniffing U N R)
      → 2 ≤ fuel + st.total_attempt
      → st.total_attempt < 2
      → (r : Option R) × (st' : Sniffing U N R) × (k : ℕ) × (content_loop same capacity n attempts
            fuel st
          ≡ some (r, st'))
        × (st'.reads ≡ st.reads + k)
        × (st'.kept ≡ st.kept ++ inputs attempts k st.reads)
        × (k + st.total_attempt ≤ 2)
  unfolding content_loop
  content_loop-ends same capacity n attempts zero st enough less =
      absurd (ground (arith, enough, less))
  content_loop-ends same capacity n attempts (suc fuel) st enough less =
      elim (attempt-Outcome same capacity n (attempts st.reads) st) [
        | inl e ↦ (
          none,
          st,
          0,
          rw (e, content_loop) refl,
          omega arith,
          sym (append-nil st.kept),
          ground (arith, less),
        )
        | inr more ↦ elim more [
          | inl (e, q) ↦ (
            none,
            record st { reads = st.reads + 1 },
            1,
            rw (q, content_loop) refl,
            refl,
            rw e (sym (append-nil st.kept)),
            ground (arith, less),
          )
          | inr (mb, e, o) ↦ elim o [
            | inl (r, st', q, h, g) ↦ (
              r,
              st',
              1,
              rw (q, content_loop) refl,
              g,
              rw e (h ∙ ap (λ x. st.kept ++ x) (sym (append-nil mb))),
              ground (arith, less),
            )
            | inr (st', q, h, g, t, left) ↦
                let (r, st2, k, f, c, d, b) =
                  content_loop-ends same capacity n attempts fuel st' (ground (arith, enough, t))
                    left in
                let d' : st2.kept ≡ st'.kept ++ inputs attempts k (st.reads + 1) =
                  d ∙ ap (λ x. st'.kept ++ inputs attempts k x) g in
                (
                  r,
                  st2,
                  suc k,
                  rw (q, content_loop) f,
                  omega (arith, c, g),
                  rw e (
                      d'
                      ∙ (ap (λ x. x ++ inputs attempts k (st.reads + 1)) h
                          ∙ append_assoc st.kept mb (inputs attempts k (st.reads + 1)))),
                  ground (arith, b, t),
                )
          ]
        ]
      ]

-- With fuel for two attempts func sniffer ends, whatever the clock, the reader and the sniffers do.
-- It reports how often it has read, which is at most twice, and nothing that it has read is lost: of
-- m + 1 reads that the handler makes afterwards it gets the bytes of the reader's first reads, in
-- their order, those of the sniffing included.
pub sniffer-ends :
    {U N : Type 0} (same : N → N → Bool) (capacity : ℕ) (n : N) (attempts : ℕ → Attempt U)
    (metadata_only : Bool) (ss : List (ProtocolSniffer (List U) N SniffResult)) (m : ℕ)
    → (answer : Option SniffResult) × (kept : List U) × (k : ℕ) × (sniffer same capacity n attempts
          2 metadata_only ss
        ≡ some (answer, kept, k))
      × (k ≤ 2)
      × ((handed_on (suc m) attempts k kept ≡ inputs attempts (k + m) 0)
          ⊎ (handed_on (suc m) attempts k kept ≡ inputs attempts (k + suc m) 0))
unfolding sniffer
sniffer-ends same capacity n attempts true ss m = (
  result_of (sniff_metadata [] ss).1,
  [],
  0,
  refl,
  omega arith,
  handed_on-kept attempts m 0 [] refl,
)
sniffer-ends {U} {N} same capacity n attempts false ss m =
    let (ss', meta) = sniff_metadata [] ss in
    let st : Sniffing U N SniffResult = record {
      total_attempt = 0;
      cache_deadline = cache_deadline_ns;
      kept = [];
      reads = 0;
      sniffers = ss';
    } in
    let (r, st', k, e, c, f, b) =
      content_loop-ends same capacity n attempts 2 st (omega arith) (omega arith) in
    let counted : st'.reads ≡ k = omega (arith, c) in
    (
      combine (result_of meta) r,
      st'.kept,
      k,
      rw (e, sniffer) (ap (λ x. some (combine (result_of meta) r, st'.kept, x)) counted),
      ground (arith, b),
      handed_on-kept attempts m k st'.kept f,
    )
