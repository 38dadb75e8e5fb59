-- ===== src/Core/Sniffer/First.antt =====
-- What Sniff and SniffMetadata answer, and which sniffers are left for the next call.
use ccaa.Base.{
  Bool, true, false, not, ◌||◌, ◌≡◌, refl, sym, ap, List, [], ◌∷◌, ◌++◌, if◌then◌else◌, arith,
}
use mathlib.Core.List.{append_assoc, append-nil}
use ccaa.Core.Sniffer.{
  Clue, found, no_clue, unknown, ProtocolSniffer, settle, sniff_loop, sniff, metadata_loop,
  sniff_metadata,
}

-- A sniffer asked, or passed over.
abbrev pub asked : {R : Type 0} → Bool → Clue R → Clue R
asked true c = c
asked false c = unknown

-- The answers of a list of sniffers, where `ask` says what each answers: the first result, and the
-- sniffers that have no clue, in order.
abbrev pub first_found : {A R : Type 0} → (A → Clue R) → List A → Clue R
first_found ask [] = unknown
first_found ask (a ∷ left) =
    let rest = first_found ask left in
    elim (ask a) [ found r ↦ found r | no_clue ↦ rest | unknown ↦ rest ]

abbrev pub clueless : {A R : Type 0} → (A → Clue R) → List A → List A
clueless ask [] = []
clueless ask (a ∷ left) =
    let rest = clueless ask left in
    elim (ask a) [ found r ↦ rest | no_clue ↦ a ∷ rest | unknown ↦ rest ]

-- A first result leaves the sniffers as they are; else those that have no clue are left, if any.
abbrev pub outcome :
    {P N R : Type 0}
    → List (ProtocolSniffer P N R)
    → Clue R
    → List (ProtocolSniffer P N R)
    → List (ProtocolSniffer P N R) × Clue R
outcome all (found r) pending = (all, found r)
outcome all no_clue [] = (all, unknown)
outcome all no_clue (p ∷ pending) = (p ∷ pending, no_clue)
outcome all unknown [] = (all, unknown)
outcome all unknown (p ∷ pending) = (p ∷ pending, no_clue)

settle-outcome :
    {P N R : Type 0} (all pending : List (ProtocolSniffer P N R))
    → settle all pending ≡ outcome all unknown (pending ++ [])
settle-outcome all [] = refl
settle-outcome all (p ∷ pending) = ap (outcome all unknown) (sym (append-nil (p ∷ pending)))

module _ {P N R : Type 0} (payload : P) where
  abbrev pub ask_network : (N → N → Bool) → N → ProtocolSniffer P N R → Clue R
  ask_network same n si =
      asked (not (si.metadata_sniffer || not (same si.network n))) (si.protocol_sniffer payload)

  -- One that does not sniff metadata is kept for later.
  abbrev pub ask_metadata : ProtocolSniffer P N R → Clue R
  ask_metadata si = if si.metadata_sniffer then si.protocol_sniffer payload else no_clue

  sniff_loop-outcome :
      (same : N → N → Bool) (n : N) (all left pending : List (ProtocolSniffer P N R))
      → sniff_loop same payload n all left pending
        ≡ outcome all
            (first_found (ask_network same n) left)
            (pending ++ clueless (ask_network same n) left)
  unfolding sniff_loop
  sniff_loop-outcome same n all [] pending = settle-outcome all pending
  sniff_loop-outcome same n all (si ∷ left) pending = ground (
    arith,
    sniff_loop-outcome same n all left pending,
    sniff_loop-outcome same n all left (pending ++ (si ∷ [])),
    append_assoc pending (si ∷ []) (clueless (ask_network same n) left),
  )

  metadata_loop-outcome :
      (all left pending : List (ProtocolSniffer P N R))
      → metadata_loop payload all left pending
        ≡ outcome all (first_found ask_metadata left) (pending ++ clueless ask_metadata left)
  unfolding metadata_loop
  metadata_loop-outcome all [] pending = settle-outcome all pending
  metadata_loop-outcome all (si ∷ left) pending = ground (
    arith,
    metadata_loop-outcome all left pending,
    metadata_loop-outcome all left (pending ++ (si ∷ [])),
    append_assoc pending (si ∷ []) (clueless ask_metadata left),
  )

  -- Sniff answers the first result of the sniffers for the network that do not sniff metadata. If
  -- there is none, those of them that have no clue are the ones left for the next call; with nobody
  -- left the content is unknown, and the sniffers stay. SniffMetadata does so with the sniffers of
  -- metadata, and keeps all others.
  pub sniff_lem :
      (same : N → N → Bool) (n : N) (all : List (ProtocolSniffer P N R))
      → (sniff same payload n all
          ≡ outcome all (first_found (ask_network same n) all) (clueless (ask_network same n) all))
        × (sniff_metadata payload all
            ≡ outcome all (first_found ask_metadata all) (clueless ask_metadata all))
  unfolding sniff sniff_metadata
  sniff_lem same n all = (sniff_loop-outcome same n all all [], metadata_loop-outcome all all [])
