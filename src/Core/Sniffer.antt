-- ===== src/Core/Sniffer.antt =====
-- core/xray/app/dispatcher/sniffer.go: Sniff and SniffMetadata. What a protocol's sniffer makes of
-- a payload is an argument: P is the payload (with the context), N the network, R the result.
pub mod First
mod Tests
use ccaa.Base.{Bool, true, false, not, ◌&&◌, ◌||◌, List, [], ◌∷◌, ◌++◌, if◌then◌else◌}

-- A result, `ErrNoClue`, or another error (or no error and no result).
pub data Clue (R : Type 0) : Type 0 where
  found : R → Clue R
  no_clue : Clue R
  unknown : Clue R

pub record ProtocolSniffer (P N R : Type 0) : Type 0 where
  pub protocol_sniffer : P → Clue R
  pub metadata_sniffer : Bool
  pub network : N

module _ {P N R : Type 0} where
  -- After the loop: the pending sniffers stay, if there are any.
  abbrev pub settle :
      List (ProtocolSniffer P N R)
      → List (ProtocolSniffer P N R)
      → List (ProtocolSniffer P N R) × Clue R
  settle all [] = (all, unknown)
  settle all (p ∷ pending) = (p ∷ pending, no_clue)

  -- The loop of `Sniff`, over those of the sniffers `all` that are left. `same` compares networks.
  unfoldable pub sniff_loop :
      (N → N → Bool)
      → P
      → N
      → List (ProtocolSniffer P N R)
      → List (ProtocolSniffer P N R)
      → List (ProtocolSniffer P N R)
      → List (ProtocolSniffer P N R) × Clue R
  sniff_loop same payload n all [] pending = settle all pending
  sniff_loop same payload n all (si ∷ left) pending =
      let rest = sniff_loop same payload n all left pending in
      if si.metadata_sniffer || not (same si.network n)
      then rest
      else elim (si.protocol_sniffer payload) [
        | found r ↦ (all, found r)
        | no_clue ↦ sniff_loop same payload n all left (pending ++ (si ∷ []))
        | unknown ↦ rest
      ]

  unfoldable pub sniff :
      (N → N → Bool) → P → N → List (ProtocolSniffer P N R) → List (ProtocolSniffer P N R) × Clue R
  sniff same payload n all = sniff_loop same payload n all all []

  -- The loop of `SniffMetadata`; the payload is the empty one.
  unfoldable pub metadata_loop :
      P
      → List (ProtocolSniffer P N R)
      → List (ProtocolSniffer P N R)
      → List (ProtocolSniffer P N R)
      → List (ProtocolSniffer P N R) × Clue R
  metadata_loop payload all [] pending = settle all pending
  metadata_loop payload all (si ∷ left) pending =
      if not si.metadata_sniffer
      then metadata_loop payload all left (pending ++ (si ∷ []))
      else elim (si.protocol_sniffer payload) [
        | found r ↦ (all, found r)
        | no_clue ↦ metadata_loop payload all left (pending ++ (si ∷ []))
        | unknown ↦ metadata_loop payload all left pending
      ]

  unfoldable pub sniff_metadata :
      P → List (ProtocolSniffer P N R) → List (ProtocolSniffer P N R) × Clue R
  sniff_metadata payload all = metadata_loop payload all all []
