-- ===== src/Core/Dispatcher/Sniffing.antt =====
-- default.go: the cached reader and func sniffer, with the metadata and the content that it sniffs.
-- U is a byte. What the clock and the reader do at the n-th attempt is an argument.
pub mod Handed
pub mod Ends
use ccaa.Base.{
  ℕ, zero, suc, ◌+◌, ◌-◌, Bool, true, false, ◌||◌, List, [], ◌∷◌, ◌++◌, Option, none, some,
  if◌then◌else◌, leb,
}
use ccaa.Core.Sniffer.{Clue, found, no_clue, unknown, ProtocolSniffer, sniff, sniff_metadata}
use ccaa.Core.Dispatcher.Override.{SniffResult}

-- Whether the context is done; what the reader gives, where `none` is an error; and the nanoseconds
-- that it takes.
pub record Attempt (U : Type 0) : Type 0 where
  pub is_done : Bool
  pub input : Option (List U)
  pub elapsed : ℕ

-- The first bytes, as many as fit.
unfoldable pub fitting : {U : Type 0} → ℕ → List U → List U
fitting zero bs = []
fitting (suc n) [] = []
fitting (suc n) (b ∷ bs) = b ∷ fitting n bs

module _ {U : Type 0} where
  -- `Cache`: what is read goes behind what is kept, and the payload gets a copy of what fits.
  unfoldable pub cache : ℕ → Option (List U) → List U → Option (List U × List U)
  cache capacity none kept = none
  cache capacity (some mb) kept = some (fitting capacity (kept ++ mb), kept ++ mb)

  -- `ReadMultiBuffer` and `ReadMultiBufferTimeout`, where `next` is what the reader gives.
  unfoldable pub read_multi_buffer : Option (List U) → List U → Option (List U) × List U
  read_multi_buffer next [] = (next, [])
  read_multi_buffer next (b ∷ bs) = (some (b ∷ bs), [])

-- `totalAttempt`, the time that is left (it stops at 0, where it ends the loop), what is kept, and
-- the sniffers that are pending. `reads` counts the
-- calls of the reader so far.
pub record Sniffing (U N R : Type 0) : Type 0 where
  pub total_attempt : ℕ
  pub cache_deadline : ℕ
  pub kept : List U
  pub reads : ℕ
  pub sniffers : List (ProtocolSniffer (List U) N R)

-- An attempt ends the loop, with a result or an error, or the loop goes on.
pub data Step (U N R : Type 0) : Type 0 where
  ends : Option R → Sniffing U N R → Step U N R
  goes_on : Sniffing U N R → Step U N R

module _ {U N R : Type 0} where
  -- The end of the loop's body.
  abbrev pub time_out : Sniffing U N R → Step U N R
  time_out st =
      if leb 2 st.total_attempt || leb st.cache_deadline 0 then ends none st else goes_on st

  -- Sniff answers ErrNoClue or ends the loop: it has no answer that the other case of the code takes.
  abbrev pub after_sniff :
      Sniffing U N R → List (ProtocolSniffer (List U) N R) × Clue R → Step U N R
  after_sniff st (ss, found r) = ends (some r) (record st { sniffers = ss })
  after_sniff st (ss, unknown) = ends none (record st { sniffers = ss })
  after_sniff st (ss, no_clue) =
      time_out (record st { sniffers = ss; total_attempt = st.total_attempt + 1 })

  -- With the payload.
  unfoldable pub sniff_payload : (N → N → Bool) → N → List U → Sniffing U N R → Step U N R
  sniff_payload same n [] st = time_out (record st { total_attempt = st.total_attempt + 1 })
  sniff_payload same n (b ∷ bs) st = after_sniff st (sniff same (b ∷ bs) n st.sniffers)

  -- The body of the loop.
  unfoldable pub attempt : (N → N → Bool) → ℕ → N → Attempt U → Sniffing U N R → Step U N R
  attempt same capacity n a st =
      if a.is_done then ends none st else elim (cache capacity a.input st.kept) [
        | none ↦ ends none (record st { reads = st.reads + 1 })
        | some (payload, kept) ↦ sniff_payload same n payload (record st {
          kept = kept;
          reads = st.reads + 1;
          cache_deadline = st.cache_deadline - a.elapsed;
        })
      ]

  -- The loop; `none` at the end of the fuel. The i-th read of the reader is in the i-th attempt.
  unfoldable pub content_loop :
      (N → N → Bool)
      → ℕ
      → N
      → (ℕ → Attempt U)
      → ℕ
      → Sniffing U N R
      → Option (Option R × Sniffing U N R)
  content_loop same capacity n attempts zero st = none
  content_loop same capacity n attempts (suc fuel) st =
      elim (attempt same capacity n (attempts st.reads) st) [
        | ends r st' ↦ some (r, st')
        | goes_on st' ↦ content_loop same capacity n attempts fuel st'
      ]

-- `CompositeResult`.
abbrev pub composite_result : SniffResult → SniffResult → SniffResult
composite_result domain_result protocol_result = record {
  domain = domain_result.domain;
  protocol = protocol_result.protocol;
  composite = some domain_result.protocol;
  subset = none;
}

abbrev pub result_of : {R : Type 0} → Clue R → Option R
result_of (found r) = some r
result_of no_clue = none
result_of unknown = none

-- The metadata's result has the domain, the content's one the protocol.
unfoldable pub combine : Option SniffResult → Option SniffResult → Option SniffResult
combine (some meta) none = some meta
combine (some meta) (some content) = some (composite_result meta content)
combine none content = content

abbrev pub cache_deadline_ns : ℕ
cache_deadline_ns = 200000000

module _ {U N : Type 0} where
  -- The answer, what the reader keeps and how often it was read; `none` at the end of the fuel.
  unfoldable pub sniffer :
      (N → N → Bool)
      → ℕ
      → N
      → (ℕ → Attempt U)
      → ℕ
      → Bool
      → List (ProtocolSniffer (List U) N SniffResult)
      → Option (Option SniffResult × List U × ℕ)
  sniffer same capacity n attempts fuel metadata_only ss =
      let (ss', meta) = sniff_metadata [] ss in
      if metadata_only
      then some (result_of meta, [], 0)
      else elim (content_loop same capacity n attempts fuel (record {
        total_attempt = 0;
        cache_deadline = cache_deadline_ns;
        kept = [];
        reads = 0;
        sniffers = ss';
      })) [
        | none ↦ none
        | some (content, st) ↦ some (combine (result_of meta) content, st.kept, st.reads)
      ]
