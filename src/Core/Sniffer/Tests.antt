-- ===== src/Core/Sniffer/Tests.antt =====
-- The sniffers at concrete inputs: the payload is a length, and the networks are numbers.
use ccaa.Base.{ℕ, ltb, nat_beq, true, false, ◌≡◌, String, List, [], ◌∷◌, if◌then◌else◌}
use ccaa.Core.Sniffer.{found, no_clue, unknown, ProtocolSniffer, sniff, sniff_metadata}
use ccaa.Core.Sniffer.First.{outcome, first_found, clueless, ask_network, ask_metadata, sniff_lem}

abbrev sniffers : List (ProtocolSniffer ℕ ℕ String)
sniffers =
    record { protocol_sniffer = λ p. unknown; metadata_sniffer = false; network = 0 }
    ∷ record {
      protocol_sniffer = λ p. if ltb p 10 then no_clue else found "tls";
      metadata_sniffer = false;
      network = 0;
    }
    ∷ record { protocol_sniffer = λ p. found "quic"; metadata_sniffer = false; network = 1 }
    ∷ record { protocol_sniffer = λ p. no_clue; metadata_sniffer = true; network = 0 }
    ∷ []

sniff_lem_example :
    (sniff nat_beq 4 0 sniffers
      ≡ outcome sniffers
          (first_found (ask_network 4 nat_beq 0) sniffers)
          (clueless (ask_network 4 nat_beq 0) sniffers))
    × (sniff_metadata 4 sniffers
        ≡ outcome sniffers
            (first_found (ask_metadata 4) sniffers)
            (clueless (ask_metadata 4) sniffers))
sniff_lem_example = sniff_lem 4 nat_beq 0 sniffers
