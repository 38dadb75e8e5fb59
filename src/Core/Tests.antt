-- ===== src/Core/Tests.antt =====
-- Traffic reports at concrete inputs.
use ccaa.Base.{
  ℕ, zero, suc, ℤ, pos, ◌+ℤ◌, ◌≡◌, String, [], ◌∷◌, true, Assoc, arith, load, false, Bool, ◌↔◌, ◌⊎◌,
  none, ◌==◌, string_eq, nat_eq, refl,
}
use ccaa.Format.{user_tag}
use ccaa.Limiter.{Limiter, UserLimitInfo}
use ccaa.Limiter.Registry.{get_limiter}
use ccaa.Core.Sing.{HookServer, InboundContext, routed_packet_connection, blocked}
use ccaa.Core.Sing.Decides.{routed_lem}
use ccaa.Counter.{TrafficCounter, TrafficStorage}
use ccaa.Core.Traffic.{traffic_slice}
use ccaa.Core.Traffic.Conserved.{
  up, pending, reported, slice_of, traffic_slice-conserves, traffic_slice-reports, AllKnown,
  Distinct,
}

abbrev storages : ℕ → TrafficStorage
storages zero = record { up_counter = pos 700; down_counter = pos 60 }
storages (suc r) = record { up_counter = pos 5; down_counter = pos 4 }

abbrev counter : TrafficCounter
counter = record { counters = ("a", 0) ∷ ("b", 1) ∷ []; heap = storages; next = 2 }

abbrev uids : Assoc String ℤ
uids = ("a", pos 17) ∷ ("b", pos 18) ∷ []

counter-Distinct : Distinct counter.counters
counter-Distinct = ((omega arith, tt), (tt, tt))

counter-AllKnown : AllKnown uids counter.counters
unfolding load
counter-AllKnown = ((λ p. ground (arith, p)), ((λ p. ground (arith, p)), tt))

traffic_slice-conserves_example :
    let (c, out) = traffic_slice (pos 100) true uids counter in
    pending up c.heap counter.counters +ℤ reported up out ≡ pending up storages counter.counters
traffic_slice-conserves_example =
    traffic_slice-conserves (pos 100) uids up counter counter-Distinct counter-AllKnown

traffic_slice-reports_example :
    (traffic_slice (pos 100) true uids counter).1
    ≡ slice_of (pos 100) uids storages counter.counters
traffic_slice-reports_example = traffic_slice-reports (pos 100) true uids counter counter-Distinct

abbrev user_limit : UserLimitInfo
user_limit = record {
  uid = pos 7;
  speed_limit = pos 8;
  device_limit = pos 1;
  dynamic_speed_limit = pos 0;
  expire_time = pos 0;
  over_limit = false;
}

abbrev node : Limiter String ℤ
node = record {
  domain_rules = "bad.example" ∷ [];
  protocol_rules = "udp" ∷ [];
  speed_limit = pos 0;
  user_online_ip = [];
  old_user_online = [];
  uuid_to_uid = ("a", pos 7) ∷ [];
  user_limit_info = ("n|a", user_limit) ∷ [];
  speed_limiter = [];
  alive_list = [];
}

abbrev hook : HookServer String ℤ
hook = record {
  registry = record { limiter = ("n", 0) ∷ []; heap = (0, node) ∷ []; next = 1 };
  counter = [];
}

abbrev context : InboundContext
context = record {
  inbound = "n";
  user = "a";
  source = "10.0.0.1";
  destination = "good.example";
  protocol = "tls";
  network = "udp";
}

abbrev bucket : ℤ → ℤ → ℤ
bucket fill capacity = fill

abbrev spelled : String → String → Bool
spelled r s = r == s

routed_lem_example :
    ((routed_packet_connection bucket spelled (pos 100) context hook).1.closed ≡ true) ↔ (
      (load (user_tag "n" "a") node.user_limit_info ≡ none)
      ⊎ (blocked spelled "good.example" "udp" node ≡ true))
unfolding load get_limiter
routed_lem_example = (routed_lem bucket spelled (pos 100) context 0 node hook refl refl).1
