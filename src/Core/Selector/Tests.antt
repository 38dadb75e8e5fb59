-- ===== src/Core/Selector/Tests.antt =====
-- The selector at concrete inputs: a core that counts what it is asked, and refuses the tag "no".
use ccaa.Base.{
  ℕ, ◌+◌, pos, String, string_eq, not, ◌&&◌, ◌≡◌, ◌≢◌, ◌⊎◌, inr, refl, List, [], ◌∷◌, none, some,
  load, store, ◌==◌, if◌then◌else◌, is_some,
}
use ccaa.Panel.Node.{NodeInfo, trojan}
use ccaa.Core.Interface.{Core, Options}
use ccaa.Core.Selector.{Selector, add_node, del_node, node_core}
use ccaa.Core.Selector.Routes.{IsChosen, add_node-routes, del_node-routes}
use ccaa.Core.Selector.Build.{CoreConfig, Cores}

abbrev counting : Core ℕ String
counting = record {
  start = λ s. (s, none);
  close = λ s. (s, none);
  add_node = λ tag info option s. (s + 1, if tag == "no" then some "refused" else none);
  del_node = λ tag s. (s, none);
  add_users = λ p s. (s, pos 0, none);
  get_user_traffic_slice = λ tag reset s. (s, [], none);
  del_users = λ us tag info s. (s, none);
  protocols = λ s. "vless" ∷ [];
  core_type = λ s. "xray";
}

abbrev selector : Selector ℕ
selector = record { cores = ("one", 3) ∷ ("two", 5) ∷ []; nodes = ("old", "one") ∷ [] }

abbrev info : NodeInfo
info = record {
  id = pos 1;
  node_type = "vless";
  security = pos 0;
  push_interval = pos 60;
  pull_interval = pos 60;
  raw_dns = record { dns_map = []; dns_json = "" };
  rules = record { regexp = []; protocol = [] };
  settings = trojan (record { network = ""; network_settings = "" });
  common = record { host = ""; server_port = pos 0; server_name = "" };
}

abbrev option : Options String
option = record { core_name = ""; core = ""; raw_options = some "{}" }

add_node-routes_example :
    let ((s', e), o) = add_node counting some "tag" info option selector in
    ((n : String × ℕ) × (e ≡ none)
      × IsChosen counting info option n selector
      × (s'.nodes ≡ store "tag" n.0 selector.nodes)
      × (node_core counting "tag" s' ≡ some (n.0, (counting.add_node "tag" info o n.1).0))
      × ((counting.add_node "tag" info o n.1).1 ≡ none))
    ⊎ ((e ≢ none) × (s'.nodes ≡ selector.nodes))
add_node-routes_example = add_node-routes counting some "tag" info option selector

abbrev old_tag : String
old_tag = "old"

del_node-routes_example :
    let (s', e) = del_node counting old_tag selector in
    (e ≡ none)
    × (load old_tag s'.nodes
        ≡ (if not (is_some e) && old_tag == old_tag then none else load old_tag selector.nodes))
    × (load "one" s'.cores ≡ some 3)
unfolding load
del_node-routes_example = del_node-routes counting old_tag old_tag selector ("one", 3) refl

abbrev cores : Cores ℕ String
cores = ("xray", λ t. inr 0) ∷ ("sing", λ t. inr 1) ∷ []

abbrev configs : List (CoreConfig String)
configs =
    record { core_type = "xray"; name = ""; settings = "{}" }
    ∷ record { core_type = "sing"; name = "b"; settings = "{}" }
    ∷ []

abbrev made : Selector ℕ
made = record { cores = ("xray", 0) ∷ ("b", 1) ∷ []; nodes = [] }

abbrev name_b : String
name_b = "b"
