-- ===== src/Core/Xray/Tests.antt =====
-- DelUsers at a concrete input: a node "n" with two users, where xray's manager counts the calls.
use ccaa.Base.{
  arith, Gives, ◌≡◌, inl, inr, ◌⊎◌, ℕ, ◌+◌, ℤ, pos, String, refl, [], ◌∷◌, none, load, string_eq,
  nat_eq,
}
use ccaa.Format.{user_tag}
use ccaa.Panel.User.{UserInfo}
use ccaa.Core.Interface.{Error}
use ccaa.Panel.Node.{NodeInfo, trojan}
use ccaa.Limiter.Users.Known.{last_user, override}
use ccaa.Core.Xray.Users.{User, add_users}
use ccaa.Core.Xray.Users.Added.{AreRegistered, add_users-AreRegistered}
use ccaa.Panel.Routes.{int}
use mathlib.Core.Option.{some}
use ccaa.Panel.Client.{Decoders, Client, Response, get_node_info}
use ccaa.Core.Xray.Users.Fitting.{HasFitting, get_node_info-HasFitting}
use ccaa.Core.Xray.{Xray, remove_users, del_users}
use ccaa.Core.Xray.Deleted.{IsGone, del_users-IsGone}

abbrev user_a : UserInfo
user_a = record { id = pos 1; uuid = "a"; speed_limit = pos 0; device_limit = pos 0 }

abbrev user_b : UserInfo
user_b = record { id = pos 2; uuid = "b"; speed_limit = pos 0; device_limit = pos 0 }

abbrev xray : Xray String ℤ ℕ
xray = record {
  uid_map = ("n|a", pos 1) ∷ ("n|b", pos 2) ∷ [];
  managers = ("n", 0) ∷ [];
  dispatcher = record {
    registry = record { limiter = []; heap = []; next = 0 };
    counter =
        (
          "n",
          record {
            counters = ("n|a", 0) ∷ [];
            heap = λ r. record { up_counter = pos 7; down_counter = pos 8 };
            next = 1;
          },
        )
        ∷ [];
    same_tag_outbound = [];
    link_managers = ("n|a", []) ∷ [];
    next = 0;
  };
}

abbrev counting : String → ℕ → ℕ × Error
counting user m = (m + 1, none)

del_users-IsGone_example : IsGone "n" "n|a" (del_users counting (user_b ∷ user_a ∷ []) "n" xray).0
unfolding del_users remove_users load user_tag
del_users-IsGone_example =
    del_users-IsGone counting (user_b ∷ user_a ∷ []) user_a "n" xray (inr (inl refl)) refl

abbrev long_user : UserInfo
long_user = record {
  id = pos 3;
  uuid = "0b9af4e2-56c2-4a35-8b0e-1f0d2c7a9e11";
  speed_limit = pos 0;
  device_limit = pos 0;
}

abbrev trojan_node : NodeInfo
trojan_node = record {
  id = pos 1;
  node_type = "trojan";
  security = pos 1;
  push_interval = pos 60;
  pull_interval = pos 60;
  raw_dns = record { dns_map = []; dns_json = "" };
  rules = record { regexp = []; protocol = [] };
  settings = trojan (record { network = "tcp"; network_settings = "" });
  common = record { host = ""; server_port = pos 443; server_name = "" };
}

abbrev take : User → String ⊎ User
take u = inr u

abbrev counting_in : User → ℕ → ℕ × Error
counting_in u m = (m + 1, none)

add_users-AreRegistered_example :
    let (y, answer) =
      add_users take counting_in (λ s. s) (λ s. s) "n" (long_user ∷ []) trojan_node xray in
    (load (user_tag "n" "a") y.uid_map
      ≡ override UserInfo.id
          (last_user "a" (long_user ∷ []))
          (load (user_tag "n" "a") xray.uid_map))
    × Gives (AreRegistered take counting_in "n" (long_user ∷ []) xray y) answer
add_users-AreRegistered_example =
    add_users-AreRegistered take counting_in (λ s. s) (λ s. s) "n" "a" (long_user ∷ []) trojan_node
      xray refl (ground arith, tt)

-- A decoder that reads every body as a trojan node without routes.
abbrev json : Decoders
json = record {
  v_allss_of = λ s. none;
  shadowsocks_of = λ s. none;
  trojan_of = λ s. some (
    record {
      common = record { host = ""; server_port = pos 443; server_name = "" };
      routes = [];
      base_config = some (int (pos 60), int (pos 60));
    },
    record { network = "tcp"; network_settings = "" },
  );
  tuic_of = λ s. none;
  any_tls_of = λ s. none;
  hysteria_of = λ s. none;
  hysteria2_of = λ s. none;
}

abbrev client : Client
client = record {
  api_host = "";
  node_type = "trojan";
  node_id = pos 1;
  node_etag = "";
  user_etag = "";
  response_body_hash = "";
  alive_map = [];
}

abbrev answer : Response
answer = record { status = 200; body = "{}"; etag = ""; error = none }

get_node_info-HasFitting_example :
    HasFitting (get_node_info json (λ s. pos 0) (λ s. s) answer client).1
get_node_info-HasFitting_example = get_node_info-HasFitting json (λ s. pos 0) (λ s. s) answer client
