-- ===== src/Core/Hysteria2/Masquerade.antt =====
-- core/hy2/config.go: what the server answers to those who are no clients. The files and the proxied
-- site are served by Go's library; the tests of the settings, the change of a request, the fixed
-- answer, and the servers over TCP are the code's.
pub mod Answers
use ccaa.Base.{
  ℕ, ℤ, pos, ltb_ℤ, String, string_eq, int_eq, str_append, Bool, true, false, not, ◌&&◌, ◌||◌, List,
  [], ◌∷◌, Option, none, some, ◌⊎◌, inl, inr, Assoc, store, ◌==◌, if◌then◌else◌, Result, ok, err,
  ◌>>=◌, ◌>>◌, refuse_if, of_sum,
}
use ccaa.Core.Hysteria2.Settings.{MasqueradeSettings, MasqueradeProxy, MasqueradeString}
use ccaa.Core.Hysteria2.Outbound.{is_set}
use ccaa.Core.Hysteria2.Listen.{extract_port_from_addr}

-- The parts of `url.URL` that are read.
pub record Url : Type 0 where
  pub scheme : String
  pub host : String

-- The handler that is chosen.
pub data Handler : Type 0 where
  not_found : Handler
  file_server : String → Handler
  reverse_proxy : Url → Bool → Handler
  fixed_answer : MasqueradeString → Handler

-- The parts of a proxied request that `Director` reads or changes; the header X-Forwarded-For is
-- empty where there is none.
pub record Request : Type 0 where
  pub url : Url
  pub host : String
  pub remote_addr : String
  pub x_forwarded_for : String

abbrev pub forwarded : Option (String × String) → String → String
forwarded none xff = xff
forwarded (some (client_ip, port)) xff =
    if is_set xff then str_append xff (str_append ", " client_ip) else client_ip

unfoldable pub director : (String → Option (String × String)) → Url → Bool → Request → Request
director split_host_port u rewrite_host r =
    let sent = record r {
      url = record { scheme = u.scheme; host = u.host };
      x_forwarded_for = forwarded (split_host_port r.remote_addr) r.x_forwarded_for;
    } in
    if rewrite_host then record sent { host = u.host } else sent

-- An answer: its headers, status and body.
pub record Answer : Type 0 where
  pub headers : Assoc String String
  pub status : ℤ
  pub content : String

abbrev set_all : Assoc String String → Assoc String String → Assoc String String
set_all [] h = h
set_all ((k, v) ∷ hs) h = set_all hs (store k v h)

unfoldable pub answer_fixed : MasqueradeString → Assoc String String → Answer
answer_fixed s h = record {
  headers = set_all s.headers h;
  status = if s.status_code == pos 0 then pos 200 else s.status_code;
  content = s.content;
}

-- 233 is hysteria's own.
abbrev pub is_invalid : ℤ → Bool
is_invalid status =
    not (status == pos 0)
    && (ltb_ℤ status (pos 200) || (ltb_ℤ (pos 599) status || status == pos 233))

-- `parse` is `url.Parse`.
unfoldable pub handler_of :
    (String → String ⊎ Url) → (String → String) → MasqueradeSettings → Result Handler
handler_of parse to_lower c =
    let t = to_lower c.masquerade_type in
    if t == "" || t == "404"
    then ok not_found
    else if t == "file"
    then if is_set c.dir
      then ok (file_server c.dir)
      else err "masquerade.file.dir empty file directory"
    else if t == "proxy"
    then (do
      refuse_if (not (is_set c.proxy.url)) "masquerade.proxy.url empty proxy url"
      elim (parse c.proxy.url) [
        | inl e ↦ err (str_append "masquerade.proxy.url " e)
        | inr u ↦ ok (reverse_proxy u c.proxy.rewrite_host)
      ])
    else if t == "string"
    then (do
      refuse_if (not (is_set c.fixed.content)) "masquerade.string.content empty string content"
      refuse_if (is_invalid c.fixed.status_code)
          "masquerade.string.statusCode invalid status code (must be 200-599, except 233)"
      ok (fixed_answer c.fixed))
    else err "masquerade.type unsupported masquerade type"

-- `masq.MasqTCPServer`, and the addresses that `runMasqTCPServer` serves, where they are not empty.
pub record MasqTcpServer : Type 0 where
  pub quic_port : ℤ
  pub https_port : ℤ
  pub handler : Handler
  pub force_https : Bool
  pub http_addr : String
  pub https_addr : String

module _ (split_host_port : String → Option (String × String)) (atoi : String → Option ℤ) where
  abbrev pub tcp_server : MasqueradeSettings → String → Handler → Option MasqTcpServer
  tcp_server c local handler =
      if is_set c.listen_http || is_set c.listen_https
      then some (record {
        quic_port = extract_port_from_addr split_host_port atoi local;
        https_port = extract_port_from_addr split_host_port atoi c.listen_https;
        handler = handler;
        force_https = c.force_https;
        http_addr = c.listen_http;
        https_addr = c.listen_https;
      })
      else none

  -- `local` is the text of the socket's address.
  unfoldable pub get_masq_handler :
      (String → String ⊎ Url)
      → (String → String)
      → String
      → MasqueradeSettings
      → Result (Handler × Option MasqTcpServer)
  get_masq_handler parse to_lower local c = do
    handler ← handler_of parse to_lower c
    refuse_if (is_set c.listen_http && not (is_set c.listen_https))
        "masquerade.listenHTTPS having only HTTP server without HTTPS is not supported"
    ok (handler, tcp_server c local handler)
