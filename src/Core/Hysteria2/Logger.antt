-- ===== src/Core/Hysteria2/Logger.antt =====
-- core/hy2/logger.go: what hysteria's events do to the limiter, and initLogger. The rate bucket that
-- CheckLimit gives is dropped. The lines that only log are left out.
pub mod Marks
use ccaa.Base.{
  ℤ, String, string_eq, nat_eq, Bool, true, false, Option, none, some, ◌⊎◌, inl, inr, load, store,
  ◌==◌, if◌then◌else◌,
}
use ccaa.Format.{user_tag}
use ccaa.Limiter.{Limiter, UserLimitInfo}
use ccaa.Limiter.Registry.{Registry, get_limiter}
use ccaa.Limiter.Check.{check_limit}

-- `net.Addr`, with the text of the IP, or the network of any other address.
pub data Addr : Type 0 where
  tcp_addr udp_addr ip_addr : String → Addr
  other_addr : String → Addr

abbrev pub network : Addr → String
network (tcp_addr ip) = "tcp"
network (udp_addr ip) = "udp"
network (ip_addr ip) = "ip"
network (other_addr n) = n

abbrev pub extract_ip_from_addr : Addr → String
extract_ip_from_addr (tcp_addr ip) = ip
extract_ip_from_addr (udp_addr ip) = ip
extract_ip_from_addr (ip_addr ip) = ip
extract_ip_from_addr (other_addr n) = ""

-- The user's `OverLimit`, if the user is known.
unfoldable pub set_mark : {R B : Type 0} → String → Bool → Limiter R B → Limiter R B
set_mark taguuid over l = elim (load taguuid l.user_limit_info) [
  | none ↦ l
  | some u ↦ record l {
    user_limit_info = store taguuid (record u { over_limit = over }) l.user_limit_info;
  }
]

module _ {R B : Type 0} (new_bucket : ℤ → ℤ → B) (now : ℤ) where
  -- The check, and the mark that is made of its answer.
  unfoldable pub after_check : String → Addr → Limiter R B → Limiter R B
  after_check taguuid addr l =
      let (m, b, reject) =
        check_limit new_bucket now taguuid (extract_ip_from_addr addr) (network addr == "tcp") true
          l in
      set_mark taguuid reject m

  -- `none` is the panic of the logger.
  unfoldable pub connect : String → Addr → String → Registry R B → Option (Registry R B)
  connect tag addr uuid g = elim (get_limiter tag g) [
    | none ↦ none
    | some r ↦ elim (load r g.heap) [
      | none ↦ none
      | some l ↦ some (record g { heap = store r (after_check (user_tag tag uuid) addr l) g.heap })
    ]
  ]

  abbrev pub tcp_request : String → Addr → String → Registry R B → Option (Registry R B)
  tcp_request tag addr uuid g = connect tag addr uuid g

  abbrev pub udp_request : String → Addr → String → Registry R B → Option (Registry R B)
  udp_request tag addr uuid g = connect tag addr uuid g

-- zap's levels and encodings.
pub data Level : Type 0 where
  debug info warn error : Level

pub data LogFormat : Type 0 where
  console json : LogFormat

abbrev pub level_of : String → Option Level
level_of s =
    if s == "debug"
    then some debug
    else if s == "info"
    then some info
    else if s == "warn"
    then some warn
    else if s == "error"
    then some error
    else none

abbrev pub log_format_of : String → Option LogFormat
log_format_of s = if s == "console" then some console else if s == "json" then some json else none

-- `build` is `zap.Config.Build`.
unfoldable pub init_logger :
    {L : Type 0}
    → (String → String)
    → (Level → LogFormat → String ⊎ L)
    → String
    → String
    → String ⊎ L
init_logger to_lower build log_level log_format = elim (level_of (to_lower log_level)) [
  | none ↦ inl "unsupported log level"
  | some level ↦ elim (log_format_of (to_lower log_format)) [
    | none ↦ inl "unsupported log format"
    | some enc ↦ elim (build level enc) [
      | inl e ↦ inl "failed to initialize logger"
      | inr logger ↦ inr logger
    ]
  ]
]
