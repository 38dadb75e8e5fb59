-- ===== src/Core/Hysteria2/Config/Quic.antt =====
-- Which QUIC settings are accepted, and what they become.
use ccaa.Base.{
  ℕ, ℤ, pos, leb, leb_ℤ, nat_eq, int_eq, Bool, true, false, ◌&&◌, ◌||◌, ◌≡◌, refl, ◌==◌,
  if◌then◌else◌, Result, ok, err, panicked, ◌>>=◌, arith,
}
use ccaa.Core.Hysteria2.Settings.{ServerConfig, QuicSettings}
use ccaa.Core.Hysteria2.Config.{
  QuicConfig, zero_quic, default_stream_receive_window, default_conn_receive_window, seconds,
  init_stream, max_stream, init_connection, max_connection, idle_timeout, incoming_streams,
  get_quic_config,
}

-- A size that is not set, or large enough.
abbrev pub window_allowed : ℕ → Bool
window_allowed w = w == 0 || leb 16384 w

abbrev pub window_or : ℕ → ℕ → ℕ
window_or w default = if w == 0 then default else w

abbrev pub time_allowed : ℤ → Bool
time_allowed t = t == pos 0 || (leb_ℤ (seconds 4) t && leb_ℤ t (seconds 120))

abbrev pub streams_allowed : ℤ → Bool
streams_allowed n = n == pos 0 || leb_ℤ (pos 8) n

abbrev pub is_allowed : QuicSettings → Bool
is_allowed c =
    window_allowed c.init_stream_receive_window
    && (window_allowed c.max_stream_receive_window
        && (window_allowed c.init_connection_receive_window
            && (window_allowed c.max_connection_receive_window
                && (time_allowed c.max_idle_timeout && streams_allowed c.max_incoming_streams))))

-- The value, where the test is passed, and else an error; never a panic.
abbrev pub IsOutcome : {A : Type 0} → Bool → A → Result A → Type 0
IsOutcome b a (ok x) = (b ≡ true) × (x ≡ a)
IsOutcome b a (err e) = b ≡ false
IsOutcome b a panicked = ⊥

-- What accepted settings become.
abbrev pub quic_of : QuicSettings → QuicConfig
quic_of c = record {
  initial_stream_receive_window =
      if c.init_stream_receive_window == 0 then default_stream_receive_window else 0;
  max_stream_receive_window = window_or c.max_stream_receive_window default_stream_receive_window;
  initial_connection_receive_window =
      window_or c.init_connection_receive_window default_conn_receive_window;
  max_connection_receive_window =
      window_or c.max_connection_receive_window default_conn_receive_window;
  max_idle_timeout = if c.max_idle_timeout == pos 0 then seconds 30 else c.max_idle_timeout;
  max_incoming_streams =
      if c.max_incoming_streams == pos 0 then pos 4096 else c.max_incoming_streams;
  disable_path_mtu_discovery = false;
}

-- Two steps in a row give a value where both may.
bind-IsOutcome :
    {A B : Type 0} (m : Result A) (f : A → Result B) (b c : Bool) (a : A) (d : B)
    → IsOutcome b a m
    → IsOutcome c d (f a)
    → IsOutcome (b && c) d (m >>= f)
bind-IsOutcome (ok x) f b c a d h k = rw (h.0, h.1) k
bind-IsOutcome (err e) f b c a d h k = rw h refl
bind-IsOutcome panicked f b c a d h k = h

bind-last :
    {A B : Type 0} (m : Result A) (f : A → Result B) (b : Bool) (a : A) (d : B)
    → IsOutcome b a m
    → f a ≡ ok d
    → IsOutcome b d (m >>= f)
bind-last (ok x) f b a d h k = rw (h.1, k) (h.0, refl)
bind-last (err e) f b a d h k = h
bind-last panicked f b a d h k = h

module _ (c : QuicSettings) (q : QuicConfig) where
  init_stream-IsOutcome :
      IsOutcome
        (window_allowed c.init_stream_receive_window)
        (record q {
          initial_stream_receive_window =
              if c.init_stream_receive_window == 0
              then default_stream_receive_window
              else q.initial_stream_receive_window;
          initial_connection_receive_window =
              if c.init_stream_receive_window == 0
              then q.initial_connection_receive_window
              else c.init_connection_receive_window;
        })
        (init_stream c q)
  unfolding init_stream
  init_stream-IsOutcome = ground arith

  max_stream-IsOutcome :
      IsOutcome
        (window_allowed c.max_stream_receive_window)
        (record q {
          max_stream_receive_window =
              window_or c.max_stream_receive_window default_stream_receive_window;
        })
        (max_stream c q)
  unfolding max_stream
  max_stream-IsOutcome = ground arith

  init_connection-IsOutcome :
      IsOutcome
        (window_allowed c.init_connection_receive_window)
        (record q {
          initial_connection_receive_window =
              window_or c.init_connection_receive_window default_conn_receive_window;
        })
        (init_connection c q)
  unfolding init_connection
  init_connection-IsOutcome = ground arith

  max_connection-IsOutcome :
      IsOutcome
        (window_allowed c.max_connection_receive_window)
        (record q {
          max_connection_receive_window =
              window_or c.max_connection_receive_window default_conn_receive_window;
        })
        (max_connection c q)
  unfolding max_connection
  max_connection-IsOutcome = ground arith

  idle_timeout-IsOutcome :
      IsOutcome
        (time_allowed c.max_idle_timeout)
        (record q {
          max_idle_timeout = if c.max_idle_timeout == pos 0 then seconds 30 else c.max_idle_timeout;
        })
        (idle_timeout c q)
  unfolding idle_timeout
  idle_timeout-IsOutcome = ground arith

  incoming_streams-IsOutcome :
      IsOutcome
        (streams_allowed c.max_incoming_streams)
        (record q {
          max_incoming_streams =
              if c.max_incoming_streams == pos 0 then pos 4096 else c.max_incoming_streams;
        })
        (incoming_streams c q)
  unfolding incoming_streams
  incoming_streams-IsOutcome = ground arith

-- getQUICConfig never panics, and accepts settings exactly when each of the six is unset or in its range: the windows
-- at least 16384, the idle time from 4 to 120 seconds, the streams at least 8. Then each field is
-- the setting, or its default where that is unset, but the initial stream window: this is 8 MB
-- where it is unset, and zero whatever else it is set to.
pub get_quic_config_lem :
    (config : ServerConfig)
    → IsOutcome (is_allowed config.quic) (quic_of config.quic) (get_quic_config config)
unfolding get_quic_config
get_quic_config_lem config =
    let c = config.quic in
    bind-IsOutcome (init_stream c zero_quic) _ _ _ _ _ (init_stream-IsOutcome c zero_quic) (
      bind-IsOutcome (max_stream c _) _ _ _ _ _ (max_stream-IsOutcome c _) (
        bind-IsOutcome (init_connection c _) _ _ _ _ _ (init_connection-IsOutcome c _) (
          bind-IsOutcome (max_connection c _) _ _ _ _ _ (max_connection-IsOutcome c _) (
            bind-IsOutcome (idle_timeout c _) _ _ _ _ _ (idle_timeout-IsOutcome c _)
              (bind-last (incoming_streams c _) _ _ _ _ (incoming_streams-IsOutcome c _) refl)))))
