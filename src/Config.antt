-- ===== src/Config.antt =====
-- Config of internal/config/config.go: the defaults, loading and validation. The YAML parser and
-- time.ParseDuration are parameters; durations are in nanoseconds.
pub mod Loading
mod Tests
use proxygo.Base.{
  ℕ, zero, suc, ◌+◌, ◌*◌, ◌/◌, Bool, true, false, ◌||◌, ◌==◌, Option, none, some, List, [], ◌∷◌,
  if◌then◌else◌, Result, ok, err, panics, ◌>>=◌, is_empty,
}
use proxygo.Base.Int.{ℤ, pos, negsuc, ltb_ℤ, leb_ℤ, eq_ℤ}
use proxygo.Base.Assoc.{MapKey, bytes_eq, assign}
use proxygo.Base.Text.{codes}

pub record Telegram : Type 0 where
  pub bot_token : List ℕ
  pub admin_ids : List ℤ
  pub rate_limit_per_min : ℤ
  pub disabled : Bool
  pub poll_timeout_second : ℤ
  pub proxy : List ℕ

pub record Proxy : Type 0 where
  pub default_idle_timeout : List ℕ
  pub udp_session_timeout : List ℕ
  pub buffer_size : ℤ
  pub listen_interface : List ℕ
  pub default_idle : ℤ
  pub udp_session : ℤ

pub record Logging : Type 0 where
  pub level : List ℕ
  pub file : List ℕ
  pub access_log_dir : List ℕ
  pub format : List ℕ

pub record Security : Type 0 where
  pub backend_whitelist : List (List ℕ)
  pub max_tcp_conns_per_ip : ℤ
  pub max_udp_packets_per_ip_sec : ℤ
  pub max_tcp_conns_per_min : ℤ
  pub max_udp_packets_per_min : ℤ
  pub enabled_iptables : Bool
  pub cached_backend_whitelist : List (List ℕ × Unit {0})

-- `path` is the one field of Storage.
pub record Config : Type 0 where
  pub telegram : Telegram
  pub proxy : Proxy
  pub path : List ℕ
  pub logging : Logging
  pub security : Security

pub data Error : Type 0 where
  read_failed parse_failed bad_idle_timeout bad_session_timeout : Error
  idle_required session_required buffer_out_of_range path_required : Error
  tcp_per_ip_required udp_per_ip_required rate_limit_required : Error

abbrev pub default : Config
default = record {
  telegram = record {
    bot_token = [];
    admin_ids = [];
    rate_limit_per_min = pos 10;
    disabled = false;
    poll_timeout_second = pos 30;
    proxy = [];
  };
  proxy = record {
    default_idle_timeout = codes "30m";
    udp_session_timeout = codes "60s";
    buffer_size = pos 32768;
    listen_interface = codes "0.0.0.0";
    default_idle = pos 0;
    udp_session = pos 0;
  };
  path = codes "/opt/proxygo/data/proxygo.db";
  logging = record {
    level = codes "info";
    file = [];
    access_log_dir = codes "/opt/proxygo/log/access/";
    format = codes "json";
  };
  security = record {
    backend_whitelist = [];
    max_tcp_conns_per_ip = pos 3;
    max_udp_packets_per_ip_sec = pos 100;
    max_tcp_conns_per_min = pos 100;
    max_udp_packets_per_min = pos 1000;
    enabled_iptables = true;
    cached_backend_whitelist = [];
  };
}

-- The map of the whitelist, filled entry by entry.
unfoldable pub cached : List (List ℕ) → List (List ℕ × Unit {0}) → List (List ℕ × Unit {0})
cached [] m = m
cached (ip ∷ ips) m = cached ips (assign ip tt m)

abbrev pub or_error {ℓ} : {A : Type ℓ} → Error → Option A → Result Error A
or_error e none = err e
or_error e (some a) = ok a

-- `if bad { return fmt.Errorf(...) }`
abbrev pub unless : Bool → Error → Result Error (Unit {0})
unless true e = err e
unless false e = ok tt

abbrev pub expanded : Config → ℤ → ℤ → Config
expanded c idle session = record c {
  proxy = record c.proxy {
    default_idle = idle;
    udp_session = session;
    buffer_size = if leb_ℤ c.proxy.buffer_size (pos 0) then pos 32768 else c.proxy.buffer_size;
    listen_interface =
        if is_empty c.proxy.listen_interface then codes "0.0.0.0" else c.proxy.listen_interface;
  };
  security = record c.security {
    cached_backend_whitelist = cached c.security.backend_whitelist [];
  };
}

unfoldable pub validate : Config → Result Error (Unit {0})
validate c = do
  _ ← unless (leb_ℤ c.proxy.default_idle (pos 0)) idle_required
  _ ← unless (leb_ℤ c.proxy.udp_session (pos 0)) session_required
  _ ←
      unless (ltb_ℤ c.proxy.buffer_size (pos 1024) || ltb_ℤ (pos 1_048_576) c.proxy.buffer_size)
        buffer_out_of_range
  _ ← unless (is_empty c.path) path_required
  _ ← unless (leb_ℤ c.security.max_tcp_conns_per_ip (pos 0)) tcp_per_ip_required
  _ ← unless (leb_ℤ c.security.max_udp_packets_per_ip_sec (pos 0)) udp_per_ip_required
  unless (leb_ℤ c.telegram.rate_limit_per_min (pos 0)) rate_limit_required

module _ (parse_duration : List ℕ → Option ℤ) (unmarshal : List ℕ → Config → Option Config) where
  unfoldable pub expand : Config → Result Error Config
  expand c = do
    idle ← or_error bad_idle_timeout (parse_duration c.proxy.default_idle_timeout)
    session ← or_error bad_session_timeout (parse_duration c.proxy.udp_session_timeout)
    ok (expanded c idle session)

  -- `none` for the file is an error of ReadFile.
  unfoldable pub load : Option (List ℕ) → Result Error Config
  load file = do
    text ← or_error read_failed file
    parsed ← or_error parse_failed (unmarshal text default)
    c ← expand parsed
    _ ← validate c
    ok c

abbrev pub second : ℕ
second = 1_000_000_000

-- `60/n` of a negative number is not positive either.
unfoldable pub tele_rate_limit : ℤ → Result Error ℕ
tele_rate_limit (pos zero) = panics
tele_rate_limit (pos (suc n)) =
    let per = 60 / suc n * second in if per == 0 then ok second else ok per
tele_rate_limit (negsuc n) = ok second

unfoldable pub admin_allowed : List ℤ → ℤ → Bool
admin_allowed [] id = false
admin_allowed (a ∷ ids) id = if eq_ℤ a id then true else admin_allowed ids id
