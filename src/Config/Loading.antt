-- ===== src/Config/Loading.antt =====
-- What a configuration that is loaded satisfies.
use proxygo.Base.{
  ℕ, zero, suc, ◌*◌, ◌/◌, ◌≤◌, ◌≡◌, ◌≢◌, refl, arith, Bool, true, false, ◌||◌, Option, none, some,
  List, [], ◌∷◌, ◌==◌, ◌∙◌, if◌then◌else◌, Result, ok, err, panics, ◌>>=◌, bytes_beq, subst,
  is_empty,
}
use proxygo.Base.Text.{codes}
use proxygo.Base.Int.{ℤ, pos, negsuc, ◌≤ℤ◌, ◌<ℤ◌, ltb_ℤ, leb_ℤ}
use proxygo.Base.Assoc.{bytes_eq, lookup, assign, lookup-assign}
use proxygo.Config.{
  Config, Error, cached, or_error, unless, expanded, validate, expand, load, default, second,
  tele_rate_limit,
}

-- The bounds that Validate checks. It leaves the limits per minute and the timeout of polling alone.
abbrev pub IsValid : Config → Type 0
IsValid c =
    (pos 0 <ℤ c.proxy.default_idle)
    × (pos 0 <ℤ c.proxy.udp_session)
    × (pos 1024 ≤ℤ c.proxy.buffer_size)
    × (c.proxy.buffer_size ≤ℤ pos 1_048_576)
    × (c.path ≢ [])
    × (pos 0 <ℤ c.security.max_tcp_conns_per_ip)
    × (pos 0 <ℤ c.security.max_udp_packets_per_ip_sec)
    × (pos 0 <ℤ c.telegram.rate_limit_per_min)

ok-injective : {A : Type 0} {a b : A} → Path (Result Error A) (ok a) (ok b) → a ≡ b
ok-injective h = cc

bind-ok :
    {A B : Type 0} (r : Result Error A) (f : A → Result Error B) {b : B}
    → (r >>= f) ≡ ok b
    → (a : A) × (r ≡ ok a) × (f a ≡ ok b)
bind-ok (ok a) f h = (a, refl, h)
bind-ok (err e) f h = cc
bind-ok panics f h = cc

unless-ok : (b : Bool) (e : Error) {u : Unit {0}} → unless b e ≡ ok u → b ≡ false
unless-ok true e h = cc
unless-ok false e h = refl

filled : (s : List ℕ) → is_empty s ≡ false → s ≢ []
filled [] h = cc
filled (b ∷ s) h = λ e. cc

positive : (a : ℤ) → leb_ℤ a (pos 0) ≡ false → pos 0 <ℤ a
positive a h = ground arith

in_range :
    (a : ℤ)
    → (ltb_ℤ a (pos 1024) || ltb_ℤ (pos 1_048_576) a) ≡ false
    → (pos 1024 ≤ℤ a) × (a ≤ℤ pos 1_048_576)
in_range a h = ground arith

passed :
    {A : Type 0} (b : Bool) (e : Error) (rest : Unit {0} → Result Error A) {a : A}
    → (unless b e >>= rest) ≡ ok a
    → (b ≡ false) × (rest tt ≡ ok a)
passed true e rest h = cc
passed false e rest h = (refl, h)

validate-IsValid : (c : Config) (u : Unit {0}) → validate c ≡ ok u → IsValid c
unfolding validate
validate-IsValid c u h =
    let (idle, h) = passed (leb_ℤ c.proxy.default_idle (pos 0)) Error.idle_required _ h in
    let (session, h) = passed (leb_ℤ c.proxy.udp_session (pos 0)) Error.session_required _ h in
    let (buffer, h) =
      passed (ltb_ℤ c.proxy.buffer_size (pos 1024) || ltb_ℤ (pos 1_048_576) c.proxy.buffer_size)
        Error.buffer_out_of_range _ h in
    let (path, h) = passed (is_empty c.path) Error.path_required _ h in
    let (tcp, h) =
      passed (leb_ℤ c.security.max_tcp_conns_per_ip (pos 0)) Error.tcp_per_ip_required _ h in
    let (udp, h) =
      passed (leb_ℤ c.security.max_udp_packets_per_ip_sec (pos 0)) Error.udp_per_ip_required _ h in
    let rate =
      unless-ok (leb_ℤ c.telegram.rate_limit_per_min (pos 0)) Error.rate_limit_required h in
    let (low, high) = in_range c.proxy.buffer_size buffer in
    (
      positive c.proxy.default_idle idle,
      positive c.proxy.udp_session session,
      low,
      high,
      filled c.path path,
      positive c.security.max_tcp_conns_per_ip tcp,
      positive c.security.max_udp_packets_per_ip_sec udp,
      positive c.telegram.rate_limit_per_min rate,
    )

-- The entries of the whitelist, as a test.
abbrev pub listed : List ℕ → List (List ℕ) → Bool
listed host [] = false
listed host (ip ∷ ips) = bytes_beq ip host || listed host ips

abbrev pub has {ℓ} : {A : Type ℓ} → Option A → Bool
has none = false
has (some a) = true

lookup-cached :
    (host : List ℕ) (ips : List (List ℕ)) (m : List (List ℕ × Unit {0}))
    → has (lookup host (cached ips m)) ≡ (listed host ips || has (lookup host m))
unfolding cached
lookup-cached host [] m = refl
lookup-cached host (ip ∷ ips) m =
    lookup-cached host ips (assign ip tt m) ∙ ground (arith, lookup-assign ip host tt m)

abbrev per_command : ℕ → Result Error ℕ
per_command per = if per == 0 then ok second else ok per

tele_rate_limit-bounds :
    (n : ℤ) → pos 0 <ℤ n → (d : ℕ) × (tele_rate_limit n ≡ ok d) × (second ≤ d) × (d ≤ 60 * second)
unfolding tele_rate_limit
tele_rate_limit-bounds (pos zero) above = absurd (omega arith)
tele_rate_limit-bounds (negsuc n) above = absurd (omega arith)
tele_rate_limit-bounds (pos (suc n)) above = bounded (60 / suc n) (omega arith)
  where
    bounded :
        (q : ℕ)
        → q ≤ 60
        → (d : ℕ) × (per_command (q * second) ≡ ok d) × (second ≤ d) × (d ≤ 60 * second)
    bounded zero le = (second, ground arith, omega arith, omega arith)
    bounded (suc q) le = (suc q * second, ground arith, omega arith, omega arith)

-- What expand makes of a configuration.
abbrev pub IsExpanded : Config → Type 0
IsExpanded c =
    (c.proxy.listen_interface ≢ [])
    × ((host : List ℕ)
        → has (lookup host c.security.cached_backend_whitelist)
          ≡ listed host c.security.backend_whitelist)

interface_filled : (s : List ℕ) → (if is_empty s then codes "0.0.0.0" else s) ≢ []
interface_filled [] = λ e. cc
interface_filled (b ∷ s) = λ e. cc

expanded-IsExpanded : (c : Config) (idle session : ℤ) → IsExpanded (expanded c idle session)
unfolding lookup
expanded-IsExpanded c idle session = (
  interface_filled c.proxy.listen_interface,
  λ host.
      lookup-cached host c.security.backend_whitelist []
      ∙ or_false (listed host c.security.backend_whitelist),
)
  where
    or_false : (b : Bool) → (b || false) ≡ b
    or_false true = refl
    or_false false = refl

module _ (parse_duration : List ℕ → Option ℤ) (unmarshal : List ℕ → Config → Option Config) where
  expand-IsExpanded : (c c' : Config) → expand parse_duration unmarshal c ≡ ok c' → IsExpanded c'
  unfolding expand
  expand-IsExpanded c c' h =
      let (idle, _, h) =
        bind-ok (or_error Error.bad_idle_timeout (parse_duration c.proxy.default_idle_timeout)) _
          h in
      let (session, _, h) =
        bind-ok (or_error Error.bad_session_timeout (parse_duration c.proxy.udp_session_timeout)) _
          h in
      subst IsExpanded (ok-injective h) (expanded-IsExpanded c idle session)

-- A configuration that Load returns, whatever the file and the parsers say, is within the bounds that
-- Validate checks: the idle timeout, the timeout of UDP sessions, the connections per address, the UDP
-- packets per address and second, and the rate limit of the bot are positive, the buffer is between
-- 1 KiB and 1 MiB, and the path is not empty. The interface is not empty, the cached whitelist has
-- exactly the entries of the list, and the pause between two commands that TeleRateLimit computes
-- without a division by zero is between one second and one minute.
pub load-IsValid :
    (parse_duration : List ℕ → Option ℤ) (unmarshal : List ℕ → Config → Option Config)
    (file : Option (List ℕ)) (c : Config)
    → load parse_duration unmarshal file ≡ ok c
    → IsValid c
      × IsExpanded c
      × ((d : ℕ) × (tele_rate_limit c.telegram.rate_limit_per_min ≡ ok d)
          × (second ≤ d)
          × (d ≤ 60 * second))
unfolding load
load-IsValid parse_duration unmarshal file c h =
    let (text, _, h) = bind-ok (or_error Error.read_failed file) _ h in
    let (parsed, _, h) = bind-ok (or_error Error.parse_failed (unmarshal text default)) _ h in
    let (ready, opened, h) = bind-ok (expand parse_duration unmarshal parsed) _ h in
    let (u, checked, h) = bind-ok (validate ready) _ h in
    let same = ok-injective h in
    let valid = subst IsValid same (validate-IsValid ready u checked) in
    (
      valid,
      subst IsExpanded same (expand-IsExpanded parse_duration unmarshal parsed ready opened),
      tele_rate_limit-bounds c.telegram.rate_limit_per_min valid.7,
    )
