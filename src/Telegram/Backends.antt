-- ===== src/Telegram/Backends.antt =====
-- formatBackendStats of internal/telegram/bot.go: the figures of one backend, before they are printed.
use proxygo.Base.{
  ℕ, ◌^◌, ◌<◌, ◌≡◌, arith, Option, none, some, List, if◌then◌else◌, Result, ok, ◌>>=◌, inl, inr,
}
use proxygo.Base.Int.{pos}
use proxygo.Proxy.Manager.{Row}
use proxygo.Telegram.Sizes.{Size, bytes, human_bytes, human_bytes_outcome, Uptime, short_uptime}

-- The counters of a running backend, and the seconds since it was made.
pub record Counters : Type 0 where
  pub tcp_in : ℕ
  pub tcp_out : ℕ
  pub udp_bytes : ℕ
  pub udp_pkts : ℕ
  pub conns : ℕ
  pub active : ℕ
  pub age : ℕ

pub record BackendFigures : Type 0 where
  pub row : Row
  pub udp_target : Option (ℕ × List ℕ)
  pub active : ℕ
  pub conns : ℕ
  pub sent : Size
  pub received : Size
  pub udp : Size
  pub udp_pkts : ℕ
  pub uptime : Uptime

abbrev pub udp_target_of : Row → Option (ℕ × List ℕ)
udp_target_of r = if r.udp_enabled then some (r.udp_port, r.backend_udp) else none

abbrev pub printed : Row → Counters → Size → Size → Size → BackendFigures
printed r c sent received udp = record {
  row = r;
  udp_target = udp_target_of r;
  active = c.active;
  conns = c.conns;
  sent = sent;
  received = received;
  udp = udp;
  udp_pkts = c.udp_pkts;
  uptime = short_uptime c.age;
}

-- The sizes are made in the order in which they are printed.
unfoldable pub backend_figures : Row → Counters → Result (Unit {0}) BackendFigures
backend_figures r c = do
  sent ← human_bytes (pos c.tcp_out)
  received ← human_bytes (pos c.tcp_in)
  udp ← human_bytes (pos c.udp_bytes)
  ok (printed r c sent received udp)

human_bytes_small : (n : ℕ) → n < 1024 ^ 5 → (s : Size) × (human_bytes (pos n) ≡ ok s)
human_bytes_small n small = elim (human_bytes_outcome n n (omega arith)).0 [
  | inl (few, shown) ↦ (bytes (pos n), shown)
  | inr (inl (exp, few, below, above, shown)) ↦ (_, shown)
  | inr (inr (huge, crashes)) ↦ absurd (omega arith)
]

-- The figures of a backend whose three counters of bytes are below 2^50 are shown.
backend_figures_small :
    (r : Row) (c : Counters)
    → c.tcp_out < 1024 ^ 5
    → c.tcp_in < 1024 ^ 5
    → c.udp_bytes < 1024 ^ 5
    → (f : BackendFigures) × (backend_figures r c ≡ ok f)
unfolding backend_figures
backend_figures_small r c small_out small_in small_udp =
    let (sent, a) = human_bytes_small c.tcp_out small_out in
    let (received, b) = human_bytes_small c.tcp_in small_in in
    let (udp, d) = human_bytes_small c.udp_bytes small_udp in
    (printed r c sent received udp, simp (a, b, d))
