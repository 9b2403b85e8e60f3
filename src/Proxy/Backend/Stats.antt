-- ===== src/Proxy/Backend/Stats.antt =====
-- What the flusher records, against the counters.
use proxygo.Base.{ℕ, ◌+◌, ◌≤◌, ◌≡◌, refl, arith, List, [], ◌∷◌, Bool-cases, inl, inr}
use proxygo.Proxy.Backend.{Totals, no_totals, StatPoint, delta, is_zero, flush}

-- The counters at one tick of the flusher.
pub record Tick : Type 0 where
  pub now : ℕ
  pub totals : Totals

-- No counter is less than before.
abbrev pub Grown : Totals → Totals → Type 0
Grown a b =
    (a.tcp_in ≤ b.tcp_in)
    × (a.tcp_out ≤ b.tcp_out)
    × (a.udp_bytes ≤ b.udp_bytes)
    × (a.udp_pkts ≤ b.udp_pkts)
    × (a.conns ≤ b.conns)

-- The counters at the ticks, which only grow from `t` on.
abbrev pub Growing : Totals → List Tick → Type 0
Growing t [] = Unit {0}
Growing t (k ∷ ks) = Grown t k.totals × Growing k.totals ks

unfoldable pub flushes : List Tick → Totals × List StatPoint → Totals × List StatPoint
flushes [] r = r
flushes (k ∷ ks) r = flushes ks (flush k.now k.totals r)

-- The counters at the last tick.
abbrev pub final : Totals → List Tick → Totals
final t [] = t
final t (k ∷ ks) = final k.totals ks

abbrev pub sum_of : (StatPoint → ℕ) → List StatPoint → ℕ
sum_of field [] = 0
sum_of field (p ∷ ps) = field p + sum_of field ps

-- The recorded points add up to the counters.
abbrev pub AddsUp : Totals → List StatPoint → Type 0
AddsUp t ps =
    (sum_of (λ p. p.tcp_bytes) ps ≡ t.tcp_in + t.tcp_out)
    × (sum_of (λ p. p.tcp_conns) ps ≡ t.conns)
    × (sum_of (λ p. p.udp_bytes) ps ≡ t.udp_bytes)
    × (sum_of (λ p. p.udp_packets) ps ≡ t.udp_pkts)

-- The snapshot is the counters, in numbers.
abbrev SameTotals : Totals → Totals → Type 0
SameTotals a b =
    (a.tcp_in ≡ b.tcp_in)
    × (a.tcp_out ≡ b.tcp_out)
    × (a.udp_bytes ≡ b.udp_bytes)
    × (a.udp_pkts ≡ b.udp_pkts)
    × (a.conns ≡ b.conns)

abbrev Balanced : Totals → Totals × List StatPoint → Type 0
Balanced t (last, ps) = SameTotals last t × AddsUp t ps

flush-Balanced :
    (now : ℕ) (t u : Totals) (r : Totals × List StatPoint)
    → Grown t u
    → Balanced t r
    → Balanced u (flush now u r)
unfolding flush
flush-Balanced now t u (last, ps) grown ((a, b, c, d, e), (w, x, y, z)) =
    elim (Bool-cases (is_zero (delta last u))) [
      | inl zero_delta ↦ rw zero_delta (ground arith)
      | inr changed ↦ rw changed (ground arith)
    ]

flushes-Balanced :
    (ticks : List Tick) (t : Totals) (r : Totals × List StatPoint)
    → Growing t ticks
    → Balanced t r
    → Balanced (final t ticks) (flushes ticks r)
unfolding flushes
flushes-Balanced [] t r growing balanced = balanced
flushes-Balanced (k ∷ ks) t r (grown, growing) balanced =
    flushes-Balanced ks k.totals (flush k.now k.totals r) growing
      (flush-Balanced k.now t k.totals r grown balanced)

-- After any ticks, with counters that only grow, the recorded points add up to the counters at the
-- last tick: nothing is counted twice and nothing is lost.
pub flushes-AddsUp :
    (ticks : List Tick)
    → Growing no_totals ticks
    → AddsUp (final no_totals ticks) (flushes ticks (no_totals, [])).1
flushes-AddsUp ticks growing =
    (flushes-Balanced ticks no_totals (no_totals, []) growing
      ((refl, refl, refl, refl, refl), (refl, refl, refl, refl))).1
