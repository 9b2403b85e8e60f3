-- ===== src/Proxy/Backend/Lifecycle/Lives.antt =====
-- statsFlusher of internal/proxy/proxy.go over several lives of one backend: restart starts a new flusher.
use proxygo.Base.{
  ℕ, ◌+◌, ◌≡◌, refl, ◌∙◌, ap, arith, Bool, true, false, List, [], ◌∷◌, ◌++◌, if◌then◌else◌,
}
use proxygo.Proxy.Backend.{Totals, StatPoint, no_totals, delta, is_zero, point_of, flush}
use proxygo.Proxy.Backend.Stats.{Tick, Growing, flushes, final, sum_of, flushes-AddsUp}

-- The ticks of the flusher in each life, the first life first. Every start begins with a snapshot of
-- zero, and the counters go on from life to life.
unfoldable pub flush_lives : List (List Tick) → List StatPoint → List StatPoint
flush_lives [] recorded = recorded
flush_lives (ticks ∷ lives) recorded = flush_lives lives (flushes ticks (no_totals, recorded)).1

abbrev flushed : Bool → Totals → StatPoint → Totals × List StatPoint → Totals × List StatPoint
flushed unchanged t p (last, recorded) = if unchanged then (last, recorded) else (t, p ∷ recorded)

flushed-append :
    (unchanged : Bool) (t last : Totals) (p : StatPoint) (new old : List StatPoint)
    → flushed unchanged t p (last, new ++ old)
      ≡ ((flushed unchanged t p (last, new)).0, (flushed unchanged t p (last, new)).1 ++ old)
flushed-append true t last p new old = refl
flushed-append false t last p new old = refl

flush-append :
    (now : ℕ) (t last : Totals) (new old : List StatPoint)
    → flush now t (last, new ++ old)
      ≡ ((flush now t (last, new)).0, (flush now t (last, new)).1 ++ old)
unfolding flush
flush-append now t last new old =
    let d = delta last t in flushed-append (is_zero d) t last (point_of now d) new old

flushes-append :
    (ticks : List Tick) (last : Totals) (new old : List StatPoint)
    → flushes ticks (last, new ++ old)
      ≡ ((flushes ticks (last, new)).0, (flushes ticks (last, new)).1 ++ old)
unfolding flushes
flushes-append [] last new old = refl
flushes-append (k ∷ ks) last new old =
    ap (flushes ks) (flush-append k.now k.totals last new old)
    ∙ flushes-append ks (flush k.now k.totals (last, new)).0 (flush k.now k.totals (last, new)).1
        old

sum_of-append :
    (field : StatPoint → ℕ) (ps qs : List StatPoint)
    → sum_of field (ps ++ qs) ≡ sum_of field ps + sum_of field qs
sum_of-append field [] qs = omega arith
sum_of-append field (p ∷ ps) qs = omega (arith, sum_of-append field ps qs)

-- Each life begins with the counters of the flusher at zero.
abbrev pub AllGrow : List (List Tick) → Type 0
AllGrow [] = Unit {0}
AllGrow (ticks ∷ lives) = Growing no_totals ticks × AllGrow lives

abbrev pub over_lives : (Totals → ℕ) → List (List Tick) → ℕ
over_lives field [] = 0
over_lives field (ticks ∷ lives) = field (final no_totals ticks) + over_lives field lives

-- What is recorded in one life adds up to its last counter.
abbrev EachLife : (StatPoint → ℕ) → (Totals → ℕ) → Type 0
EachLife field counter =
    (ticks : List Tick)
    → Growing no_totals ticks
    → sum_of field (flushes ticks (no_totals, [])).1 ≡ counter (final no_totals ticks)

flush_lives-sum :
    (field : StatPoint → ℕ) (counter : Totals → ℕ) (lives : List (List Tick))
    (recorded : List StatPoint)
    → EachLife field counter
    → AllGrow lives
    → sum_of field (flush_lives lives recorded) ≡ over_lives counter lives + sum_of field recorded
unfolding flush_lives
flush_lives-sum field counter [] recorded each grow = omega arith
flush_lives-sum field counter (ticks ∷ lives) recorded each (first, grow) =
    let this = (flushes ticks (no_totals, [])).1 in
    ap (λ (r : Totals × List StatPoint). sum_of field (flush_lives lives r.1))
      (flushes-append ticks no_totals [] recorded)
    ∙ omega (
      arith,
      flush_lives-sum field counter lives (this ++ recorded) each grow,
      sum_of-append field this recorded,
      each ticks first,
    )

all_lives :
    (field : StatPoint → ℕ) (counter : Totals → ℕ) (lives : List (List Tick))
    → EachLife field counter
    → AllGrow lives
    → sum_of field (flush_lives lives []) ≡ over_lives counter lives
all_lives field counter lives each grow =
    flush_lives-sum field counter lives [] each grow ∙ omega arith

-- Over several lives of a backend, with counters that only grow within each, what is recorded adds up
-- to the sum over the lives of the counters at the last tick of each: a restart makes the flusher
-- record again all that was counted before it.
pub flush_lives-AddsUp :
    (lives : List (List Tick))
    → AllGrow lives
    → let points = flush_lives lives [] in
      (sum_of (λ p. p.tcp_bytes) points ≡ over_lives (λ t. t.tcp_in + t.tcp_out) lives)
      × (sum_of (λ p. p.tcp_conns) points ≡ over_lives (λ t. t.conns) lives)
      × (sum_of (λ p. p.udp_bytes) points ≡ over_lives (λ t. t.udp_bytes) lives)
      × (sum_of (λ p. p.udp_packets) points ≡ over_lives (λ t. t.udp_pkts) lives)
flush_lives-AddsUp lives grow = (
  all_lives (λ p. p.tcp_bytes) (λ t. t.tcp_in + t.tcp_out) lives (λ ks g. (flushes-AddsUp ks g).0)
      grow,
  all_lives (λ p. p.tcp_conns) (λ t. t.conns) lives (λ ks g. (flushes-AddsUp ks g).1) grow,
  all_lives (λ p. p.udp_bytes) (λ t. t.udp_bytes) lives (λ ks g. (flushes-AddsUp ks g).2) grow,
  all_lives (λ p. p.udp_packets) (λ t. t.udp_pkts) lives (λ ks g. (flushes-AddsUp ks g).3) grow,
)
