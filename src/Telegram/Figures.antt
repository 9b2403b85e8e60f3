-- ===== src/Telegram/Figures.antt =====
-- formatGlobalStats of internal/telegram/bot.go: the figures of /stats, before they are printed.
use proxygo.Base.{
  ℕ, ◌+◌, ◌≡◌, refl, ◌∙◌, ap, subst, sym, arith, List, [], ◌∷◌, ◌++◌, map, length, take, drop,
  take-append-drop, length-take,
}
use proxygo.Base.Sort.{sort_by, more, total, IsDescending, IsDescending-sort, total-sort}
use Prim.Native.Nat.{min}

-- Name and counters of a running backend.
pub record Traffic : Type 0 where
  pub name : List ℕ
  pub tcp_in : ℕ
  pub tcp_out : ℕ
  pub udp_bytes : ℕ

pub record Line : Type 0 where
  pub name : List ℕ
  pub v : ℕ

pub record Figures : Type 0 where
  pub total_tcp : ℕ
  pub total_udp : ℕ
  pub top : List Line

-- The loop over the backends that adds the totals up.
unfoldable pub add_up : List Traffic → ℕ → ℕ → ℕ × ℕ
add_up [] tcp udp = (tcp, udp)
add_up (t ∷ ts) tcp udp = add_up ts (tcp + (t.tcp_in + t.tcp_out)) (udp + t.udp_bytes)

abbrev pub line_of : Traffic → Line
line_of t = record { name = t.name; v = t.tcp_in + t.tcp_out + t.udp_bytes }

abbrev pub ranked : List Traffic → List Line
ranked ts = sort_by (more (λ l. l.v)) (map line_of ts)

unfoldable pub global_stats : List Traffic → Figures
global_stats ts =
    let totals = add_up ts 0 0 in
    record { total_tcp = totals.0; total_udp = totals.1; top = take 5 (ranked ts) }

add_up-total :
    (ts : List Traffic) (tcp udp : ℕ)
    → ((add_up ts tcp udp).0 ≡ tcp + total (λ t. t.tcp_in + t.tcp_out) ts)
      × ((add_up ts tcp udp).1 ≡ udp + total (λ t. t.udp_bytes) ts)
unfolding add_up
add_up-total [] tcp udp = (omega arith, omega arith)
add_up-total (t ∷ ts) tcp udp =
    let (a, b) = add_up-total ts (tcp + (t.tcp_in + t.tcp_out)) (udp + t.udp_bytes) in
    (omega (arith, a), omega (arith, b))

total-line_of :
    (ts : List Traffic)
    → total (λ l. l.v) (map line_of ts)
      ≡ total (λ t. t.tcp_in + t.tcp_out) ts + total (λ t. t.udp_bytes) ts
total-line_of [] = refl
total-line_of (t ∷ ts) = omega (arith, total-line_of ts)

length-total : (ls : List Line) → length ls ≡ total (λ l. 1) ls
length-total [] = refl
length-total (l ∷ ls) = omega (arith, length-total ls)

-- The lines of /stats are at most five, and with the lines that are not shown behind them they are
-- the lines of all backends in descending traffic: whatever is counted over the lines is the same
-- over the backends. The traffic of all lines is the TCP total plus the UDP total.
pub global_stats-IsDescending :
    (ts : List Traffic)
    → let shown = global_stats ts in
      (length shown.top ≡ min 5 (length ts))
      × ((hidden : List Line) × IsDescending (λ l. l.v) (shown.top ++ hidden)
          × ((g : Line → ℕ) → total g (shown.top ++ hidden) ≡ total g (map line_of ts))
          × (total (λ l. l.v) (shown.top ++ hidden) ≡ shown.total_tcp + shown.total_udp))
unfolding global_stats
global_stats-IsDescending ts =
    let lines = map line_of ts in
    let whole = take-append-drop 5 (ranked ts) in
    let every = λ (g : Line → ℕ). ap (total g) whole ∙ total-sort (more (λ l. l.v)) g lines in
    let (tcp, udp) = add_up-total ts 0 0 in
    (
      length-take 5 (ranked ts)
          ∙ ap (min 5)
              (length-total (ranked ts) ∙ total-sort (more (λ l. l.v)) (λ l. 1) lines ∙ counted ts),
      (
        drop 5 (ranked ts),
        subst (IsDescending (λ l. l.v)) (sym whole) (IsDescending-sort (λ l. l.v) lines),
        every,
        every (λ l. l.v) ∙ omega (arith, total-line_of ts, tcp, udp),
      ),
    )
  where
    counted : (ts : List Traffic) → total (λ l. 1) (map line_of ts) ≡ length ts
    counted [] = refl
    counted (t ∷ ts) = omega (arith, counted ts)
