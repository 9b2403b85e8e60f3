-- ===== src/Command.antt =====
-- The admin subcommands of cmd/proxygo/main.go over the store: what they read and print. The layout of
-- the printed tables is left out.
pub mod Serving
mod Tests
use proxygo.Base.{
  ℕ, ◌+◌, ◌≡◌, refl, ◌∙◌, ap, arith, Bool, true, false, Option, none, some, List, [], ◌∷◌, map,
  if◌then◌else◌, bytes_beq, Option-cases, inl, inr,
}
use proxygo.Base.Sort.{sort_by, more, total, IsDescending, IsDescending-sort, total-sort}
use proxygo.Base.Text.{codes}
use proxygo.Proxy.Manager.{Row}
use proxygo.Security.Bans.{Table, list_bans}
use proxygo.Storage.{Store, Sums, StatRows, get_backends, query, rows_of}
use proxygo.Storage.Stats.{
  sum_stats, sums_of, Recorded, record_all, recorded_sum, sum_stats-record_all,
}

-- One printed line, and the whole table.
pub record Line : Type 0 where
  pub name : List ℕ
  pub sums : Sums

pub record Report : Type 0 where
  pub lines : List Line
  pub tot_tcp : ℕ
  pub tot_udp : ℕ

abbrev pub traffic : Line → ℕ
traffic l = l.sums.tcp_bytes + l.sums.udp_bytes

-- The loop over the backends; `sum[b.ID]` of a backend without statistics is zero.
unfoldable pub collect : List (ℕ × Sums) → List Row → Report → Report
collect sum [] r = r
collect sum (b ∷ bs) r =
    let v = sums_of b.id sum in
    let rest = collect sum bs r in
    record {
      lines = record { name = b.name; sums = v } ∷ rest.lines;
      tot_tcp = v.tcp_bytes + rest.tot_tcp;
      tot_udp = v.udp_bytes + rest.tot_udp;
    }

abbrev pub no_report : Report
no_report = record { lines = []; tot_tcp = 0; tot_udp = 0 }

abbrev pub sorted : Report → Report
sorted r = record r { lines = sort_by (more traffic) r.lines }

abbrev pub reported : Option (List Row) → Option (List (ℕ × Sums)) → Option Report
reported none sum = none
reported (some backends) none = none
reported (some backends) (some sum) = some (sorted (collect sum backends no_report))

-- What a subcommand prints, where `none` is an error.
pub data Printed : Type 0 where
  backends : List Row → Printed
  bans : Table → Printed
  stats : Report → Printed

abbrev pub printed_backends : Option (List Row) → Option Printed
printed_backends none = none
printed_backends (some rows) = some (backends rows)

abbrev pub printed_bans : Option Table → Option Printed
printed_bans none = none
printed_bans (some rows) = some (bans rows)

abbrev pub printed_stats : Option Report → Option Printed
printed_stats none = none
printed_stats (some r) = some (stats r)

module _ (works : ℕ → Bool) where
  unfoldable pub admin_stats : Store → Option Report
  admin_stats s = reported (get_backends works s) (query works (λ d. sum_stats d.stats) s)

  -- `ban_rows` is the table of bans of the same database.
  unfoldable pub run_admin : List ℕ → Table → Store → Option Printed
  run_admin command ban_rows s =
      if bytes_beq command (codes "backends")
      then printed_backends (get_backends works s)
      else if bytes_beq command (codes "bans")
      then printed_bans (query works (λ d. list_bans ban_rows) s)
      else if bytes_beq command (codes "stats")
      then printed_stats (admin_stats s)
      else none

-- The line of a backend.
abbrev line_by : (ℕ → Sums) → Row → Line
line_by sum b = record { name = b.name; sums = sum b.id }

-- Whatever is counted over the lines, is counted over the backends.
collect-lines :
    (g : Line → ℕ) (sum : List (ℕ × Sums)) (bs : List Row)
    → total g (collect sum bs no_report).lines
      ≡ total (λ b. g (line_by (λ id. sums_of id sum) b)) bs
unfolding collect
collect-lines g sum [] = refl
collect-lines g sum (b ∷ bs) = omega (arith, collect-lines g sum bs)

-- All that was recorded for a backend.
abbrev pub recorded : List Recorded → ℕ → Sums
recorded ps id = record {
  tcp_bytes = recorded_sum (λ p. p.tcp_bytes) id ps;
  udp_bytes = recorded_sum (λ p. p.udp_bytes) id ps;
  tcp_conns = recorded_sum (λ p. p.tcp_conns) id ps;
  udp_packets = recorded_sum (λ p. p.udp_packets) id ps;
}

sums_of-recorded :
    (ps : List Recorded) (id : ℕ) → sums_of id (sum_stats (record_all ps [])) ≡ recorded ps id
sums_of-recorded ps id = λ i. record {
  tcp_bytes = sum_stats-record_all (λ p. p.tcp_bytes) id ps (refl, λ x y. refl) i;
  udp_bytes = sum_stats-record_all (λ p. p.udp_bytes) id ps (refl, λ x y. refl) i;
  tcp_conns = sum_stats-record_all (λ p. p.tcp_conns) id ps (refl, λ x y. refl) i;
  udp_packets = sum_stats-record_all (λ p. p.udp_packets) id ps (refl, λ x y. refl) i;
}

-- The lines and the totals of a report, over the backends.
collect-total :
    (sum : List (ℕ × Sums)) (bs : List Row)
    → let r = collect sum bs no_report in
      (total traffic r.lines ≡ r.tot_tcp + r.tot_udp)
      × (r.tot_tcp ≡ total (λ b. (sums_of b.id sum).tcp_bytes) bs)
      × (r.tot_udp ≡ total (λ b. (sums_of b.id sum).udp_bytes) bs)
unfolding collect
collect-total sum [] = (refl, refl, refl)
collect-total sum (b ∷ bs) =
    let (lines, tcp, udp) = collect-total sum bs in
    (omega (arith, lines), omega (arith, tcp), omega (arith, udp))

total-ap : (f g : Row → ℕ) (bs : List Row) → ((b : Row) → f b ≡ g b) → total f bs ≡ total g bs
total-ap f g [] same = refl
total-ap f g (b ∷ bs) same = omega (arith, same b, total-ap f g bs same)

-- `proxygo stats`, with a driver that works and a table of statistics that calls of RecordStat filled:
-- its lines are, in descending traffic, one for each backend in the table of backends, with the
-- backend's name and all that was recorded for it: whatever is counted over the lines is the same over
-- the backends. The TOTAL line holds the bytes recorded for them, and so the traffic of the lines.
pub admin_stats-record_all :
    (works : ℕ → Bool) (ps : List Recorded) (s : Store)
    → works s.issued ≡ true
    → s.db.stats ≡ record_all ps []
    → let rows = rows_of s.db.backends in
      (r : Report) × (admin_stats works s ≡ some r)
      × IsDescending traffic r.lines
      × ((g : Line → ℕ)
          → total g r.lines
            ≡ total (λ b. g (record { name = b.name; sums = recorded ps b.id })) rows)
      × (total traffic r.lines ≡ r.tot_tcp + r.tot_udp)
      × (r.tot_tcp ≡ total (λ b. recorded_sum (λ p. p.tcp_bytes) b.id ps) rows)
      × (r.tot_udp ≡ total (λ b. recorded_sum (λ p. p.udp_bytes) b.id ps) rows)
unfolding admin_stats get_backends
admin_stats-record_all works ps s driver filled =
    let rows = rows_of s.db.backends in
    let sum = sum_stats (record_all ps []) in
    let r = collect sum rows no_report in
    let (lines, tcp, udp) = collect-total sum rows in
    (
      sorted r,
      simp (driver, filled),
      IsDescending-sort traffic r.lines,
      λ g.
          total-sort (more traffic) g r.lines
          ∙ collect-lines g sum rows
          ∙ total-ap (λ b. g (line_by (λ id. sums_of id sum) b)) (λ b. g (line_by (recorded ps) b))
              rows
              (λ b. ap (λ v. g (record { name = b.name; sums = v })) (sums_of-recorded ps b.id)),
      total-sort (more traffic) traffic r.lines ∙ lines,
      tcp
          ∙ total-ap (λ b. (sums_of b.id sum).tcp_bytes)
              (λ b. recorded_sum (λ p. p.tcp_bytes) b.id ps) rows
              (λ b. sum_stats-record_all (λ p. p.tcp_bytes) b.id ps (refl, λ x y. refl)),
      udp
          ∙ total-ap (λ b. (sums_of b.id sum).udp_bytes)
              (λ b. recorded_sum (λ p. p.udp_bytes) b.id ps) rows
              (λ b. sum_stats-record_all (λ p. p.udp_bytes) b.id ps (refl, λ x y. refl)),
    )
