-- ===== src/Storage/Stats.antt =====
-- SumStats over what RecordStat wrote, and over what the flusher of a backend records.
use proxygo.Base.{
  ℕ, ◌+◌, ◌≡◌, refl, ◌∙◌, ap, arith, ==_iff, true, false, Option, none, some, List, [], ◌∷◌, ◌==◌,
  if◌then◌else◌, Bool-cases, ◌⊎◌, inl, inr,
}
use proxygo.Base.Assoc.{same_pair, same_pair_iff, nat_eq, pair_eq, lookup, assign, lookup-assign}
use proxygo.Proxy.Backend.{StatPoint, no_totals}
use proxygo.Proxy.Backend.Stats.{Tick, Growing, flushes, final, sum_of, flushes-AddsUp}
use proxygo.Storage.{Sums, StatRows, plus, upserted, upsert_stat}

abbrev pub no_sums : Sums
no_sums = record { tcp_bytes = 0; udp_bytes = 0; tcp_conns = 0; udp_packets = 0 }

-- SELECT ... GROUP BY backend_id
unfoldable pub sum_stats : StatRows → List (ℕ × Sums)
sum_stats [] = []
sum_stats ((key, p) ∷ rows) =
    let sums = sum_stats rows in assign key.0 (upserted p (lookup key.0 sums)) sums

-- What the map answers for a backend, where a missing one is zero.
abbrev or_zero : Option Sums → Sums
or_zero none = no_sums
or_zero (some p) = p

abbrev pub sums_of : ℕ → List (ℕ × Sums) → Sums
sums_of id sums = or_zero (lookup id sums)

-- One call of RecordStat that succeeds.
pub record Recorded : Type 0 where
  pub backend_id : ℕ
  pub hour : ℕ
  pub sums : Sums

unfoldable pub record_all : List Recorded → StatRows → StatRows
record_all [] rows = rows
record_all (p ∷ ps) rows = record_all ps (upsert_stat p.backend_id p.hour p.sums rows)

-- The total of a field over what was recorded for a backend.
abbrev pub recorded_sum : (Sums → ℕ) → ℕ → List Recorded → ℕ
recorded_sum field id [] = 0
recorded_sum field id (p ∷ ps) =
    (if p.backend_id == id then field p.sums else 0) + recorded_sum field id ps

abbrev row_sum : (Sums → ℕ) → ℕ → StatRows → ℕ
row_sum field id [] = 0
row_sum field id ((key, p) ∷ rows) = (if key.0 == id then field p else 0) + row_sum field id rows

-- A field that is added up field by field.
abbrev pub IsAdditive : (Sums → ℕ) → Type 0
IsAdditive field = (field no_sums ≡ 0) × ((a b : Sums) → field (plus a b) ≡ field a + field b)

sums_of-upserted :
    (field : Sums → ℕ) (p : Sums) (old : Option Sums)
    → IsAdditive field
    → field (upserted p old) ≡ field (or_zero old) + field p
sums_of-upserted field p none (zero_field, adds) = omega (arith, zero_field)
sums_of-upserted field p (some old) (zero_field, adds) = adds old p

sum_stats-row_sum :
    (field : Sums → ℕ) (id : ℕ) (rows : StatRows)
    → IsAdditive field
    → field (sums_of id (sum_stats rows)) ≡ row_sum field id rows
unfolding sum_stats lookup
sum_stats-row_sum field id [] additive = additive.0
sum_stats-row_sum field id ((key, p) ∷ rows) additive =
    let sums = sum_stats rows in
    let new = upserted p (lookup key.0 sums) in
    ap (λ o. field (or_zero o)) (lookup-assign key.0 id new sums)
    ∙ ground (
      arith,
      ==_iff key.0 id,
      sums_of-upserted field p (lookup key.0 sums) additive,
      sum_stats-row_sum field id rows additive,
    )

abbrev Moves : (Sums → ℕ) → ℕ → ℕ × ℕ → Sums → StatRows → Type 0
Moves field id key v rows =
    row_sum field id (assign key v rows)
      + (if key.0 == id then field (or_zero (lookup key rows)) else 0)
    ≡ row_sum field id rows + (if key.0 == id then field v else 0)

-- A row is written over, or added.
row_sum-assign :
    (field : Sums → ℕ) (id : ℕ) (key : ℕ × ℕ) (v : Sums) (rows : StatRows)
    → field no_sums ≡ 0
    → row_sum field id (assign key v rows)
        + (if key.0 == id then field (or_zero (lookup key rows)) else 0)
      ≡ row_sum field id rows + (if key.0 == id then field v else 0)
unfolding assign lookup
row_sum-assign field id key v [] zero_field = ground (arith, zero_field)
row_sum-assign field id key v ((j, q) ∷ rows) zero_field =
    split (Bool-cases (same_pair j key)) (row_sum-assign field id key v rows zero_field)
  where
    split :
        (same_pair j key ≡ true) ⊎ (same_pair j key ≡ false)
        → Moves field id key v rows
        → Moves field id key v ((j, q) ∷ rows)
    split (inl same) rest = rw same (rw ((same_pair_iff j key).0 same) (omega arith))
    split (inr other) rest = rw other (omega (arith, rest))

row_sum-upsert :
    (field : Sums → ℕ) (id : ℕ) (p : Recorded) (rows : StatRows)
    → IsAdditive field
    → row_sum field id (upsert_stat p.backend_id p.hour p.sums rows)
      ≡ row_sum field id rows + (if p.backend_id == id then field p.sums else 0)
unfolding upsert_stat
row_sum-upsert field id p rows additive =
    let key : ℕ × ℕ = (p.backend_id, p.hour) in
    let old = lookup key rows in
    let sum = row_sum-assign field id key (upserted p.sums old) rows additive.0 in
    let new = sums_of-upserted field p.sums old additive in ground (arith, sum, new)

record_all-row_sum :
    (field : Sums → ℕ) (id : ℕ) (ps : List Recorded) (rows : StatRows)
    → IsAdditive field
    → row_sum field id (record_all ps rows) ≡ row_sum field id rows + recorded_sum field id ps
unfolding record_all
record_all-row_sum field id [] rows additive = omega arith
record_all-row_sum field id (p ∷ ps) rows additive = omega (
  arith,
  record_all-row_sum field id ps (upsert_stat p.backend_id p.hour p.sums rows) additive,
  row_sum-upsert field id p rows additive,
)

-- In an empty table, any sequence of calls of RecordStat that succeed, for any backends and hours in
-- any order, is summed by SumStats without loss, also where an hour is recorded twice: each total
-- that is added up field by field is, for each backend, the sum of what was recorded for it.
pub sum_stats-record_all :
    (field : Sums → ℕ) (id : ℕ) (ps : List Recorded)
    → IsAdditive field
    → field (sums_of id (sum_stats (record_all ps []))) ≡ recorded_sum field id ps
sum_stats-record_all field id ps additive =
    sum_stats-row_sum field id (record_all ps []) additive
    ∙ record_all-row_sum field id ps [] additive
    ∙ omega arith

-- ---------- what a flusher records

abbrev pub sums_in : StatPoint → Sums
sums_in p = record {
  tcp_bytes = p.tcp_bytes;
  udp_bytes = p.udp_bytes;
  tcp_conns = p.tcp_conns;
  udp_packets = p.udp_packets;
}

-- The points of the backend `id`, in the order of the calls of RecordStat.
abbrev pub points_of : ℕ → List StatPoint → List Recorded
points_of id [] = []
points_of id (p ∷ ps) =
    record { backend_id = id; hour = p.hour; sums = sums_in p } ∷ points_of id ps

recorded_sum-points_of :
    (field : Sums → ℕ) (id : ℕ) (ps : List StatPoint)
    → recorded_sum field id (points_of id ps) ≡ sum_of (λ p. field (sums_in p)) ps
recorded_sum-points_of field id [] = refl
recorded_sum-points_of field id (p ∷ ps) =
    ground (arith, ==_iff id id, recorded_sum-points_of field id ps)

-- What the flusher of a backend records at its ticks, with counters that only grow and an empty
-- table, is what SumStats then answers for the backend: its bytes, connections and packets are the
-- counters at the last tick.
pub sum_stats-flushes :
    (id : ℕ) (ticks : List Tick)
    → Growing no_totals ticks
    → let last = final no_totals ticks in
      let points = points_of id (flushes ticks (no_totals, [])).1 in
      let sums = sums_of id (sum_stats (record_all points [])) in
      (sums.tcp_bytes ≡ last.tcp_in + last.tcp_out)
      × (sums.tcp_conns ≡ last.conns)
      × (sums.udp_bytes ≡ last.udp_bytes)
      × (sums.udp_packets ≡ last.udp_pkts)
sum_stats-flushes id ticks growing =
    let points = (flushes ticks (no_totals, [])).1 in
    let (a, b, c, d) = flushes-AddsUp ticks growing in
    (
      total (λ p. p.tcp_bytes) (refl, λ x y. refl) points ∙ a,
      total (λ p. p.tcp_conns) (refl, λ x y. refl) points ∙ b,
      total (λ p. p.udp_bytes) (refl, λ x y. refl) points ∙ c,
      total (λ p. p.udp_packets) (refl, λ x y. refl) points ∙ d,
    )
  where
    total :
        (field : Sums → ℕ) (additive : IsAdditive field) (ps : List StatPoint)
        → field (sums_of id (sum_stats (record_all (points_of id ps) [])))
          ≡ sum_of (λ p. field (sums_in p)) ps
    total field additive ps =
        sum_stats-record_all field id (points_of id ps) additive
        ∙ recorded_sum-points_of field id ps
