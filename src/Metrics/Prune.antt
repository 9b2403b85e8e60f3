-- ===== src/Metrics/Prune.antt =====
-- Pruning keeps every sum over a window that it does not reach into.
use proxygo.Base.{
  ℕ, ◌+◌, ◌-◌, ◌≤◌, ◌≡◌, refl, arith, true, none, List, [], ◌∷◌, bytes_beq_iff, is_empty,
}
use proxygo.Base.Assoc.{nat_eq, bytes_eq, lookup, delete_if, IsMap, IsMap-assign}
use proxygo.Metrics.{
  Key, Kind, conn, udp, Seconds, Tracker, old_second, prune, total, sum, inc, Metrics,
  empty_metrics, janitor_tick, connections_per_min, udp_packets_per_min, udp_packets_per_sec,
  inc_connection, inc_udp_packet,
}
use proxygo.Metrics.Window.{Event, replay, record_kind}

-- What is deleted lies outside the window.
total-delete_if :
    (kind : Kind) (now seconds cutoff : ℕ) (b : Seconds)
    → cutoff + seconds ≤ now
    → total kind now seconds (delete_if (old_second cutoff) b) ≡ total kind now seconds b
unfolding total delete_if
total-delete_if kind now seconds cutoff [] h = refl
total-delete_if kind now seconds cutoff ((s, slots) ∷ b) h =
    ground (arith, total-delete_if kind now seconds cutoff b h)

-- An address whose seconds are all deleted counts nothing.
total_none :
    (kind : Kind) (now seconds : ℕ) (b : Seconds) → is_empty b ≡ true → total kind now seconds b ≡ 0
unfolding total
total_none kind now seconds [] h = refl
total_none kind now seconds (x ∷ b) h = cc

lookup_pruned :
    (cutoff : ℕ) (ip : Key) (t : Tracker) → lookup ip t ≡ none → lookup ip (prune cutoff t) ≡ none
unfolding lookup prune
lookup_pruned cutoff ip [] h = refl
lookup_pruned cutoff ip ((j, b) ∷ t) h = ground (arith, lookup_pruned cutoff ip t)

sum-prune :
    (ip : Key) (kind : Kind) (seconds now cutoff : ℕ) (t : Tracker)
    → IsMap t
    → cutoff + seconds ≤ now
    → sum ip kind seconds now (prune cutoff t) ≡ sum ip kind seconds now t
unfolding sum prune lookup
sum-prune ip kind seconds now cutoff [] unique h = refl
sum-prune ip kind seconds now cutoff ((j, b) ∷ t) (fresh, unique) h = ground (
  arith,
  bytes_beq_iff j ip,
  fresh,
  lookup_pruned cutoff j t fresh,
  total-delete_if kind now seconds cutoff b h,
  total_none kind now seconds (delete_if (old_second cutoff) b),
  sum-prune ip kind seconds now cutoff t unique h,
)

record_kind-IsMap :
    (kind : Kind) (ip : Key) (second : ℕ) (m : Metrics)
    → IsMap m.per_ip
    → IsMap (record_kind kind ip second m).per_ip
unfolding inc_connection inc_udp_packet inc
record_kind-IsMap conn ip second m unique = IsMap-assign ip _ m.per_ip unique
record_kind-IsMap udp ip second m unique = IsMap-assign ip _ m.per_ip unique

replay-IsMap : (es : List Event) (m : Metrics) → IsMap m.per_ip → IsMap (replay es m).per_ip
unfolding replay
replay-IsMap [] m unique = unique
replay-IsMap (e ∷ es) m unique =
    replay-IsMap es (record_kind e.kind e.ip e.second m)
      (record_kind-IsMap e.kind e.ip e.second m unique)

-- A tick of the janitor at `ticked`, 90 seconds or more after the epoch, changes none of the three
-- rates that are asked then or later.
pub rates-janitor_tick :
    (ip : Key) (ticked now : ℕ) (es : List Event)
    → 90 ≤ ticked
    → ticked ≤ now
    → let m = replay es empty_metrics in
      let pruned = janitor_tick ticked m in
      (connections_per_min ip now pruned ≡ connections_per_min ip now m)
      × (udp_packets_per_min ip now pruned ≡ udp_packets_per_min ip now m)
      × (udp_packets_per_sec ip now pruned ≡ udp_packets_per_sec ip now m)
unfolding janitor_tick connections_per_min udp_packets_per_min udp_packets_per_sec
rates-janitor_tick ip ticked now es started later =
    let m = replay es empty_metrics in
    let unique = replay-IsMap es empty_metrics tt in
    (
      sum-prune ip conn 60 now (ticked - 90) m.per_ip unique (omega arith),
      sum-prune ip udp 60 now (ticked - 90) m.per_ip unique (omega arith),
      sum-prune ip udp 1 now (ticked - 90) m.per_ip unique (omega arith),
    )
