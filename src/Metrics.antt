-- ===== src/Metrics.antt =====
-- internal/metrics/metrics.go: the global counters and the per-IP events of each second.
-- Times are unix seconds, given to each call; the counters do not wrap.
pub mod Window
pub mod Prune
mod Tests
use proxygo.Base.{
  ℕ, suc, ◌+◌, ◌-◌, Bool, true, false, Option, none, some, List, [], ◌∷◌, leb, ltb, if◌then◌else◌,
  is_empty,
}
use proxygo.Base.Assoc.{MapKey, nat_eq, bytes_eq, lookup, assign, delete_if}

abbrev pub Key : Type 0
Key = List ℕ

-- perKind
pub data Kind : Type 0 where
  conn udp : Kind

-- `[kindCount]*atomic.Int64`
pub record Slots : Type 0 where
  pub conns : ℕ
  pub udps : ℕ

abbrev pub slot : Kind → Slots → ℕ
slot conn s = s.conns
slot udp s = s.udps

abbrev pub add_one : Kind → Slots → Slots
add_one conn s = record s { conns = s.conns + 1 }
add_one udp s = record s { udps = s.udps + 1 }

-- An ipBucket: the slots of each second.
abbrev pub Seconds : Type 0
Seconds = List (ℕ × Slots)

abbrev pub Tracker : Type 0
Tracker = List (Key × Seconds)

pub record Metrics : Type 0 where
  pub connections_total : ℕ
  pub udp_packets_total : ℕ
  pub errors_total : ℕ
  pub err_dial : ℕ
  pub err_write : ℕ
  pub err_rate_limit : ℕ
  pub per_ip : Tracker

abbrev pub empty_metrics : Metrics
empty_metrics = record {
  connections_total = 0;
  udp_packets_total = 0;
  errors_total = 0;
  err_dial = 0;
  err_write = 0;
  err_rate_limit = 0;
  per_ip = [];
}

abbrev pub or_no_seconds : Option Seconds → Seconds
or_no_seconds none = []
or_no_seconds (some b) = b

abbrev pub or_no_slots : Option Slots → Slots
or_no_slots none = record { conns = 0; udps = 0 }
or_no_slots (some s) = s

unfoldable pub count_event : Kind → ℕ → Seconds → Seconds
count_event kind second b = assign second (add_one kind (or_no_slots (lookup second b))) b

unfoldable pub inc : Key → Kind → ℕ → Tracker → Tracker
inc ip kind second t = assign ip (count_event kind second (or_no_seconds (lookup ip t))) t

-- `now-s <= int64(seconds)`; a second that is ahead of the clock counts too.
abbrev pub in_window : ℕ → ℕ → ℕ → Bool
in_window now seconds s = leb (now - s) seconds

unfoldable pub total : Kind → ℕ → ℕ → Seconds → ℕ
total kind now seconds [] = 0
total kind now seconds ((s, slots) ∷ b) =
    (if in_window now seconds s then slot kind slots else 0) + total kind now seconds b

unfoldable pub sum : Key → Kind → ℕ → ℕ → Tracker → ℕ
sum ip kind seconds now t = total kind now seconds (or_no_seconds (lookup ip t))

abbrev pub old_second : ℕ → ℕ → Slots → Bool
old_second cutoff s slots = ltb s cutoff

unfoldable pub prune : ℕ → Tracker → Tracker
prune cutoff [] = []
prune cutoff ((ip, b) ∷ t) =
    let kept = delete_if (old_second cutoff) b in
    let rest = prune cutoff t in if is_empty kept then rest else (ip, kept) ∷ rest

unfoldable pub inc_connection : Key → ℕ → Metrics → Metrics
inc_connection ip second m = record m {
  connections_total = m.connections_total + 1;
  per_ip = inc ip conn second m.per_ip;
}

unfoldable pub inc_udp_packet : Key → ℕ → Metrics → Metrics
inc_udp_packet ip second m = record m {
  udp_packets_total = m.udp_packets_total + 1;
  per_ip = inc ip udp second m.per_ip;
}

unfoldable pub connections_per_min : Key → ℕ → Metrics → ℕ
connections_per_min ip now m = sum ip conn 60 now m.per_ip

unfoldable pub udp_packets_per_min : Key → ℕ → Metrics → ℕ
udp_packets_per_min ip now m = sum ip udp 60 now m.per_ip

unfoldable pub udp_packets_per_sec : Key → ℕ → Metrics → ℕ
udp_packets_per_sec ip now m = sum ip udp 1 now m.per_ip

-- The janitor's tick.
unfoldable pub janitor_tick : ℕ → Metrics → Metrics
janitor_tick now m = record m { per_ip = prune (now - 90) m.per_ip }
