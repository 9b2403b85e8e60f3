-- ===== src/Metrics/Window.antt =====
-- The sums are counts of the events in a window.
use proxygo.Base.{
  ℕ, ◌+◌, ◌≡◌, refl, arith, Bool, true, false, ◌&&◌, List, [], ◌∷◌, if◌then◌else◌, bytes_beq,
  bytes_beq_iff,
}
use proxygo.Base.Assoc.{nat_eq, bytes_eq, lookup, assign, lookup-assign}
use proxygo.Metrics.{
  Key, Kind, conn, udp, Slots, slot, add_one, Seconds, Tracker, or_no_seconds, count_event, inc,
  in_window, total, sum, Metrics, empty_metrics, inc_connection, inc_udp_packet,
  connections_per_min, udp_packets_per_min, udp_packets_per_sec,
}

abbrev pub same_kind : Kind → Kind → Bool
same_kind conn conn = true
same_kind udp udp = true
same_kind conn udp = false
same_kind udp conn = false

abbrev pub one_if : Bool → ℕ
one_if b = if b then 1 else 0

slot-add_one :
    (kind counted : Kind) (s : Slots)
    → slot counted (add_one kind s) ≡ slot counted s + one_if (same_kind kind counted)
slot-add_one conn conn s = refl
slot-add_one conn udp s = omega arith
slot-add_one udp conn s = omega arith
slot-add_one udp udp s = refl

slot_zero : (counted : Kind) → slot counted (record { conns = 0; udps = 0 }) ≡ 0
slot_zero conn = refl
slot_zero udp = refl

total-count_event :
    (kind counted : Kind) (second now seconds : ℕ) (b : Seconds)
    → total counted now seconds (count_event kind second b)
      ≡ total counted now seconds b
        + one_if (same_kind kind counted && in_window now seconds second)
unfolding total count_event lookup assign
total-count_event kind counted second now seconds [] =
    ground (arith, slot-add_one kind counted (record { conns = 0; udps = 0 }), slot_zero counted)
total-count_event kind counted second now seconds ((s, slots) ∷ b) =
    ground
      (arith, slot-add_one kind counted slots, total-count_event kind counted second now seconds b)

-- One event changes a sum exactly if it is of the same address and kind, in the window.
sum-inc :
    (ip asked : Key) (kind counted : Kind) (second seconds now : ℕ) (t : Tracker)
    → sum asked counted seconds now (inc ip kind second t)
      ≡ sum asked counted seconds now t
        + one_if (bytes_beq ip asked && same_kind kind counted && in_window now seconds second)
unfolding sum inc
sum-inc ip asked kind counted second seconds now t = ground (
  arith,
  lookup-assign ip asked (count_event kind second (or_no_seconds (lookup ip t))) t,
  bytes_beq_iff ip asked,
  total-count_event kind counted second now seconds (or_no_seconds (lookup ip t)),
)

-- What happened to a Metrics, in order: an address opened a connection or sent a packet.
pub record Event : Type 0 where
  pub ip : Key
  pub kind : Kind
  pub second : ℕ

abbrev pub record_kind : Kind → Key → ℕ → Metrics → Metrics
record_kind conn = inc_connection
record_kind udp = inc_udp_packet

unfoldable pub replay : List Event → Metrics → Metrics
replay [] m = m
replay (e ∷ es) m = replay es (record_kind e.kind e.ip e.second m)

-- How many events are of an address and a kind, at most `seconds` seconds before `now`.
unfoldable pub occurrences : Key → Kind → ℕ → ℕ → List Event → ℕ
occurrences ip kind seconds now [] = 0
occurrences ip kind seconds now (e ∷ es) =
    one_if (bytes_beq e.ip ip && same_kind e.kind kind && in_window now seconds e.second)
    + occurrences ip kind seconds now es

sum-record_kind :
    (kind counted : Kind) (ip asked : Key) (second seconds now : ℕ) (m : Metrics)
    → sum asked counted seconds now (record_kind kind ip second m).per_ip
      ≡ sum asked counted seconds now m.per_ip
        + one_if (bytes_beq ip asked && same_kind kind counted && in_window now seconds second)
unfolding inc_connection inc_udp_packet
sum-record_kind conn counted ip asked second seconds now m =
    sum-inc ip asked conn counted second seconds now m.per_ip
sum-record_kind udp counted ip asked second seconds now m =
    sum-inc ip asked udp counted second seconds now m.per_ip

pub sum-replay :
    (ip : Key) (kind : Kind) (seconds now : ℕ) (es : List Event) (m : Metrics)
    → sum ip kind seconds now (replay es m).per_ip
      ≡ sum ip kind seconds now m.per_ip + occurrences ip kind seconds now es
unfolding replay occurrences
sum-replay ip kind seconds now [] m = omega arith
sum-replay ip kind seconds now (e ∷ es) m = omega (
  arith,
  sum-replay ip kind seconds now es (record_kind e.kind e.ip e.second m),
  sum-record_kind e.kind kind e.ip ip e.second seconds now m,
)

sum_empty : (ip : Key) (kind : Kind) (seconds now : ℕ) → sum ip kind seconds now [] ≡ 0
unfolding sum total lookup
sum_empty ip kind seconds now = refl

-- The three rates are counts of the events of the address so far: of the connections and of the
-- packets at most 60 seconds old, and of the packets at most one second old, which takes in the
-- second before the current one.
pub rates-replay :
    (ip : Key) (now : ℕ) (es : List Event)
    → let m = replay es empty_metrics in
      (connections_per_min ip now m ≡ occurrences ip conn 60 now es)
      × (udp_packets_per_min ip now m ≡ occurrences ip udp 60 now es)
      × (udp_packets_per_sec ip now m ≡ occurrences ip udp 1 now es)
unfolding connections_per_min udp_packets_per_min udp_packets_per_sec
rates-replay ip now es = (
  omega (arith, sum-replay ip conn 60 now es empty_metrics, sum_empty ip conn 60 now),
  omega (arith, sum-replay ip udp 60 now es empty_metrics, sum_empty ip udp 60 now),
  omega (arith, sum-replay ip udp 1 now es empty_metrics, sum_empty ip udp 1 now),
)
