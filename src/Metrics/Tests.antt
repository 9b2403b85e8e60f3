-- ===== src/Metrics/Tests.antt =====
-- Concrete runs, and the theorems at concrete inputs.
use proxygo.Base.{ℕ, ◌≡◌, refl, [], ◌∷◌}
use proxygo.Base.Assoc.{lookup, assign}
use proxygo.Base.Text.{codes}
use proxygo.Metrics.{
  Key, conn, udp, empty_metrics, connections_per_min, udp_packets_per_min, udp_packets_per_sec,
  inc_udp_packet, inc, count_event, sum, total,
}
use proxygo.Metrics.Window.{Event, replay, occurrences, rates-replay}

abbrev client : Key
client = codes "10.0.0.9"

abbrev packet_at : ℕ → Event
packet_at s = record { ip = client; kind = udp; second = s }

-- A packet of the second before counts for the current one.
previous_second : udp_packets_per_sec client 101 (replay (packet_at 100 ∷ []) empty_metrics) ≡ 1
unfolding udp_packets_per_sec replay inc_udp_packet inc count_event sum total lookup assign
previous_second = refl

rates-replay_example :
    let m = replay (packet_at 100 ∷ packet_at 160 ∷ []) empty_metrics in
    (connections_per_min client 160 m
      ≡ occurrences client conn 60 160 (packet_at 100 ∷ packet_at 160 ∷ []))
    × (udp_packets_per_min client 160 m
        ≡ occurrences client udp 60 160 (packet_at 100 ∷ packet_at 160 ∷ []))
    × (udp_packets_per_sec client 160 m
        ≡ occurrences client udp 1 160 (packet_at 100 ∷ packet_at 160 ∷ []))
rates-replay_example = rates-replay client 160 (packet_at 100 ∷ packet_at 160 ∷ [])
