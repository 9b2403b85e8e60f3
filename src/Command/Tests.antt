-- ===== src/Command/Tests.antt =====
-- The theorems at concrete inputs.
use proxygo.Base.{ℕ, ◌+◌, ◌≡◌, refl, true, false, some, List, [], ◌∷◌}
use proxygo.Base.Sort.{total, IsDescending}
use proxygo.Base.Text.{codes}
use proxygo.Proxy.Manager.{Row}
use proxygo.Storage.{Store}
use proxygo.Storage.Stats.{Recorded, record_all}
use proxygo.Command.{Line, recorded, Report, traffic, admin_stats, admin_stats-record_all}

abbrev row : ℕ → List ℕ → Row
row id name = record {
  id = id;
  name = name;
  listen_port = 25565;
  backend_tcp = codes "host:1";
  forward_mode = codes "raw";
  udp_enabled = false;
  udp_port = 0;
  backend_udp = [];
  enabled = true;
}

abbrev points : List Recorded
points =
    record {
      backend_id = 1;
      hour = 0;
      sums = record { tcp_bytes = 10; udp_bytes = 0; tcp_conns = 1; udp_packets = 0 };
    }
    ∷ record {
      backend_id = 2;
      hour = 0;
      sums = record { tcp_bytes = 50; udp_bytes = 4; tcp_conns = 1; udp_packets = 2 };
    }
    ∷ []

abbrev store : Store
store = record {
  db = record {
    backends = (1, row 1 (codes "a")) ∷ (2, row 2 (codes "b")) ∷ [];
    sequence = 2;
    stats = record_all points [];
    audit = [];
    foreign_keys = false;
  };
  issued = 0;
}

admin_stats-record_all_example :
    (r : Report) × (admin_stats (λ n. true) store ≡ some r)
    × IsDescending traffic r.lines
    × ((g : Line → ℕ)
        → total g r.lines
          ≡ g (record { name = codes "a"; sums = recorded points 1 })
            + (g (record { name = codes "b"; sums = recorded points 2 }) + 0))
    × (total traffic r.lines ≡ r.tot_tcp + r.tot_udp)
    × (r.tot_tcp ≡ 60)
    × (r.tot_udp ≡ 4)
admin_stats-record_all_example = admin_stats-record_all (λ n. true) points store refl refl
