-- ===== src/Proxy/Backend/Tests.antt =====
-- Concrete runs, and the theorems at concrete inputs.
use proxygo.Base.{
  ℕ, ◌+◌, ◌%◌, ◌≡◌, refl, arith, Bool, true, false, none, some, List, [], ◌∷◌, length,
}
use proxygo.Base.Int.{pos}
use proxygo.Base.Assoc.{lookup, assign}
use proxygo.Base.Stream.{stream, timeout}
use proxygo.Mcproto.{Digest}
use proxygo.Metrics.{
  empty_metrics, inc_connection, connections_per_min, inc, count_event, sum, total,
}
use proxygo.Proxy.Conn.{count}
use proxygo.Proxy.Forward.{raw, forward_preamble, TcpAddr}
use proxygo.Proxy.Backend.{
  Backend, Config, Arrival, dial_failed, handle_conn, dial_failure, itoa, itoa_loop, no_totals,
  flush, register,
}
use proxygo.Proxy.Backend.Served.{World}
use proxygo.Proxy.Backend.Connections.{
  tracked, others_serve, Step-IsSound, IsSound, Run-IsSound, arrive, stay, step, arrives,
}
use proxygo.Proxy.Backend.Stats.{Tick, Growing, flushes, sum_of}
use proxygo.Proxy.Backend.Lifecycle.{
  Service, Opening, IsIdle, restart, restart-IsIdle, accept_loop, conn, accept_failed,
  listener_closed,
}
use proxygo.Proxy.Backend.Lifecycle.Lives.{flush_lives, over_lives, flush_lives-AddsUp}
use proxygo.Proxy.Backend.Alerts.{IsSpaced, handle_conn-IsSpaced}

abbrev length_digest : List ℕ → Digest
length_digest m i = (length m + i) % 256

abbrev same_text : List ℕ → List ℕ
same_text ip = ip

abbrev player : TcpAddr
player = record { ip = 10 ∷ 0 ∷ 0 ∷ 9 ∷ []; port = 50000 }

abbrev one_each : Config
one_each = record { max_conns_per_ip = pos 1; max_conns_per_min = pos 1; mode = raw }

abbrev idle : Backend
idle = record {
  metrics = empty_metrics;
  tracker = [];
  active = 0;
  conn_total = 0;
  dial_fail = 0;
  last_ddos = 0;
  conns = [];
  alerts = [];
}

abbrev arrival : ℕ → Bool → Arrival
arrival now reachable = record {
  now = now;
  remote = some player;
  local_addr = none;
  banned = some false;
  dialed = (elim reachable [ true ↦ some (record { delivered = []; writes = [] }) | false ↦ none ]);
  stream = stream [] timeout;
  client_socket = now;
  backend_socket = now + 1;
}

-- Three failed dials in a row raise one alert, the fourth raises none.
abbrev failed : ℕ → Backend → Backend
failed now b = (handle_conn length_digest same_text one_each (arrival now false) b).0

one_dial_alert : (failed 4 (failed 3 (failed 2 (failed 1 idle)))).alerts ≡ dial_failed ∷ []
unfolding handle_conn count lookup connections_per_min sum total dial_failure
one_dial_alert = refl

abbrev first : World
first =
    arrive length_digest same_text one_each (arrival 100 true)
      (record { state = idle; serving = []; elsewhere = [] })

abbrev second : World
second = arrive length_digest same_text one_each (arrival 200 true) first

-- The second connection of the same address is over the limit.
second_rejected :
    (first.state.active ≡ 1) × (second.state.active ≡ 1) × (second.state.metrics.err_rate_limit ≡ 1)
unfolding handle_conn count lookup connections_per_min sum total forward_preamble register
    inc_connection inc count_event assign proxygo.Proxy.Conn.inc
second_rejected = (refl, refl, refl)

idle-IsSound :
    IsSound length_digest same_text one_each (record { state = idle; serving = []; elsewhere = [] })
unfolding count lookup
idle-IsSound = record {
  active_counts = refl;
  tracker_counts = λ ip. refl;
  within_limit = λ ip m max_eq. omega arith;
  tracked_in_use = λ s h. cc;
}

Run-IsSound_example : IsSound length_digest same_text one_each second
Run-IsSound_example =
    Run-IsSound length_digest same_text one_each
      (step (step stay (arrives (arrival 100 true) _)) (arrives (arrival 200 true) first))
      idle-IsSound

abbrev ticks : List Tick
ticks =
    record {
      now = 3700;
      totals = record { tcp_in = 5; tcp_out = 7; udp_bytes = 0; udp_pkts = 0; conns = 1 };
    }
    ∷ record {
      now = 3760;
      totals = record { tcp_in = 5; tcp_out = 7; udp_bytes = 0; udp_pkts = 0; conns = 1 };
    }
    ∷ record {
      now = 7300;
      totals = record { tcp_in = 6; tcp_out = 7; udp_bytes = 2; udp_pkts = 1; conns = 1 };
    }
    ∷ []

two_points : length (flushes ticks (no_totals, [])).1 ≡ 2
unfolding flushes flush
two_points = refl

itoa_port : itoa 80 ≡ b'8' ∷ b'0' ∷ []
unfolding itoa itoa_loop
itoa_port = refl

handle_conn-IsSpaced_example :
    IsSpaced (handle_conn length_digest same_text one_each (arrival 100 true) idle).0
handle_conn-IsSpaced_example =
    handle_conn-IsSpaced length_digest same_text one_each (arrival 100 true) idle (refl, tt)

first-IsSound : IsSound length_digest same_text one_each first
first-IsSound =
    Run-IsSound length_digest same_text one_each (step stay (arrives (arrival 100 true) _))
      idle-IsSound

-- Two answers of the listener, and what comes after it is closed is not served.
accepted_once :
    (accept_loop length_digest same_text one_each
      (accept_failed ∷ conn (arrival 100 true) ∷ listener_closed ∷ conn (arrival 900 true) ∷ [])
      (record { state = idle; serving = []; elsewhere = [] })).state.active
    ≡ 1
unfolding accept_loop handle_conn count lookup connections_per_min sum total forward_preamble
    register inc_connection inc count_event assign proxygo.Proxy.Conn.inc
accepted_once = refl

abbrev serving_one : Service
serving_one = record {
  world = first;
  udp_enabled = true;
  listening = true;
  udp_open = true;
  flushers = 1;
}

abbrev port_taken : Opening
port_taken = record { tcp = false; udp = true }

-- Another backend serves a connection of the same address before the restart.
abbrev with_other : Service
with_other = record serving_one {
  world =
      tracked (proxygo.Proxy.Conn.inc player.ip first.state.tracker)
        (record { ip = player.ip; client = 800; backend = 801 } ∷ first.elsewhere) first;
}

with_other-IsSound : IsSound length_digest same_text one_each with_other.world
with_other-IsSound =
    Step-IsSound length_digest same_text one_each
      (others_serve (record { ip = player.ip; client = 800; backend = 801 }) first) first-IsSound

restart-IsIdle_example :
    let r = restart port_taken with_other in
    IsIdle with_other.world.elsewhere r.0.world.state
    × (r.0.world.serving ≡ [])
    × (r.0.world.elsewhere ≡ with_other.world.elsewhere)
    × (r.0.flushers ≡ 1)
    × (r.0.listening ≡ false)
    × (r.1 ≡ false)
restart-IsIdle_example =
    restart-IsIdle length_digest same_text one_each port_taken with_other with_other-IsSound

ticks-Growing : Growing no_totals ticks
ticks-Growing = ground arith

-- Two lives with the same ticks.
abbrev two_lives : List (List Tick)
two_lives = ticks ∷ ticks ∷ []

recorded_twice : over_lives (λ t. t.conns) two_lives ≡ 2
recorded_twice = refl

flush_lives-AddsUp_example :
    let points = flush_lives two_lives [] in
    (sum_of (λ p. p.tcp_bytes) points ≡ 26)
    × (sum_of (λ p. p.tcp_conns) points ≡ 2)
    × (sum_of (λ p. p.udp_bytes) points ≡ 4)
    × (sum_of (λ p. p.udp_packets) points ≡ 2)
flush_lives-AddsUp_example = flush_lives-AddsUp two_lives (ticks-Growing, (ticks-Growing, tt))
