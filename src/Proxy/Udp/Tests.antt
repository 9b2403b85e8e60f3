-- ===== src/Proxy/Udp/Tests.antt =====
-- Concrete runs, and the theorems at concrete inputs.
use proxygo.Base.{◌≡◌, refl, arith, Bool, true, false, none, some, List, [], ◌∷◌}
use proxygo.Base.Int.{pos}
use proxygo.Base.Assoc.{nat_eq, bytes_eq, lookup, assign, delete}
use proxygo.Base.Text.{codes}
use proxygo.Metrics.{
  empty_metrics, inc_udp_packet, udp_packets_per_sec, udp_packets_per_min, sum, total, inc,
  count_event,
}
use proxygo.Proxy.Udp.{
  Forwarder, Limits, Packet, Reply, ReadError, handle_packet, read_loop_turn, close, get_or_create,
  drop_session, Key,
}
use proxygo.Proxy.Udp.Sessions.{NoLeak, stay, step, receives, Run-NoLeak, close-open_sockets}
use proxygo.Proxy.Udp.Packets.{read_loop_turn_stale}
use proxygo.Proxy.Udp.Listening.{
  Heard, datagram, read_failed, closed, run, RunCounts, handle_datagram, datagrams, run-RunCounts,
}

abbrev quiet : Forwarder
quiet = record {
  sessions = [];
  seen = [];
  open_sockets = [];
  bytes = 0;
  packets = 0;
  last_ddos = 0;
  metrics = empty_metrics;
  alerts = [];
}

abbrev client : Key
client = codes "10.0.0.9:5000"

abbrev packet : Bool → Packet
packet written = record {
  ip = codes "10.0.0.9";
  client = client;
  size = 30;
  now = 100;
  now_nanos = 100_000;
  banned = some false;
  socket = some 7;
  written = written;
}

abbrev limits : Limits
limits = record { max_packets_per_sec = pos 1; max_packets_per_min = pos 0 }

quiet-NoLeak : NoLeak quiet
unfolding lookup
quiet-NoLeak = record { is_open = λ k s h. cc; single = λ j k s h1 h2. cc; no_leak = λ s h. cc }

abbrev one_session : Forwarder
one_session = handle_packet limits (packet true) quiet

one_session_made :
    (one_session.packets ≡ 1) × (one_session.bytes ≡ 30) × (one_session.sessions ≡ (client, 7) ∷ [])
unfolding handle_packet get_or_create udp_packets_per_sec udp_packets_per_min sum total
    inc_udp_packet inc count_event lookup assign
one_session_made = (refl, refl, refl)

-- A write that fails leaves no session, and the packet is counted.
failed_write :
    let u = handle_packet limits (packet false) quiet in
    (u.packets ≡ 1) × (u.sessions ≡ []) × (u.open_sockets ≡ []) × (u.metrics.err_write ≡ 1)
unfolding handle_packet get_or_create udp_packets_per_sec udp_packets_per_min sum total
    inc_udp_packet inc count_event lookup assign drop_session delete
failed_write = (refl, refl, refl, refl)

unused : lookup 7 quiet.open_sockets ≡ none
unfolding lookup
unused = refl

Run-NoLeak_example : NoLeak one_session
Run-NoLeak_example =
    Run-NoLeak (step stay (receives limits (packet true) quiet unused)) quiet-NoLeak

close-open_sockets_example : lookup 7 (close one_session).open_sockets ≡ none
close-open_sockets_example = close-open_sockets one_session 7 Run-NoLeak_example

-- A read that fails, an empty datagram and one with bytes; what comes after Close is not read.
abbrev answers : List Heard
answers =
    read_failed
    ∷ datagram (record (packet true) { size = 0 })
    ∷ datagram (packet true)
    ∷ closed
    ∷ datagram (packet true)
    ∷ []

one_of_each :
    ((run limits answers quiet).packets ≡ 1)
    × ((run limits answers quiet).metrics.errors_total ≡ 1)
    × (datagrams answers ≡ 1)
unfolding run handle_datagram handle_packet get_or_create udp_packets_per_sec udp_packets_per_min
    sum total inc_udp_packet inc count_event lookup assign
one_of_each = (refl, refl, refl)

run-RunCounts_example : RunCounts 1 1 quiet (run limits answers quiet)
run-RunCounts_example = run-RunCounts limits answers quiet

abbrev renewed : Forwarder
renewed = record quiet { sessions = (client, 8) ∷ []; open_sockets = (8, tt) ∷ [] }

read_loop_turn_stale_example :
    let r : Reply = record {
      size = 0;
      written = false;
      error = some ReadError.other_error;
      now_nanos = 9;
    } in
    let v = (read_loop_turn (pos 0) client 7 r renewed).0 in
    (lookup client v.sessions ≡ none) × (lookup 8 v.open_sockets ≡ none)
unfolding lookup
read_loop_turn_stale_example =
    read_loop_turn_stale (pos 0) client 7 8 9 renewed (λ e. absurd (omega arith)) refl
