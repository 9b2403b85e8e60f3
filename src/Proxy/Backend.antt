-- ===== src/Proxy/Backend.antt =====
-- Backend of internal/proxy/proxy.go: its counters, handleConn, closeBoth and the statistics flusher.
-- The accept loop calls handleConn once at a time; `now` is in unix seconds.
pub mod Handled
pub mod Served
pub mod Connections
pub mod Alerts
pub mod Stats
pub mod Lifecycle
pub mod Decimal
mod Tests
use proxygo.Base.{
  ℕ, zero, suc, ◌+◌, ◌-◌, ◌*◌, ◌/◌, ◌%◌, Bool, true, false, ◌&&◌, Option, none, some, List, [], ◌∷◌,
  ◌++◌, ltb, leb, ◌==◌, if◌then◌else◌, Result, ok, err, panics,
}
use proxygo.Base.Int.{ℤ, pos, negsuc}
use proxygo.Base.Assoc.{MapKey, nat_eq, assign, delete}
use proxygo.Base.Stream.{Stream}
use proxygo.Mcproto.{Digest}
pub use proxygo.Metrics.{connections_per_min}
use proxygo.Metrics.{Metrics, inc_connection, connections_per_min}
use proxygo.Proxy.Conn.{Key, Tracker, count, inc, dec}
use proxygo.Proxy.Forward.{Peer, Sockets, TcpAddr, ForwardMode, Error, forward_preamble}

-- A net.Conn is known by a number.
abbrev pub Socket : Type 0
Socket = ℕ

-- What the backend tells its Notifier.
pub data Alert : Type 0 where
  dial_failed : Alert
  ddos_detected : Key → ℕ → Alert

-- `metrics` and `tracker` are what the pointers of the backend lead to: those of the process, which all
-- backends share.
pub record Backend : Type 0 where
  pub metrics : Metrics
  pub tracker : Tracker
  pub active : ℕ
  pub conn_total : ℕ
  pub dial_fail : ℕ
  pub last_ddos : ℕ
  pub conns : List (Socket × Unit {0})
  -- The latest comes first.
  pub alerts : List Alert

-- The parts of the configuration and of the model that handleConn reads.
pub record Config : Type 0 where
  pub max_conns_per_ip : ℤ
  pub max_conns_per_min : ℤ
  pub mode : ForwardMode

-- One accepted socket, with the answers that its handler gets: `banned` from the storage, where
-- `none` is an error, and `dialed` from the dialer, where `none` is an error.
pub record Arrival : Type 0 where
  pub now : ℕ
  pub remote : Option TcpAddr
  pub local_addr : Option TcpAddr
  pub banned : Option Bool
  pub dialed : Option Peer
  pub stream : Stream
  pub client_socket : Socket
  pub backend_socket : Socket

-- How handleConn leaves the connection: closed, or pumped between the two sockets.
pub data Outcome : Type 0 where
  rejected dial_error preamble_error crashed : Outcome
  piping : Sockets → Outcome

abbrev pub is_banned : Option Bool → Bool
is_banned none = false
is_banned (some b) = b

-- `max > 0 && n >= max` and `max > 0 && n > max`
abbrev pub at_limit : ℤ → ℕ → Bool
at_limit (pos m) n = ltb 0 m && leb m n
at_limit (negsuc m) n = false

abbrev pub over_limit : ℤ → ℕ → Bool
over_limit (pos m) n = ltb 0 m && ltb m n
over_limit (negsuc m) n = false

abbrev pub limited : Metrics → Metrics
limited m = record m { err_rate_limit = m.err_rate_limit + 1 }

abbrev pub dial_alert_threshold : ℕ
dial_alert_threshold = 3

-- No other handler of the backend runs, so the compare-and-swap of `lastDDOS` succeeds.
unfoldable pub notify_ddos : Key → ℕ → Backend → Backend
notify_ddos ip now b = if ltb now (b.last_ddos + 60) then b else record b {
  last_ddos = now;
  metrics = limited b.metrics;
  alerts = ddos_detected ip now ∷ b.alerts;
}

unfoldable pub dial_failure : Backend → Backend
dial_failure b =
    let n = b.dial_fail + 1 in
    record b {
      metrics = record b.metrics { err_dial = b.metrics.err_dial + 1 };
      dial_fail = n;
      alerts = if n == dial_alert_threshold then dial_failed ∷ b.alerts else b.alerts;
    }

abbrev pub track_conn : Socket → List (Socket × Unit {0}) → List (Socket × Unit {0})
track_conn c conns = assign c tt conns

abbrev pub untrack_conn : Socket → List (Socket × Unit {0}) → List (Socket × Unit {0})
untrack_conn c conns = delete c conns

unfoldable pub register : Key → Arrival → Backend → Backend
register ip a b = record b {
  active = b.active + 1;
  conn_total = b.conn_total + 1;
  metrics = inc_connection ip a.now b.metrics;
  tracker = inc ip b.tracker;
  conns = track_conn a.backend_socket (track_conn a.client_socket b.conns);
}

abbrev pub after_preamble :
    Key → Arrival → Backend → Result Error (Unit {0}) × Sockets → Backend × Outcome
after_preamble ip a b (ok u, s) = (register ip a b, piping s)
after_preamble ip a b (err e, s) = (
  record b { metrics = record b.metrics { err_write = b.metrics.err_write + 1 } },
  preamble_error,
)
after_preamble ip a b (panics, s) = (b, crashed)

-- closeBoth, which `once` runs one time for each connection.
unfoldable pub close_both : Key → Socket → Socket → Backend → Backend
close_both ip client backend b = record b {
  active = b.active - 1;
  tracker = dec ip b.tracker;
  conns = untrack_conn backend (untrack_conn client b.conns);
}

unfoldable pub force_close_conns : Backend → Backend
force_close_conns b = record b { conns = [] }

module _ (md5 : List ℕ → Digest) (ip_string : List ℕ → List ℕ) (c : Config) where
  abbrev pub dial : TcpAddr → Key → Arrival → Backend → Option Peer → Backend × Outcome
  dial raddr ip a b none = (dial_failure b, dial_error)
  dial raddr ip a b (some peer) =
      after_preamble ip a (record b { dial_fail = 0 })
        (forward_preamble md5 ip_string c.mode raddr a.local_addr
          (record { client = a.stream; backend = peer }))

  abbrev pub check_ddos : Key → Arrival → Backend → Backend
  check_ddos ip a b =
      if over_limit c.max_conns_per_min (connections_per_min ip a.now b.metrics)
      then notify_ddos ip a.now b
      else b

  abbrev pub screen : TcpAddr → Key → Arrival → Backend → Backend × Outcome
  screen raddr ip a b =
      if is_banned a.banned
      then (record b { metrics = limited b.metrics }, rejected)
      else if at_limit c.max_conns_per_ip (count ip b.tracker)
      then (record b { metrics = limited b.metrics }, rejected)
      else dial raddr ip a (check_ddos ip a b) a.dialed

  abbrev pub handle_remote : Arrival → Backend → Option TcpAddr → Backend × Outcome
  handle_remote a b none = (b, rejected)
  handle_remote a b (some raddr) = screen raddr (ip_string raddr.ip) a b

  unfoldable pub handle_conn : Arrival → Backend → Backend × Outcome
  handle_conn a b = handle_remote a b a.remote

-- ---------- statsFlusher

-- What Stats returns.
pub record Totals : Type 0 where
  pub tcp_in : ℕ
  pub tcp_out : ℕ
  pub udp_bytes : ℕ
  pub udp_pkts : ℕ
  pub conns : ℕ

abbrev pub no_totals : Totals
no_totals = record { tcp_in = 0; tcp_out = 0; udp_bytes = 0; udp_pkts = 0; conns = 0 }

pub record StatPoint : Type 0 where
  pub hour : ℕ
  pub tcp_bytes : ℕ
  pub tcp_conns : ℕ
  pub udp_bytes : ℕ
  pub udp_packets : ℕ

-- The counters only grow, so no difference is below 0.
abbrev pub delta : Totals → Totals → Totals
delta last t = record {
  tcp_in = t.tcp_in - last.tcp_in;
  tcp_out = t.tcp_out - last.tcp_out;
  udp_bytes = t.udp_bytes - last.udp_bytes;
  udp_pkts = t.udp_pkts - last.udp_pkts;
  conns = t.conns - last.conns;
}

abbrev pub is_zero : Totals → Bool
is_zero d = d.tcp_in == 0 && d.tcp_out == 0 && d.udp_bytes == 0 && d.udp_pkts == 0 && d.conns == 0

abbrev pub point_of : ℕ → Totals → StatPoint
point_of now d = record {
  hour = now / 3600 * 3600;
  tcp_bytes = d.tcp_in + d.tcp_out;
  tcp_conns = d.conns;
  udp_bytes = d.udp_bytes;
  udp_packets = d.udp_pkts;
}

-- One tick: the new snapshot, and the recorded points with the latest first.
unfoldable pub flush : ℕ → Totals → Totals × List StatPoint → Totals × List StatPoint
flush now t (last, recorded) =
    let d = delta last t in if is_zero d then (last, recorded) else (t, point_of now d ∷ recorded)

-- ---------- itoa

-- The loop on fuel, with the digits so far; `n` rounds are enough.
unfoldable pub itoa_loop : ℕ → ℕ → List ℕ → List ℕ
itoa_loop zero n b = b
itoa_loop (suc fuel) n b =
    let more = itoa_loop fuel (n / 10) ((b'0' + n % 10) ∷ b) in if n == 0 then b else more

unfoldable pub itoa : ℕ → List ℕ
itoa n = if n == 0 then b'0' ∷ [] else itoa_loop n n []
