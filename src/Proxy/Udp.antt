-- ===== src/Proxy/Udp.antt =====
-- UDPForwarder of internal/proxy/udp.go: sessions by client address, one upstream socket for each.
-- A session is known by its socket; what its pointer leads to is in `seen` and `open_sockets`.
pub mod Sessions
pub mod Packets
pub mod Listening
mod Tests
use proxygo.Base.{
  ℕ, zero, suc, ◌+◌, ◌-◌, Bool, true, false, ◌&&◌, Option, none, some, List, [], ◌∷◌, ltb, leb,
  if◌then◌else◌,
}
use proxygo.Base.Int.{ℤ, pos, negsuc}
use proxygo.Base.Assoc.{MapKey, nat_eq, bytes_eq, lookup, assign, delete}
use proxygo.Metrics.{Metrics, inc_udp_packet, udp_packets_per_sec, udp_packets_per_min}

abbrev pub Key : Type 0
Key = List ℕ

abbrev pub Socket : Type 0
Socket = ℕ

abbrev pub Sessions : Type 0
Sessions = List (Key × Socket)

pub record Forwarder : Type 0 where
  pub sessions : Sessions
  -- `lastSeen` of each session, in unix nanoseconds.
  pub seen : List (Socket × ℕ)
  -- The upstream sockets that are not closed.
  pub open_sockets : List (Socket × Unit {0})
  pub bytes : ℕ
  pub packets : ℕ
  pub last_ddos : ℕ
  pub metrics : Metrics
  -- The reported attacks, the latest first.
  pub alerts : List (Key × ℕ)

pub record Limits : Type 0 where
  pub max_packets_per_sec : ℤ
  pub max_packets_per_min : ℤ

-- One datagram, with the answers that its handler gets: `banned` from the ban function, where
-- `none` is an error, and `socket` from ListenUDP, where `none` is an error.
pub record Packet : Type 0 where
  pub ip : Key
  pub client : Key
  pub size : ℕ
  pub now : ℕ
  pub now_nanos : ℕ
  pub banned : Option Bool
  pub socket : Option Socket
  pub written : Bool

abbrev pub is_banned : Option Bool → Bool
is_banned none = false
is_banned (some b) = b

-- `max > 0 && n > max`
abbrev pub over_limit : ℤ → ℕ → Bool
over_limit (pos m) n = ltb 0 m && ltb m n
over_limit (negsuc m) n = false

abbrev pub limited : Metrics → Metrics
limited m = record m { err_rate_limit = m.err_rate_limit + 1 }

unfoldable pub notify_ddos : Key → ℕ → Forwarder → Forwarder
notify_ddos ip now u =
    if ltb now (u.last_ddos + 60)
    then u
    else record u { last_ddos = now; metrics = limited u.metrics; alerts = (ip, now) ∷ u.alerts }

abbrev pub drop_found : Key → Forwarder → Option Socket → Forwarder
drop_found client u none = u
drop_found client u (some s) = record u {
  sessions = delete client u.sessions;
  open_sockets = delete s u.open_sockets;
}

unfoldable pub drop_session : Key → Forwarder → Forwarder
drop_session client u = drop_found client u (lookup client u.sessions)

abbrev pub create : Packet → Forwarder → Option Socket → Forwarder × Option Socket
create p u none =
    (record u { metrics = record u.metrics { err_dial = u.metrics.err_dial + 1 } }, none)
create p u (some s) = (
  record u {
    sessions = assign p.client s u.sessions;
    seen = assign s p.now_nanos u.seen;
    open_sockets = assign s tt u.open_sockets;
  },
  some s,
)

abbrev pub found_or_create : Packet → Forwarder → Option Socket → Forwarder × Option Socket
found_or_create p u none = create p u p.socket
found_or_create p u (some s) = (u, some s)

unfoldable pub get_or_create : Packet → Forwarder → Forwarder × Option Socket
get_or_create p u = found_or_create p u (lookup p.client u.sessions)

abbrev pub count_packet : Packet → Socket → Forwarder → Forwarder
count_packet p s u = record u {
  metrics = inc_udp_packet p.ip p.now u.metrics;
  seen = assign s p.now_nanos u.seen;
  packets = u.packets + 1;
  bytes = u.bytes + p.size;
}

abbrev pub write_failed : Forwarder → Forwarder
write_failed u = record u { metrics = record u.metrics { err_write = u.metrics.err_write + 1 } }

abbrev pub send : Packet → Forwarder × Option Socket → Forwarder
send p (u, none) = u
send p (u, some s) =
    if p.written
    then count_packet p s u
    else drop_session p.client (write_failed (count_packet p s u))

abbrev pub check_ddos : Limits → Packet → Forwarder → Forwarder
check_ddos l p u =
    if over_limit l.max_packets_per_min (udp_packets_per_min p.ip p.now u.metrics)
    then notify_ddos p.ip p.now u
    else u

unfoldable pub handle_packet : Limits → Packet → Forwarder → Forwarder
handle_packet l p u =
    if is_banned p.banned
    then record u { metrics = limited u.metrics }
    else if over_limit l.max_packets_per_sec (udp_packets_per_sec p.ip p.now u.metrics)
    then record u { metrics = limited u.metrics }
    else send p (get_or_create p (check_ddos l p u))

-- ---------- replies

pub data ReadError : Type 0 where
  timed_out other_error : ReadError

-- One turn of a read loop: the bytes that came, whether they could be written to the client, and
-- the error of the read.
pub record Reply : Type 0 where
  pub size : ℕ
  pub written : Bool
  pub error : Option ReadError
  pub now_nanos : ℕ

abbrev pub or_zero : Option ℕ → ℕ
or_zero none = 0
or_zero (some n) = n

-- `if timeout <= 0 { timeout = time.Minute }`
abbrev pub timeout_of : ℤ → ℕ
timeout_of (pos zero) = 60_000_000_000
timeout_of (pos (suc n)) = suc n
timeout_of (negsuc n) = 60_000_000_000

-- The forwarder, and whether the loop goes on.
abbrev pub after_read : ℕ → Key → Socket → ℕ → Option ReadError → Forwarder → Forwarder × Bool
after_read timeout client s now none u = (u, true)
after_read timeout client s now (some ReadError.timed_out) u =
    if ltb timeout (now - or_zero (lookup s u.seen))
    then (drop_session client u, false)
    else (u, true)
after_read timeout client s now (some ReadError.other_error) u = (drop_session client u, false)

-- A turn of the loop of the session with the socket `s`, made for `client`.
unfoldable pub read_loop_turn : ℤ → Key → Socket → Reply → Forwarder → Forwarder × Bool
read_loop_turn timeout client s r u =
    let idle = after_read (timeout_of timeout) client s r.now_nanos r.error in
    if ltb 0 r.size
    then if r.written then idle (record u { seen = assign s r.now_nanos u.seen }) else (u, false)
    else idle u

-- ---------- Close

abbrev pub close_sockets : Sessions → List (Socket × Unit {0}) → List (Socket × Unit {0})
close_sockets [] sockets = sockets
close_sockets ((k, s) ∷ m) sockets = close_sockets m (delete s sockets)

unfoldable pub close : Forwarder → Forwarder
close u = record u { sessions = []; open_sockets = close_sockets u.sessions u.open_sockets }
