-- ===== src/Proxy/Udp/Listening.antt =====
-- run of internal/proxy/udp.go: the loop that reads datagrams from the listening socket.
use proxygo.Base.{
  ℕ, ◌+◌, ◌≤◌, ◌≡◌, refl, ◌∙◌, arith, Bool, true, false, Option, none, some, List, [], ◌∷◌, ltb,
  if◌then◌else◌, if_elim, Option-cases, inl, inr, ◌⊎◌,
}
use proxygo.Base.Assoc.{bytes_eq, lookup}
use proxygo.Metrics.{inc_udp_packet, udp_packets_per_sec}
use proxygo.Proxy.Udp.{
  Key, Socket, Forwarder, Limits, Packet, drop_session, create, get_or_create, count_packet,
  write_failed, send, check_ddos, notify_ddos, handle_packet, is_banned, over_limit,
}
use proxygo.Proxy.Udp.Packets.{Uncounted, Counted, Admitted, handle_packet-counts}

-- What ReadFromUDP answers: a datagram, an error, or an error after Close.
pub data Heard : Type 0 where
  datagram : Packet → Heard
  read_failed closed : Heard

abbrev pub count_error : Forwarder → Forwarder
count_error u = record u {
  metrics = record u.metrics { errors_total = u.metrics.errors_total + 1 };
}

-- An empty datagram is passed over.
unfoldable pub handle_datagram : Limits → Packet → Forwarder → Forwarder
handle_datagram l p u = if ltb 0 p.size then handle_packet l p u else u

unfoldable pub run : Limits → List Heard → Forwarder → Forwarder
run l [] u = u
run l (datagram p ∷ rest) u = run l rest (handle_datagram l p u)
run l (read_failed ∷ rest) u = run l rest (count_error u)
run l (closed ∷ rest) u = u

-- The failed reads until Close, and the datagrams with any bytes.
abbrev pub failures : List Heard → ℕ
failures [] = 0
failures (datagram p ∷ rest) = failures rest
failures (read_failed ∷ rest) = 1 + failures rest
failures (closed ∷ rest) = 0

abbrev pub datagrams : List Heard → ℕ
datagrams [] = 0
datagrams (datagram p ∷ rest) = (if ltb 0 p.size then 1 else 0) + datagrams rest
datagrams (read_failed ∷ rest) = datagrams rest
datagrams (closed ∷ rest) = 0

-- ---------- the errors that a datagram leaves alone

abbrev SameErrors : Forwarder → Forwarder → Type 0
SameErrors u v = v.metrics.errors_total ≡ u.metrics.errors_total

drop_session-SameErrors : (client : Key) (u : Forwarder) → SameErrors u (drop_session client u)
unfolding drop_session
drop_session-SameErrors client u = elim (Option-cases (lookup client u.sessions)) [
  | inl absent ↦ rw absent refl
  | inr (s, found) ↦ rw found refl
]

create-SameErrors : (p : Packet) (u : Forwarder) (s : Option Socket) → SameErrors u (create p u s).0
create-SameErrors p u none = refl
create-SameErrors p u (some s) = refl

get_or_create-SameErrors : (p : Packet) (u : Forwarder) → SameErrors u (get_or_create p u).0
unfolding get_or_create
get_or_create-SameErrors p u = elim (Option-cases (lookup p.client u.sessions)) [
  | inl absent ↦ rw absent (create-SameErrors p u p.socket)
  | inr (s, found) ↦ rw found refl
]

check_ddos-SameErrors : (l : Limits) (p : Packet) (u : Forwarder) → SameErrors u (check_ddos l p u)
unfolding notify_ddos
check_ddos-SameErrors l p u = ground arith

send-SameErrors : (p : Packet) (u : Forwarder) (s : Option Socket) → SameErrors u (send p (u, s))
unfolding inc_udp_packet
send-SameErrors p u none = refl
send-SameErrors p u (some s) =
    if_elim (SameErrors u) p.written _ _ (λ written. refl)
      (λ failed. drop_session-SameErrors p.client (write_failed (count_packet p s u)))

handle_packet-SameErrors :
    (l : Limits) (p : Packet) (u : Forwarder) → SameErrors u (handle_packet l p u)
unfolding handle_packet
handle_packet-SameErrors l p u =
    let checked = check_ddos l p u in
    let made = get_or_create p checked in
    if_elim (SameErrors u) (is_banned p.banned) _ _ (λ banned. refl)
      (λ clean.
        if_elim (SameErrors u)
          (over_limit l.max_packets_per_sec (udp_packets_per_sec p.ip p.now u.metrics)) _ _
          (λ over. refl)
          (λ under.
            send-SameErrors p made.0 made.1
            ∙ get_or_create-SameErrors p checked
            ∙ check_ddos-SameErrors l p u))

-- ---------- what the loop counts

-- So many errors more, at most so many packets more, and the same number of packets in the forwarder
-- as in the global counters.
abbrev pub RunCounts : ℕ → ℕ → Forwarder → Forwarder → Type 0
RunCounts errors most u v =
    (v.metrics.errors_total ≡ u.metrics.errors_total + errors)
    × (u.packets ≤ v.packets)
    × (v.packets ≤ u.packets + most)
    × (v.packets + u.metrics.udp_packets_total ≡ u.packets + v.metrics.udp_packets_total)

one_more-RunCounts :
    (l : Limits) (p : Packet) (u v : Forwarder)
    → SameErrors u v
    → Uncounted u v ⊎ (Counted p u v × Admitted l p u)
    → RunCounts 0 1 u v
one_more-RunCounts l p u v errors (inl (a, b, c)) =
    (omega (arith, errors), omega (arith, a), omega (arith, a), omega (arith, a, c))
one_more-RunCounts l p u v errors (inr ((a, b, c), admitted)) =
    (omega (arith, errors), omega (arith, a), omega (arith, a), omega (arith, a, c))

handle_datagram-RunCounts :
    (l : Limits) (p : Packet) (u : Forwarder)
    → RunCounts 0 (if ltb 0 p.size then 1 else 0) u (handle_datagram l p u)
unfolding handle_datagram
handle_datagram-RunCounts l p u = either (ltb 0 p.size) (
    one_more-RunCounts l p u (handle_packet l p u) (handle_packet-SameErrors l p u)
      (handle_packet-counts l p u))
  where
    either :
        (b : Bool)
        → RunCounts 0 1 u (handle_packet l p u)
        → RunCounts 0 (if b then 1 else 0) u (if b then handle_packet l p u else u)
    either true more = more
    either false more = (omega arith, omega arith, omega arith, omega arith)

RunCounts-trans :
    (e f g m n k : ℕ) (u v w : Forwarder)
    → g ≡ e + f
    → k ≡ m + n
    → RunCounts e m u v
    → RunCounts f n v w
    → RunCounts g k u w
RunCounts-trans e f g m n k u v w errors most (a, b, c, d) (a', b', c', d') =
    (omega arith, omega arith, omega arith, omega arith)

-- Whatever the listening socket answers, `run` counts as errors exactly the reads that fail before
-- Close; it counts at most one packet for each datagram with any bytes that is read before Close, and
-- the forwarder counts as many of them as the global counters.
pub run-RunCounts :
    (l : Limits) (answers : List Heard) (u : Forwarder)
    → RunCounts (failures answers) (datagrams answers) u (run l answers u)
unfolding run
run-RunCounts l [] u = (omega arith, omega arith, omega arith, omega arith)
run-RunCounts l (datagram p ∷ rest) u =
    RunCounts-trans 0 (failures rest) (failures rest) (if ltb 0 p.size then 1 else 0)
      (datagrams rest) (datagrams (datagram p ∷ rest)) u (handle_datagram l p u)
      (run l rest (handle_datagram l p u)) (omega arith) refl (handle_datagram-RunCounts l p u)
      (run-RunCounts l rest (handle_datagram l p u))
run-RunCounts l (read_failed ∷ rest) u =
    RunCounts-trans 1 (failures rest) (1 + failures rest) 0 (datagrams rest) (datagrams rest) u
      (count_error u) (run l rest (count_error u)) refl (omega arith)
      (omega arith, omega arith, omega arith, omega arith) (run-RunCounts l rest (count_error u))
run-RunCounts l (closed ∷ rest) u = (omega arith, omega arith, omega arith, omega arith)
