-- ===== src/Proxy/Udp/Packets.antt =====
-- What handlePacket counts and lets through, and read loops of sessions that are gone.
use proxygo.Base.{
  ℕ, suc, ◌+◌, ◌≤◌, ◌≡◌, ◌≢◌, refl, ap, ◌∙◌, arith, Bool, true, false, Option, none, some,
  if◌then◌else◌, Bool-cases, Option-cases, inl, inr, ◌⊎◌,
}
use proxygo.Base.Int.{ℤ, pos, negsuc}
use proxygo.Base.Assoc.{nat_eq, bytes_eq, lookup, lookup-delete_self}
use proxygo.Metrics.{inc_udp_packet, udp_packets_per_sec}
use proxygo.Proxy.Udp.{
  Key, Socket, Forwarder, Limits, Packet, Reply, ReadError, drop_session, create, get_or_create,
  count_packet, write_failed, send, check_ddos, notify_ddos, handle_packet, read_loop_turn,
  is_banned, over_limit,
}

-- No packet more, in the forwarder and in the global counters.
abbrev pub Uncounted : Forwarder → Forwarder → Type 0
Uncounted u v =
    (v.packets ≡ u.packets)
    × (v.bytes ≡ u.bytes)
    × (v.metrics.udp_packets_total ≡ u.metrics.udp_packets_total)

-- One packet more, with all its bytes.
abbrev pub Counted : Packet → Forwarder → Forwarder → Type 0
Counted p u v =
    (v.packets ≡ u.packets + 1)
    × (v.bytes ≡ u.bytes + p.size)
    × (v.metrics.udp_packets_total ≡ u.metrics.udp_packets_total + 1)

-- The client is not banned, and is not above the limit of packets per second, where there is one.
abbrev pub Admitted : Limits → Packet → Forwarder → Type 0
Admitted l p u =
    (is_banned p.banned ≡ false)
    × ((m : ℕ)
        → l.max_packets_per_sec ≡ pos (suc m)
        → udp_packets_per_sec p.ip p.now u.metrics ≤ suc m)

drop_session-Uncounted : (client : Key) (u : Forwarder) → Uncounted u (drop_session client u)
unfolding drop_session
drop_session-Uncounted client u = elim (Option-cases (lookup client u.sessions)) [
  | inl absent ↦ rw absent (refl, refl, refl)
  | inr (s, found) ↦ rw found (refl, refl, refl)
]

create-Uncounted : (p : Packet) (u : Forwarder) (s : Option Socket) → Uncounted u (create p u s).0
create-Uncounted p u none = (refl, refl, refl)
create-Uncounted p u (some s) = (refl, refl, refl)

get_or_create-Uncounted : (p : Packet) (u : Forwarder) → Uncounted u (get_or_create p u).0
unfolding get_or_create
get_or_create-Uncounted p u = elim (Option-cases (lookup p.client u.sessions)) [
  | inl absent ↦ rw absent (create-Uncounted p u p.socket)
  | inr (s, found) ↦ rw found (refl, refl, refl)
]

check_ddos-Uncounted : (l : Limits) (p : Packet) (u : Forwarder) → Uncounted u (check_ddos l p u)
unfolding notify_ddos
check_ddos-Uncounted l p u = ground arith

send-counts :
    (p : Packet) (u v : Forwarder) (s : Option Socket)
    → Uncounted u v
    → Uncounted u (send p (v, s)) ⊎ Counted p u (send p (v, s))
unfolding inc_udp_packet
send-counts p u v none same = inl same
send-counts p u v (some s) (x, y, z) = inr (elim (Bool-cases p.written) [
  | inl written ↦ rw written (ap (λ n. n + 1) x, ap (λ n. n + p.size) y, ap (λ n. n + 1) z)
  | inr failed ↦
      let (a, b, c) = drop_session-Uncounted p.client (write_failed (count_packet p s v)) in
      rw failed (a ∙ ap (λ n. n + 1) x, b ∙ ap (λ n. n + p.size) y, c ∙ ap (λ n. n + 1) z)
])

within : (max : ℤ) (n m : ℕ) → over_limit max n ≡ false → max ≡ pos (suc m) → n ≤ suc m
within (pos x) n m under e = ground arith
within (negsuc x) n m under e = cc

abbrev pub CountedOrNot : Limits → Packet → Forwarder → Forwarder → Type 0
CountedOrNot l p u v = Uncounted u v ⊎ (Counted p u v × Admitted l p u)

screened :
    (l : Limits) (p : Packet) (u x y : Forwarder) (banned over : Bool)
    → Uncounted u x
    → (banned ≡ false → over ≡ false → CountedOrNot l p u y)
    → CountedOrNot l p u (if banned then x else if over then x else y)
screened l p u x y true over dropped sent = inl dropped
screened l p u x y false true dropped sent = inl dropped
screened l p u x y false false dropped sent = sent refl refl

admit :
    (l : Limits) (p : Packet) (u v : Forwarder)
    → Admitted l p u
    → Uncounted u v ⊎ Counted p u v
    → CountedOrNot l p u v
admit l p u v admitted (inl same) = inl same
admit l p u v admitted (inr more) = inr (more, admitted)

Uncounted-trans : (u v w : Forwarder) → Uncounted u v → Uncounted v w → Uncounted u w
Uncounted-trans u v w (a, b, c) (x, y, z) = (x ∙ a, y ∙ b, z ∙ c)

-- A datagram is counted as one packet with all its bytes, or not at all; it is counted only if the
-- client is not banned and its packets of the last second do not exceed the limit.
pub handle_packet-counts :
    (l : Limits) (p : Packet) (u : Forwarder)
    → let v = handle_packet l p u in Uncounted u v ⊎ (Counted p u v × Admitted l p u)
unfolding handle_packet
handle_packet-counts l p u =
    let checked = check_ddos l p u in
    let made = get_or_create p checked in
    let same =
      Uncounted-trans u checked made.0 (check_ddos-Uncounted l p u)
        (get_or_create-Uncounted p checked) in
    screened l p u _ (send p made) (is_banned p.banned)
      (over_limit l.max_packets_per_sec (udp_packets_per_sec p.ip p.now u.metrics))
      (refl, refl, refl)
      (λ clean under.
        admit l p u (send p made)
          (
            clean,
            λ m. within l.max_packets_per_sec (udp_packets_per_sec p.ip p.now u.metrics) m under,
          )
          (send-counts p u made.0 made.1 same))

-- A failed read of a session that is gone takes away the newer session of the same client and
-- closes its socket: the read loop of the old socket drops by the client's address.
pub read_loop_turn_stale :
    (timeout : ℤ) (client : Key) (old new : Socket) (now : ℕ) (u : Forwarder)
    → old ≢ new
    → lookup client u.sessions ≡ some new
    → let r : Reply = record {
      size = 0;
      written = false;
      error = some ReadError.other_error;
      now_nanos = now;
    } in
      let v = (read_loop_turn timeout client old r u).0 in
      (lookup client v.sessions ≡ none) × (lookup new v.open_sockets ≡ none)
unfolding read_loop_turn drop_session
read_loop_turn_stale timeout client old new now u different found =
    simp found (lookup-delete_self client u.sessions, lookup-delete_self new u.open_sockets)
