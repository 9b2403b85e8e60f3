-- ===== src/Proxy/Udp/Sessions.antt =====
-- Every open upstream socket belongs to exactly one session, until Close.
use proxygo.Base.{
  ℕ, ◌-◌, ◌≡◌, sym, ap, ◌∙◌, arith, Bool, true, false, Option, none, some, List, [], ◌∷◌,
  bytes_beq_iff, ltb, if◌then◌else◌, Bool-cases, Option-cases, inl, inr, ==_iff, ◌==◌,
}
use proxygo.Base.Int.{ℤ}
use proxygo.Base.Assoc.{
  nat_eq, bytes_eq, lookup, assign, delete, lookup-assign, lookup-assign_self, lookup-delete,
}
use proxygo.Proxy.Udp.{
  Key, Socket, Sessions, Forwarder, Limits, Packet, Reply, ReadError, drop_session, create,
  get_or_create, count_packet, write_failed, send, check_ddos, notify_ddos, handle_packet,
  after_read, read_loop_turn, close_sockets, close, is_banned, over_limit, timeout_of, or_zero,
  udp_packets_per_sec,
}

pub record Owned (sessions : Sessions) (sockets : List (Socket × Unit {0})) : Type 0 where
  pub is_open : (k : Key) (s : Socket) → lookup k sessions ≡ some s → lookup s sockets ≡ some tt
  pub single :
      (j k : Key) (s : Socket) → lookup j sessions ≡ some s → lookup k sessions ≡ some s → j ≡ k
  pub no_leak : (s : Socket) → lookup s sockets ≡ some tt → (k : Key) × (lookup k sessions ≡ some s)

-- The sessions of a forwarder and its open sockets belong together.
abbrev pub NoLeak : Forwarder → Type 0
NoLeak u = Owned u.sessions u.open_sockets

create-Owned :
    (client : Key) (new : Socket) (m : Sessions) (sockets : List (Socket × Unit {0}))
    → lookup client m ≡ none
    → lookup new sockets ≡ none
    → Owned m sockets
    → Owned (assign client new m) (assign new tt sockets)
create-Owned client new m sockets absent unused o = record {
  is_open = λ k s h. ground (
    arith,
    lookup-assign client k new m,
    lookup-assign new s tt sockets,
    o.is_open k s,
    ==_iff new s,
  );
  single = λ j k s hj hk. ground (
    arith,
    lookup-assign client j new m,
    lookup-assign client k new m,
    o.single j k s,
    o.is_open j s,
    o.is_open k s,
    bytes_beq_iff client j,
    bytes_beq_iff client k,
    unused,
    absent,
  );
  no_leak = λ s h. elim (Bool-cases (new == s)) [
    | inl same ↦ (client, lookup-assign_self client new m ∙ ap some ((==_iff new s).0 same))
    | inr other ↦
        let (k, held) = o.no_leak s (rw other at (sym (lookup-assign new s tt sockets) ∙ h)) in
        (k, ground (arith, lookup-assign client k new m, bytes_beq_iff client k, absent, held))
  ];
}

drop-Owned :
    (client : Key) (old : Socket) (m : Sessions) (sockets : List (Socket × Unit {0}))
    → lookup client m ≡ some old
    → Owned m sockets
    → Owned (delete client m) (delete old sockets)
drop-Owned client old m sockets found o = record {
  is_open = λ k s h. ground (
    arith,
    lookup-delete client k m,
    lookup-delete old s sockets,
    o.is_open k s,
    o.single client k s,
    ==_iff old s,
    bytes_beq_iff client k,
  );
  single = λ j k s hj hk.
      ground (arith, lookup-delete client j m, lookup-delete client k m, o.single j k s);
  no_leak = λ s h. elim (Bool-cases (old == s)) [
    | inl same ↦ absurd (cc (rw same at (sym (lookup-delete old s sockets) ∙ h)))
    | inr other ↦
        let (k, held) = o.no_leak s (rw other at (sym (lookup-delete old s sockets) ∙ h)) in
        (
          k,
          ground
              (arith, lookup-delete client k m, bytes_beq_iff client k, ==_iff old s, found, held),
        )
  ];
}

drop_session-NoLeak : (client : Key) (u : Forwarder) → NoLeak u → NoLeak (drop_session client u)
unfolding drop_session
drop_session-NoLeak client u o = elim (Option-cases (lookup client u.sessions)) [
  | inl absent ↦ rw absent o
  | inr (s, found) ↦ rw found (drop-Owned client s u.sessions u.open_sockets found o)
]

-- The system never hands out a socket that is open.
abbrev pub Unused : Option Socket → Forwarder → Type 0
Unused none u = Unit {0}
Unused (some s) u = lookup s u.open_sockets ≡ none

create-NoLeak :
    (p : Packet) (u : Forwarder) (s : Option Socket)
    → lookup p.client u.sessions ≡ none
    → Unused s u
    → NoLeak u
    → NoLeak (create p u s).0
create-NoLeak p u none absent unused o = o
create-NoLeak p u (some s) absent unused o =
    create-Owned p.client s u.sessions u.open_sockets absent unused o

get_or_create-NoLeak :
    (p : Packet) (u : Forwarder) → Unused p.socket u → NoLeak u → NoLeak (get_or_create p u).0
unfolding get_or_create
get_or_create-NoLeak p u unused o = elim (Option-cases (lookup p.client u.sessions)) [
  | inl absent ↦ rw absent (create-NoLeak p u p.socket absent unused o)
  | inr (s, found) ↦ rw found o
]

send-NoLeak : (p : Packet) (u : Forwarder) (s : Option Socket) → NoLeak u → NoLeak (send p (u, s))
send-NoLeak p u none o = o
send-NoLeak p u (some s) o = elim (Bool-cases p.written) [
  | inl written ↦ rw written o
  | inr failed ↦ rw failed (drop_session-NoLeak p.client (write_failed (count_packet p s u)) o)
]

abbrev SameSockets : Forwarder → Forwarder → Type 0
SameSockets u v = (v.sessions ≡ u.sessions) × (v.open_sockets ≡ u.open_sockets)

check_ddos-SameSockets :
    (l : Limits) (p : Packet) (u : Forwarder) → SameSockets u (check_ddos l p u)
unfolding notify_ddos
check_ddos-SameSockets l p u = ground arith

transport-NoLeak :
    (u v : Forwarder) (p : Packet)
    → SameSockets u v
    → (NoLeak u × Unused p.socket u)
    → NoLeak v × Unused p.socket v
transport-NoLeak u v p (a, b) (o, unused) = (rw (a, b) o, moved p.socket unused)
  where
    moved : (s : Option Socket) → Unused s u → Unused s v
    moved none h = tt
    moved (some s) h = rw b h

handle_packet-NoLeak :
    (l : Limits) (p : Packet) (u : Forwarder)
    → Unused p.socket u
    → NoLeak u
    → NoLeak (handle_packet l p u)
unfolding handle_packet
handle_packet-NoLeak l p u unused o =
    let checked = check_ddos l p u in
    let moved = transport-NoLeak u checked p (check_ddos-SameSockets l p u) (o, unused) in
    let made = get_or_create p checked in
    let sent = send-NoLeak p made.0 made.1 (get_or_create-NoLeak p checked moved.1 moved.0) in
    either (is_banned p.banned) _ _ o (
      either (over_limit l.max_packets_per_sec (udp_packets_per_sec p.ip p.now u.metrics)) _ _ o
        sent)
  where
    either : (b : Bool) (x y : Forwarder) → NoLeak x → NoLeak y → NoLeak (if b then x else y)
    either true x y kx ky = kx
    either false x y kx ky = ky

after_read-NoLeak :
    (timeout : ℕ) (client : Key) (s : Socket) (now : ℕ) (e : Option ReadError) (u : Forwarder)
    → NoLeak u
    → NoLeak (after_read timeout client s now e u).0
after_read-NoLeak timeout client s now none u o = o
after_read-NoLeak timeout client s now (some ReadError.timed_out) u o =
    elim (Bool-cases (ltb timeout (now - or_zero (lookup s u.seen)))) [
      | inl idle ↦ rw idle (drop_session-NoLeak client u o)
      | inr recent ↦ rw recent o
    ]
after_read-NoLeak timeout client s now (some ReadError.other_error) u o =
    drop_session-NoLeak client u o

read_loop_turn-NoLeak :
    (timeout : ℤ) (client : Key) (s : Socket) (r : Reply) (u : Forwarder)
    → NoLeak u
    → NoLeak (read_loop_turn timeout client s r u).0
unfolding read_loop_turn
read_loop_turn-NoLeak timeout client s r u o = elim (Bool-cases (ltb 0 r.size)) [
  | inl some_bytes ↦ rw some_bytes (elim (Bool-cases r.written) [
    | inl written ↦ rw written (
        after_read-NoLeak (timeout_of timeout) client s r.now_nanos r.error
          (record u { seen = assign s r.now_nanos u.seen }) o)
    | inr failed ↦ rw failed o
  ])
  | inr no_bytes ↦
      rw no_bytes (after_read-NoLeak (timeout_of timeout) client s r.now_nanos r.error u o)
]

-- A datagram arrives, or a read loop makes a turn, also that of a session that is gone.
pub data Step : Forwarder → Forwarder → Type 0 where
  receives :
      (l : Limits) (p : Packet) (u : Forwarder) → Unused p.socket u → Step u (handle_packet l p u)
  replies :
      (timeout : ℤ) (client : Key) (s : Socket) (r : Reply) (u : Forwarder)
      → Step u (read_loop_turn timeout client s r u).0

pub data Run : Forwarder → Forwarder → Type 0 where
  stay : {u : Forwarder} → Run u u
  step : {u v w : Forwarder} → Run u v → Step v w → Run u w

Step-NoLeak : {u v : Forwarder} → Step u v → NoLeak u → NoLeak v
Step-NoLeak (receives l p u unused) o = handle_packet-NoLeak l p u unused o
Step-NoLeak (replies timeout client s r u) o = read_loop_turn-NoLeak timeout client s r u o

-- Through every sequence of datagrams and turns of read loops, in any order, it stays true that
-- the open upstream sockets are exactly those of the sessions and no two sessions share one, if
-- the system hands out no socket that is open.
pub Run-NoLeak : {u v : Forwarder} → Run u v → NoLeak u → NoLeak v
Run-NoLeak stay o = o
Run-NoLeak (step run last) o = Step-NoLeak last (Run-NoLeak run o)

lookup-close_sockets :
    (m : Sessions) (sockets : List (Socket × Unit {0})) (s : Socket)
    → lookup s (close_sockets m sockets) ≡ some tt
    → (lookup s sockets ≡ some tt) × ((k : Key) → lookup k m ≡ some s → ⊥)
unfolding lookup
lookup-close_sockets [] sockets s h = (h, λ k e. cc)
lookup-close_sockets ((j, t) ∷ m) sockets s h =
    let (kept, others) = lookup-close_sockets m (delete t sockets) s h in
    (
      ground (arith, lookup-delete t s sockets, kept),
      λ k e. ground (arith, lookup-delete t s sockets, kept, others k, e, ==_iff t s),
    )

-- Where the open sockets are exactly those of the sessions, Close closes every one of them.
pub close-open_sockets :
    (u : Forwarder) (s : Socket) → NoLeak u → lookup s (close u).open_sockets ≡ none
unfolding close
close-open_sockets u s o =
    elim (Option-cases (lookup s (close_sockets u.sessions u.open_sockets))) [
      | inl shut ↦ shut
      | inr (tt, still) ↦
          let (was_open, unowned) = lookup-close_sockets u.sessions u.open_sockets s still in
          let (k, held) = o.no_leak s was_open in absurd (unowned k held)
    ]
