-- ===== src/Proxy/Backend/Handled.antt =====
-- What handleConn makes of the counters, branch by branch.
use proxygo.Base.{
  ℕ, ◌+◌, ◌≡◌, refl, ap, false, Option, none, some, List, ltb, Bool-cases, inl, inr, Result, ok,
  err, panics,
}
use proxygo.Base.Assoc.{nat_eq, bytes_eq}
use proxygo.Mcproto.{Digest}
use proxygo.Proxy.Conn.{Key, count, inc}
use proxygo.Proxy.Forward.{Sockets, TcpAddr, Peer}
use proxygo.Proxy.Backend.{
  Backend, Config, Arrival, Outcome, rejected, piping, at_limit, notify_ddos, dial_failure,
  register, track_conn, is_banned, after_preamble, dial, check_ddos, screen, connections_per_min,
  over_limit,
}

-- The counts of connections and the tracked sockets are the same.
abbrev pub Same : Backend → Backend → Type 0
Same b b' = (b'.active ≡ b.active) × (b'.tracker ≡ b.tracker) × (b'.conns ≡ b.conns)

-- What handleConn makes of the counters: one more connection if it ends in the pumps, else nothing.
abbrev pub Counted : Key → Arrival → Backend → Backend × Outcome → Type 0
Counted ip a b (b', piping s) =
    (b'.active ≡ b.active + 1)
    × (b'.tracker ≡ inc ip b.tracker)
    × (b'.conns ≡ track_conn a.backend_socket (track_conn a.client_socket b.conns))
Counted ip a b (b', rejected) = Same b b'
Counted ip a b (b', Outcome.dial_error) = Same b b'
Counted ip a b (b', Outcome.preamble_error) = Same b b'
Counted ip a b (b', Outcome.crashed) = Same b b'

notify-Same : (ip : Key) (now : ℕ) (b : Backend) → Same b (notify_ddos ip now b)
unfolding notify_ddos
notify-Same ip now b = elim (Bool-cases (ltb now (b.last_ddos + 60))) [
  | inl soon ↦ rw soon (refl, refl, refl)
  | inr late ↦ rw late (refl, refl, refl)
]

after_preamble-Counted :
    (ip : Key) (a : Arrival) (b b0 : Backend) (r : Result _ (Unit {0}) × Sockets)
    → Same b0 b
    → Counted ip a b0 (after_preamble ip a b r)
unfolding register
after_preamble-Counted ip a b b0 (ok u, s) (x, y, z) = (
  ap (λ n. n + 1) x,
  ap (inc ip) y,
  ap (λ k. track_conn a.backend_socket (track_conn a.client_socket k)) z,
)
after_preamble-Counted ip a b b0 (err e, s) same = same
after_preamble-Counted ip a b b0 (panics, s) same = same

module _ (md5 : List ℕ → Digest) (ip_string : List ℕ → List ℕ) (c : Config) where
  dial-Counted :
      (raddr : TcpAddr) (ip : Key) (a : Arrival) (b b0 : Backend) (peer : Option Peer)
      → Same b0 b
      → Counted ip a b0 (dial md5 ip_string c raddr ip a b peer)
  unfolding dial_failure
  dial-Counted raddr ip a b b0 none same = same
  dial-Counted raddr ip a b b0 (some peer) same =
      after_preamble-Counted ip a (record b { dial_fail = 0 }) b0 _ same

  check_ddos-Same :
      (ip : Key) (a : Arrival) (b : Backend) → Same b (check_ddos md5 ip_string c ip a b)
  check_ddos-Same ip a b =
      elim (Bool-cases (over_limit c.max_conns_per_min (connections_per_min ip a.now b.metrics))) [
        | inl over ↦ rw over (notify-Same ip a.now b)
        | inr under ↦ rw under (refl, refl, refl)
      ]

  -- A connection that is served was below the limit of its address.
  abbrev pub Below : Key → Backend → Outcome → Type 0
  Below ip b (piping s) = at_limit c.max_conns_per_ip (count ip b.tracker) ≡ false
  Below ip b rejected = Unit {0}
  Below ip b Outcome.dial_error = Unit {0}
  Below ip b Outcome.preamble_error = Unit {0}
  Below ip b Outcome.crashed = Unit {0}

  Below-any :
      (ip : Key) (b : Backend) (o : Outcome)
      → at_limit c.max_conns_per_ip (count ip b.tracker) ≡ false
      → Below ip b o
  Below-any ip b (piping s) h = h
  Below-any ip b rejected h = tt
  Below-any ip b Outcome.dial_error h = tt
  Below-any ip b Outcome.preamble_error h = tt
  Below-any ip b Outcome.crashed h = tt

  pub screen-Counted :
      (raddr : TcpAddr) (ip : Key) (a : Arrival) (b : Backend)
      → Counted ip a b (screen md5 ip_string c raddr ip a b)
        × Below ip b (screen md5 ip_string c raddr ip a b).1
  screen-Counted raddr ip a b = elim (Bool-cases (is_banned a.banned)) [
    | inl banned ↦ rw banned ((refl, refl, refl), tt)
    | inr clean ↦ rw clean (elim (Bool-cases (at_limit c.max_conns_per_ip (count ip b.tracker))) [
      | inl full ↦ rw full ((refl, refl, refl), tt)
      | inr free ↦ rw free (
        dial-Counted raddr ip a (check_ddos md5 ip_string c ip a b) b a.dialed
            (check_ddos-Same ip a b),
        Below-any ip b _ free,
      )
    ])
  ]
