-- ===== src/Proxy/Backend/Alerts.antt =====
-- The alerts of a backend.
use proxygo.Base.{
  ℕ, ◌+◌, ◌≤◌, ◌≡◌, arith, none, some, Option, List, [], ◌∷◌, Bool-cases, inl, inr, Result, ok, err,
  panics,
}
use proxygo.Mcproto.{Digest}
use proxygo.Proxy.Conn.{Key, count}
use proxygo.Proxy.Forward.{Sockets, TcpAddr, Peer, Error}
use proxygo.Proxy.Backend.{
  Alert, dial_failed, ddos_detected, Backend, Config, Arrival, is_banned, at_limit, over_limit,
  connections_per_min, notify_ddos, dial_failure, register, after_preamble, dial, check_ddos,
  screen, handle_remote, handle_conn,
}

-- When the latest attack was reported.
abbrev pub latest : List Alert → ℕ
latest [] = 0
latest (dial_failed ∷ alerts) = latest alerts
latest (ddos_detected ip now ∷ alerts) = now

-- Reported attacks are at least a minute apart.
abbrev pub Spaced : List Alert → Type 0
Spaced [] = Unit {0}
Spaced (dial_failed ∷ alerts) = Spaced alerts
Spaced (ddos_detected ip now ∷ alerts) = (latest alerts + 60 ≤ now) × Spaced alerts

abbrev pub IsSpaced : Backend → Type 0
IsSpaced b = (b.last_ddos ≡ latest b.alerts) × Spaced b.alerts

notify_ddos-IsSpaced :
    (ip : Key) (now : ℕ) (b : Backend) → IsSpaced b → IsSpaced (notify_ddos ip now b)
unfolding notify_ddos
notify_ddos-IsSpaced ip now b (last, spaced) = ground arith

dial_failure-IsSpaced : (b : Backend) → IsSpaced b → IsSpaced (dial_failure b)
unfolding dial_failure
dial_failure-IsSpaced b (last, spaced) = ground arith

after_preamble-IsSpaced :
    (ip : Key) (a : Arrival) (b : Backend) (r : Result Error (Unit {0}) × Sockets)
    → IsSpaced b
    → IsSpaced (after_preamble ip a b r).0
unfolding register
after_preamble-IsSpaced ip a b (ok u, s) spaced = spaced
after_preamble-IsSpaced ip a b (err e, s) spaced = spaced
after_preamble-IsSpaced ip a b (panics, s) spaced = spaced

module _ (md5 : List ℕ → Digest) (ip_string : List ℕ → List ℕ) (c : Config) where
  dial-IsSpaced :
      (raddr : TcpAddr) (ip : Key) (a : Arrival) (b : Backend) (peer : Option Peer)
      → IsSpaced b
      → IsSpaced (dial md5 ip_string c raddr ip a b peer).0
  dial-IsSpaced raddr ip a b none spaced = dial_failure-IsSpaced b spaced
  dial-IsSpaced raddr ip a b (some peer) spaced =
      after_preamble-IsSpaced ip a (record b { dial_fail = 0 }) _ spaced

  check_ddos-IsSpaced :
      (ip : Key) (a : Arrival) (b : Backend)
      → IsSpaced b
      → IsSpaced (check_ddos md5 ip_string c ip a b)
  check_ddos-IsSpaced ip a b spaced =
      elim (Bool-cases (over_limit c.max_conns_per_min (connections_per_min ip a.now b.metrics))) [
        | inl over ↦ rw over (notify_ddos-IsSpaced ip a.now b spaced)
        | inr under ↦ rw under spaced
      ]

  screen-IsSpaced :
      (raddr : TcpAddr) (ip : Key) (a : Arrival) (b : Backend)
      → IsSpaced b
      → IsSpaced (screen md5 ip_string c raddr ip a b).0
  screen-IsSpaced raddr ip a b spaced = elim (Bool-cases (is_banned a.banned)) [
    | inl banned ↦ rw banned spaced
    | inr clean ↦ rw clean (elim (Bool-cases (at_limit c.max_conns_per_ip (count ip b.tracker))) [
      | inl full ↦ rw full spaced
      | inr free ↦ rw free (
          dial-IsSpaced raddr ip a (check_ddos md5 ip_string c ip a b) a.dialed
            (check_ddos-IsSpaced ip a b spaced))
    ])
  ]

  handle_remote-IsSpaced :
      (a : Arrival) (b : Backend) (remote : Option TcpAddr)
      → IsSpaced b
      → IsSpaced (handle_remote md5 ip_string c a b remote).0
  handle_remote-IsSpaced a b none spaced = spaced
  handle_remote-IsSpaced a b (some raddr) spaced =
      screen-IsSpaced raddr (ip_string raddr.ip) a b spaced

  -- Whatever handleConn does with a connection, if the attacks that were reported are at least a
  -- minute apart and `lastDDOS` is the time of the latest, both are still true afterwards.
  pub handle_conn-IsSpaced :
      (a : Arrival) (b : Backend) → IsSpaced b → IsSpaced (handle_conn md5 ip_string c a b).0
  unfolding handle_conn
  handle_conn-IsSpaced a b spaced = handle_remote-IsSpaced a b a.remote spaced
