-- ===== src/Proxy/Backend/Served.antt =====
-- The connections that a backend serves, and the sockets that it tracks for them.
use proxygo.Base.{
  ℕ, ◌+◌, ◌≡◌, ◌≢◌, ◌⊎◌, ◌==◌, ==_iff, arith, some, List, [], ◌∷◌, ◌++◌, bytes_beq, Bool-cases, inl,
  inr,
}
use proxygo.Base.Assoc.{nat_eq, bytes_eq, lookup, lookup-assign, lookup-delete}
use proxygo.Proxy.Conn.{Key}
use proxygo.Proxy.Conn.Tracker.{one_if}
use proxygo.Proxy.Backend.{Socket, Backend, Arrival, track_conn, untrack_conn}

-- A connection whose two pumps run.
pub record Live : Type 0 where
  pub ip : Key
  pub client : Socket
  pub backend : Socket

-- A backend with its connections. Its tracker is the one that all backends of the process share:
-- `elsewhere` are the connections of the other backends, which count in it too.
pub record World : Type 0 where
  pub state : Backend
  pub serving : List Live
  pub elsewhere : List Live

abbrev pub live_of : Key → Arrival → Live
live_of ip a = record { ip = ip; client = a.client_socket; backend = a.backend_socket }

-- How many of the connections come from an address.
abbrev pub from : Key → List Live → ℕ
from ip [] = 0
from ip (c ∷ cs) = one_if (bytes_beq c.ip ip) + from ip cs

-- One of the two sockets of a connection.
abbrev pub Uses : Socket → List Live → Type 0
Uses s [] = ⊥
Uses s (l ∷ ls) = (l.client ≡ s) ⊎ ((l.backend ≡ s) ⊎ Uses s ls)

pub newly_in_use :
    (l : Live) (s : Socket) (conns : List (Socket × Unit {0})) (serving : List Live)
    → (lookup s conns ≡ some tt → Uses s serving)
    → lookup s (track_conn l.backend (track_conn l.client conns)) ≡ some tt
    → Uses s (l ∷ serving)
newly_in_use l s conns serving old h = elim (Bool-cases (l.client == s)) [
  | inl client ↦ inl ((==_iff _ _).0 client)
  | inr other ↦ elim (Bool-cases (l.backend == s)) [
    | inl backend ↦ inr (inl ((==_iff _ _).0 backend))
    | inr neither ↦ inr (
        inr (
          old (
            ground (
              arith,
              lookup-assign l.backend s tt (track_conn l.client conns),
              lookup-assign l.client s tt conns,
            ))))
  ]
]

pub untracked :
    (l : Live) (s : Socket) (conns : List (Socket × Unit {0}))
    → lookup s (untrack_conn l.backend (untrack_conn l.client conns)) ≡ some tt
    → (l.client ≢ s) × (l.backend ≢ s) × (lookup s conns ≡ some tt)
untracked l s conns h = ground (
  arith,
  lookup-delete l.backend s (untrack_conn l.client conns),
  lookup-delete l.client s conns,
  ==_iff l.client s,
  ==_iff l.backend s,
)

pub still_in_use :
    (s : Socket) (before after : List Live) (l : Live)
    → l.client ≢ s
    → l.backend ≢ s
    → Uses s (before ++ (l ∷ after))
    → Uses s (before ++ after)
still_in_use s [] after l client backend (inl h) = absurd (client h)
still_in_use s [] after l client backend (inr (inl h)) = absurd (backend h)
still_in_use s [] after l client backend (inr (inr rest)) = rest
still_in_use s (x ∷ before) after l client backend (inl h) = inl h
still_in_use s (x ∷ before) after l client backend (inr (inl h)) = inr (inl h)
still_in_use s (x ∷ before) after l client backend (inr (inr rest)) =
    inr (inr (still_in_use s before after l client backend rest))
