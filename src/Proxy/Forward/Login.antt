-- ===== src/Proxy/Forward/Login.antt =====
-- forwardBungee on a login, seen by the backend, and its failures to read.
use proxygo.Base.{
  ℕ, ◌+◌, ◌≤◌, ◌≡◌, refl, sym, ap, ◌∙◌, arith, inl, inr, none, some, Option, List, [], ◌∷◌, ◌++◌,
  append_assoc, length, ◌==◌, Bool-cases, Result, ok, err, panics,
}
use proxygo.Base.Stream.{IoError, Stream, stream}
use proxygo.Mcproto
use proxygo.Mcproto.{
  Frame, Handshake, Digest, max_frame, read_frame, parse_handshake, parse_login_name,
  marshal_handshake,
}
use proxygo.Mcproto.Strings.{IsShort}
use proxygo.Mcproto.Packets.{
  IsValid, parse_handshake-marshal_handshake, read_frame-marshal_handshake,
}
use proxygo.Proxy.Forward.{
  Peer, Sockets, Error, reading, Action, and_then, ◌>>◌, take_write, send, with_client, receive,
  forwarded_host, forward_login, forward_first, forward_bungee,
}

-- The client's stream holds a login: two frames, a handshake of intent 2 and a login start.
pub record HasLogin (client : Stream) : Type 0 where
  pub f : Frame
  pub lf : Frame
  pub between : Stream
  pub after : Stream
  pub hs : Handshake
  pub name : List ℕ
  pub first_frame : read_frame client ≡ (ok f, between)
  pub is_handshake : parse_handshake f ≡ ok hs
  pub wants_login : hs.intent ≡ 2
  pub second_frame : read_frame between ≡ (ok lf, after)
  pub is_login : parse_login_name lf ≡ ok name

module _ (md5 : List ℕ → Digest) (ip : List ℕ) where
  module _ (s : Sockets) (l : HasLogin s.client) where
    abbrev pub new_host : List ℕ
    new_host = forwarded_host md5 ip l.hs.host l.name

    abbrev pub given : List ℕ
    given = (marshal_handshake l.hs new_host).raw ++ l.lf.raw

    abbrev pub end_state : Sockets
    end_state = record {
      client = l.after;
      backend = record { delivered = s.backend.delivered ++ given; writes = [] };
    }

    forward_bungee_sends : s.backend.writes ≡ [] → forward_bungee md5 ip s ≡ (ok tt, end_state)
    unfolding forward_bungee
    forward_bungee_sends writable =
        rw (l.first_frame, l.is_handshake, l.wants_login)
          (rw (l.second_frame, l.is_login)
            (rw writable (
              ap
                (λ (d : List ℕ). (
                  ok tt,
                  record { client = l.after; backend = record { delivered = d; writes = [] } },
                ))
                (append_assoc s.backend.delivered _ l.lf.raw))))

    -- A login whose handshake has fields that fit, and whose new host leaves the frame within
    -- MaxFrame, goes to a backend that takes all writes with the client's address and the player's
    -- UUID in the host: what the backend reads is a frame with that handshake and, behind it, the
    -- login start as the client sent it.
    pub forward_bungee_login :
        s.backend.writes ≡ []
        → IsValid l.hs
        → length new_host + 18 ≤ max_frame
        → (forward_bungee md5 ip s ≡ (ok tt, end_state))
          × (parse_handshake (marshal_handshake l.hs new_host)
              ≡ ok (record l.hs { host = new_host }))
          × ((rest : List ℕ) (f : IoError)
              → read_frame (stream (given ++ rest) f)
                ≡ (ok (marshal_handshake l.hs new_host), stream (l.lf.raw ++ rest) f))
    forward_bungee_login writable fits small =
        let short : IsShort new_host = omega (arith, small) in
        (
          forward_bungee_sends writable,
          parse_handshake-marshal_handshake l.hs new_host fits short,
          λ rest f.
              rw (append_assoc (marshal_handshake l.hs new_host).raw l.lf.raw rest)
                (read_frame-marshal_handshake l.hs new_host fits short (l.lf.raw ++ rest) f small),
        )

  -- ---------- failures to read

  and_then-reading :
      {A B : Type 0} (r : Result Error A × Sockets) (k : A → Action B) (e : Mcproto.Error)
      (t : Sockets) (p : Peer)
      → (((u : Sockets) → r ≡ (err (reading e), u) → u.backend ≡ p)
          × ((a : A) (u : Sockets) → r ≡ (ok a, u) → k a u ≡ (err (reading e), t) → t.backend ≡ p))
      → and_then r k ≡ (err (reading e), t)
      → t.backend ≡ p
  and_then-reading (ok a, s) k e t p (bad, good) h = good a s refl h
  and_then-reading (err x, s) k e t p (bad, good) h = ground (arith, bad s)
  and_then-reading (panics, s) k e t p (bad, good) h = cc

  take_write-reading :
      (p : List ℕ) (s : Sockets) (ws : List (Option ℕ)) (e : Mcproto.Error) (t : Sockets)
      → take_write p s ws ≡ (err (reading e), t)
      → ⊥
  take_write-reading p s [] e t h = cc
  take_write-reading p s (none ∷ ws) e t h = cc
  take_write-reading p s (some n ∷ ws) e t h = cc

  with_client-backend :
      (p : Peer) (r : Result Mcproto.Error Frame × Stream) → (with_client p r).1.backend ≡ p
  with_client-backend p (ok f, t) = refl
  with_client-backend p (err e, t) = refl
  with_client-backend p (panics, t) = refl

  receive-backend :
      {x : Result Error Frame} (s t : Sockets) → receive s ≡ (x, t) → t.backend ≡ s.backend
  receive-backend s t h =
      sym (ap (λ r. r.1.backend) h) ∙ with_client-backend s.backend (read_frame s.client)

  send-reading :
      (p : List ℕ) (s t : Sockets) (e : Mcproto.Error) (q : Peer)
      → send p s ≡ (err (reading e), t)
      → t.backend ≡ q
  send-reading p s t e q h = absurd (take_write-reading p s s.backend.writes e t h)

  send_both-reading :
      (p q : List ℕ) (s t : Sockets) (e : Mcproto.Error) (peer : Peer)
      → (do send p; send q) s ≡ (err (reading e), t)
      → t.backend ≡ peer
  send_both-reading p q s t e peer h =
      and_then-reading (send p s) (λ _. send q) e t peer
        (λ u bad. send-reading p s u e peer bad, λ a u sent more. send-reading q u t e peer more) h

  login-reading :
      (f lf : Frame) (hs : Handshake) (name : Result Mcproto.Error (List ℕ)) (s t : Sockets)
      (e : Mcproto.Error) (peer : Peer)
      → forward_login md5 ip f hs lf name s ≡ (err (reading e), t)
      → t.backend ≡ peer
  login-reading f lf hs (ok name) s t e peer h = send_both-reading _ lf.raw s t e peer h
  login-reading f lf hs (err x) s t e peer h = send_both-reading f.raw lf.raw s t e peer h
  login-reading f lf hs panics s t e peer h = cc

  first-reading :
      (f : Frame) (hs : Result Mcproto.Error Handshake) (s t : Sockets) (e : Mcproto.Error)
      → forward_first md5 ip f hs s ≡ (err (reading e), t)
      → t.backend ≡ s.backend
  first-reading f (ok hs) s t e h = elim (Bool-cases (hs.intent == 2)) [
    | inl login ↦
        and_then-reading (receive s) (λ lf. forward_login md5 ip f hs lf (parse_login_name lf)) e t
          s.backend
          (
            λ u bad. receive-backend s u bad,
            λ lf u got more. login-reading f lf hs (parse_login_name lf) u t e s.backend more,
          )
          (rw login at h)
    | inr other ↦ send-reading f.raw s t e s.backend (rw other at h)
  ]
  first-reading f (err x) s t e h = send-reading f.raw s t e s.backend h
  first-reading f panics s t e h = cc

  -- Where forwardBungee fails to read a frame, the first or the second, it has written nothing to
  -- the backend.
  pub forward_bungee-reading :
      (s t : Sockets) (e : Mcproto.Error)
      → forward_bungee md5 ip s ≡ (err (reading e), t)
      → t.backend ≡ s.backend
  unfolding forward_bungee
  forward_bungee-reading s t e h =
      and_then-reading (receive s) (λ f. forward_first md5 ip f (parse_handshake f)) e t s.backend
        (
          λ u bad. receive-backend s u bad,
          λ f u got more. first-reading f (parse_handshake f) u t e more ∙ receive-backend s u got,
        )
        h
