-- ===== src/Proxy/Forward/Bungee.antt =====
-- forwardBungee: what the backend gets for what is taken from the client.
use proxygo.Base.{
  ℕ, ◌+◌, ◌≤◌, ◌≡◌, refl, ap, length, length-append, ◌∙◌, arith, ◌⊎◌, inl, inr, none, some, Option,
  List, [], ◌∷◌, ◌++◌, append_assoc, ◌==◌, ==_iff, Bool-cases, Result, ok, err, panics,
}
use proxygo.Base.Stream.{IoError, Stream, stream}
use proxygo.Mcproto
use proxygo.Mcproto.{
  Frame, Handshake, Digest, read_frame, parse_handshake, parse_login_name, marshal_handshake,
  max_frame, offline_uuid,
}
use proxygo.Mcproto.Strings.{IsShort}
use proxygo.Mcproto.Packets.{
  IsValid, parse_handshake-marshal_handshake, read_frame-marshal_handshake,
}
use proxygo.Mcproto.Frames.{read_frame_splits}
use proxygo.Proxy.Forward.{
  Peer, Sockets, Error, Action, and_then, ◌>>=◌, ◌>>◌, take_write, send, with_client, receive,
  forwarded_host, forward_login, forward_first, forward_bungee,
}

and_then-ok :
    {A B : Type 0} (r : Result Error A × Sockets) (k : A → Action B) {b : B} {t : Sockets}
    → and_then r k ≡ (ok b, t)
    → (a : A) × (u : Sockets) × (r ≡ (ok a, u)) × (k a u ≡ (ok b, t))
and_then-ok (ok a, s) k h = (a, s, refl, h)
and_then-ok (err e, s) k h = cc
and_then-ok (panics, s) k h = cc

-- A write that succeeds hands the backend all the bytes, and reads nothing.
abbrev Sent : List ℕ → Sockets → Sockets → Type 0
Sent p s t = (t.client ≡ s.client) × (t.backend.delivered ≡ s.backend.delivered ++ p)

take_write-ok :
    (p : List ℕ) (s t : Sockets) (ws : List (Option ℕ))
    → take_write p s ws ≡ (ok tt, t)
    → Sent p s t
take_write-ok p s t [] h = ground arith
take_write-ok p s t (none ∷ ws) h = ground arith
take_write-ok p s t (some n ∷ ws) h = cc

with_client-ok :
    (peer : Peer) (r : Result Mcproto.Error Frame × Stream) (f : Frame) (t : Sockets)
    → with_client peer r ≡ (ok f, t)
    → (r ≡ (ok f, t.client)) × (t.backend ≡ peer)
with_client-ok peer (ok g, u) f t h = ground arith
with_client-ok peer (err e, u) f t h = cc
with_client-ok peer (panics, u) f t h = cc

receive-ok :
    (s : Sockets) (f : Frame) (t : Sockets)
    → receive s ≡ (ok f, t)
    → (f.raw ++ t.client.pending ≡ s.client.pending) × (t.backend ≡ s.backend)
receive-ok s f t h =
    let got = with_client-ok s.backend (read_frame s.client) f t h in
    ((read_frame_splits s.client f t.client got.0).0, got.1)

module _ (md5 : List ℕ → Digest) (ip : List ℕ) where
  -- The login was rewritten: `front` is the handshake `f` and the login start `lf`. What the backend
  -- got is a frame in which ReadFrame and ParseHandshake find the protocol, the port and the intent
  -- of `f` with the forwarded host, and `lf` as it was.
  pub record Rewrote (front gained : List ℕ) : Type 0 where
    pub f : Frame
    pub hs : Handshake
    pub lf : Frame
    pub name : List ℕ
    pub new : Frame
    pub is_login : (parse_handshake f ≡ ok hs) × (hs.intent ≡ 2)
    pub has_name : parse_login_name lf ≡ ok name
    pub taken : front ≡ f.raw ++ lf.raw
    pub given : gained ≡ new.raw ++ lf.raw
    pub framed :
        (rest : List ℕ) (e : IoError)
        → read_frame (stream (gained ++ rest) e) ≡ (ok new, stream (lf.raw ++ rest) e)
    pub host_only :
        parse_handshake new ≡ ok (record hs { host = forwarded_host md5 ip hs.host name })

  length-offline_uuid : (name : List ℕ) → length (offline_uuid md5 name) ≡ 36
  unfolding offline_uuid
  length-offline_uuid name = refl

  length-forwarded_host :
      (host name : List ℕ) → length (forwarded_host md5 ip host name) ≡ length host + length ip + 38
  length-forwarded_host host name = omega (
    arith,
    length-append host (0 ∷ ip ++ (0 ∷ offline_uuid md5 name)),
    length-append ip (0 ∷ offline_uuid md5 name),
    length-offline_uuid name,
  )

  -- The fields of a handshake are within their Go types, and its host leaves room for the address and
  -- the UUID in a frame.
  abbrev pub HasRoom : Handshake → Type 0
  HasRoom hs = IsValid hs × (length hs.host + length ip + 56 ≤ max_frame)

  -- A handshake that the client sends first has fields that fit.
  abbrev pub FirstFits : Stream → Type 0
  FirstFits c =
      (f : Frame) (u : Stream) (hs : Handshake)
      → read_frame c ≡ (ok f, u)
      → parse_handshake f ≡ ok hs
      → HasRoom hs

  abbrev pub Forwarded : Sockets → Sockets → Type 0
  Forwarded s t =
      (front : List ℕ) × (gained : List ℕ) × (front ++ t.client.pending ≡ s.client.pending)
      × (t.backend.delivered ≡ s.backend.delivered ++ gained)
      × ((gained ≡ front) ⊎ Rewrote front gained)

  send_both :
      (p q : List ℕ) (s t : Sockets) → (do send p; send q) s ≡ (ok tt, t) → Sent (p ++ q) s t
  send_both p q s t h =
      let (_, u, first, second) = and_then-ok (send p s) _ h in
      let a = take_write-ok p s u s.backend.writes first in
      let b = take_write-ok q u t u.backend.writes second in
      (b.0 ∙ a.0, b.1 ∙ ap (λ d. d ++ q) a.1 ∙ append_assoc s.backend.delivered p q)

  login-ok :
      (f lf : Frame) (hs : Handshake) (name : Result Mcproto.Error (List ℕ)) (s t : Sockets)
      → (parse_handshake f ≡ ok hs) × (hs.intent ≡ 2)
      → HasRoom hs
      → parse_login_name lf ≡ name
      → forward_login md5 ip f hs lf name s ≡ (ok tt, t)
      → (gained : List ℕ) × Sent gained s t
        × ((gained ≡ f.raw ++ lf.raw) ⊎ Rewrote (f.raw ++ lf.raw) gained)
  login-ok f lf hs (ok name) s t is_login room has_name h =
      let host = forwarded_host md5 ip hs.host name in
      let new = marshal_handshake hs host in
      let small : length host + 18 ≤ max_frame =
        omega (arith, room.1, length-forwarded_host hs.host name) in
      let short : IsShort host = omega (arith, small) in
      (
        new.raw ++ lf.raw,
        send_both new.raw lf.raw s t h,
        inr (record {
          f = f;
          hs = hs;
          lf = lf;
          name = name;
          new = new;
          is_login = is_login;
          has_name = has_name;
          taken = refl;
          given = refl;
          framed = λ rest e.
              rw (append_assoc new.raw lf.raw rest)
                (read_frame-marshal_handshake hs host room.0 short (lf.raw ++ rest) e small);
          host_only = parse_handshake-marshal_handshake hs host room.0 short;
        }),
      )
  login-ok f lf hs (err e) s t is_login room has_name h =
      (f.raw ++ lf.raw, send_both f.raw lf.raw s t h, inl refl)
  login-ok f lf hs panics s t is_login room has_name h = cc

  verbatim :
      (f : Frame) (s u t : Sockets)
      → (f.raw ++ u.client.pending ≡ s.client.pending) × (u.backend ≡ s.backend)
      → send f.raw u ≡ (ok tt, t)
      → Forwarded s t
  verbatim f s u t got h =
      let sent = take_write-ok f.raw u t u.backend.writes h in
      (
        f.raw,
        f.raw,
        ap (λ (c : Stream). f.raw ++ c.pending) sent.0 ∙ got.0,
        sent.1 ∙ ap (λ (b : Peer). b.delivered ++ f.raw) got.1,
        inl refl,
      )

  second :
      (f : Frame) (hs : Handshake) (s u t : Sockets)
      → (f.raw ++ u.client.pending ≡ s.client.pending) × (u.backend ≡ s.backend)
      → (parse_handshake f ≡ ok hs) × (hs.intent ≡ 2)
      → HasRoom hs
      → (do lf ← receive; forward_login md5 ip f hs lf (parse_login_name lf)) u ≡ (ok tt, t)
      → Forwarded s t
  second f hs s u t got is_login room h =
      let (lf, v, took, more) = and_then-ok (receive u) _ h in
      let next = receive-ok u lf v took in
      let (gained, (kept, gave), how) =
        login-ok f lf hs (parse_login_name lf) v t is_login room refl more in
      (
        f.raw ++ lf.raw,
        gained,
        append_assoc f.raw lf.raw t.client.pending
            ∙ ap (λ (c : Stream). f.raw ++ (lf.raw ++ c.pending)) kept
            ∙ ap (λ l. f.raw ++ l) next.0
            ∙ got.0,
        gave ∙ ap (λ (b : Peer). b.delivered ++ gained) (next.1 ∙ got.1),
        how,
      )

  first :
      (f : Frame) (hs : Result Mcproto.Error Handshake) (s u t : Sockets)
      → (f.raw ++ u.client.pending ≡ s.client.pending) × (u.backend ≡ s.backend)
      → parse_handshake f ≡ hs
      → ((g : Handshake) → parse_handshake f ≡ ok g → HasRoom g)
      → forward_first md5 ip f hs u ≡ (ok tt, t)
      → Forwarded s t
  first f (ok hs) s u t got parsed room h = elim (Bool-cases (hs.intent == 2)) [
    | inl login ↦
        second f hs s u t got (parsed, (==_iff _ _).0 login) (room hs parsed) (rw login at h)
    | inr other ↦ verbatim f s u t got (rw other at h)
  ]
  first f (err e) s u t got parsed room h = verbatim f s u t got h
  first f panics s u t got parsed room h = cc

  -- Where forwardBungee succeeds, and a handshake that the client sends first has fields that fit and
  -- leaves room for the new host, the backend got what was taken off the client's stream as it was;
  -- or that was a login, and the backend got its login start as it was behind a frame in which it
  -- reads the handshake of the client with nothing but the host changed. What the client sent behind
  -- the fields of that handshake is not passed on.
  pub forward_bungee-ok :
      (s t : Sockets) → FirstFits s.client → forward_bungee md5 ip s ≡ (ok tt, t) → Forwarded s t
  unfolding forward_bungee
  forward_bungee-ok s t fits h =
      let (f, u, took, more) = and_then-ok (receive s) _ h in
      let read = with_client-ok s.backend (read_frame s.client) f u took in
      first f (parse_handshake f) s u t (receive-ok s f u took) refl
        (λ g parsed. fits f u.client g read.0 parsed) more
