-- ===== src/Proxy/Forward/Tests.antt =====
-- Concrete runs, and the theorems at concrete inputs.
use proxygo.Base.{
  ℕ, ◌+◌, ◌%◌, ◌<◌, ◌≡◌, refl, sym, ap, ◌∙◌, subst, Result, arith, none, some, List, [], ◌∷◌, ◌++◌,
  length, ok, err, panics,
}
use proxygo.Base.Stream.{IoError, Stream, timeout, stream, read_full, read_byte}
use proxygo.Mcproto.{
  Frame, Handshake, Digest, io, or_group, decode_varint, decode_loop, frame_length, read_varint,
  read_varint_loop, read_counted, read_string, read_frame, handshake_body, parse_handshake,
  parse_login_name, marshal_handshake,
}
use proxygo.Mcproto.Uuid.{offline_uuid_shape}
use proxygo.Ppv2.{to4}
use proxygo.Proxy.Forward.{Sockets, TcpAddr, reading, forward_bungee, write_ppv2}
use proxygo.Proxy.Forward.Bungee.{FirstFits, HasRoom, Forwarded, forward_bungee-ok}
use proxygo.Proxy.Forward.Login.{HasLogin, new_host, given, end_state, forward_bungee_login}
use proxygo.Proxy.Forward.Announce.{Mixed, write_ppv2_unknown}

abbrev length_digest : List ℕ → Digest
length_digest m i = (length m + i) % 256

length_digest-byte : (m : List ℕ) (i : ℕ) → length_digest m i < 256
length_digest-byte m i = omega arith

abbrev client_ip : List ℕ
client_ip = b'1' ∷ b'.' ∷ b'1' ∷ []

abbrev sockets : List ℕ → Sockets
sockets bs = record { client = stream bs timeout; backend = record { delivered = []; writes = [] } }

abbrev ping_bytes : List ℕ
ping_bytes = 7 ∷ 0 ∷ 5 ∷ 1 ∷ 97 ∷ 0 ∷ 80 ∷ 1 ∷ []

abbrev after_ping : Sockets
after_ping = record {
  client = stream (9 ∷ []) timeout;
  backend = record { delivered = ping_bytes; writes = [] };
}

ping_run :
    forward_bungee length_digest client_ip (sockets (ping_bytes ++ (9 ∷ []))) ≡ (ok tt, after_ping)
unfolding forward_bungee read_frame frame_length read_full or_group decode_varint decode_loop
    parse_handshake handshake_body read_string read_counted read_varint read_varint_loop read_byte
ping_run = refl

-- A client that closes in the middle of its first frame.
cut_run : forward_bungee length_digest client_ip (sockets (7 ∷ 0 ∷ [])) ≡ (
  err (reading (io timeout)),
  record { client = stream [] timeout; backend = record { delivered = []; writes = [] } },
)
unfolding forward_bungee read_frame frame_length read_full or_group
cut_run = refl

abbrev login : Sockets
login = sockets (7 ∷ 0 ∷ 5 ∷ 1 ∷ 97 ∷ 0 ∷ 80 ∷ 2 ∷ 3 ∷ 0 ∷ 1 ∷ 98 ∷ 6 ∷ [])

abbrev login_handshake : Handshake
login_handshake = record { protocol = 5; host = 97 ∷ []; port = 80; intent = 2 }

login_read : HasLogin login.client
unfolding read_frame frame_length read_full or_group decode_varint decode_loop parse_handshake
    handshake_body read_string read_counted read_varint read_varint_loop read_byte parse_login_name
login_read = record {
  f = record {
    id = 0;
    body = 5 ∷ 1 ∷ 97 ∷ 0 ∷ 80 ∷ 2 ∷ [];
    raw = 7 ∷ 0 ∷ 5 ∷ 1 ∷ 97 ∷ 0 ∷ 80 ∷ 2 ∷ [];
  };
  lf = record { id = 0; body = 1 ∷ 98 ∷ []; raw = 3 ∷ 0 ∷ 1 ∷ 98 ∷ [] };
  between = stream (3 ∷ 0 ∷ 1 ∷ 98 ∷ 6 ∷ []) timeout;
  after = stream (6 ∷ []) timeout;
  hs = login_handshake;
  name = 98 ∷ [];
  first_frame = refl;
  is_handshake = refl;
  wants_login = refl;
  second_frame = refl;
  is_login = refl;
}

frame_of :
    {E : Type 0} {a b : Frame} {u v : Stream}
    → Path (Result E Frame × Stream) (ok a, u) (ok b, v)
    → a ≡ b
frame_of h = cc

handshake_of : {E : Type 0} {a b : Handshake} → Path (Result E Handshake) (ok a) (ok b) → a ≡ b
handshake_of h = cc

login-FirstFits : FirstFits length_digest client_ip login.client
unfolding login_read
login-FirstFits f u hs read parsed =
    let same = frame_of (sym login_read.first_frame ∙ read) in
    subst (HasRoom length_digest client_ip)
      (handshake_of (sym login_read.is_handshake ∙ ap parse_handshake same ∙ parsed))
      (
        record { protocol_fits = omega arith; port_fits = omega arith; intent_fits = omega arith },
        omega arith,
      )

login_sent :
    forward_bungee length_digest client_ip login
    ≡ (ok tt, end_state length_digest client_ip login login_read)
unfolding forward_bungee read_frame frame_length read_full or_group decode_varint decode_loop
    parse_handshake handshake_body read_string read_counted read_varint read_varint_loop read_byte
    parse_login_name login_read
login_sent = refl

forward_bungee-ok_example :
    Forwarded length_digest client_ip login (end_state length_digest client_ip login login_read)
forward_bungee-ok_example =
    forward_bungee-ok length_digest client_ip login
      (end_state length_digest client_ip login login_read) login-FirstFits login_sent

forward_bungee_login_example :
    let host = new_host length_digest client_ip login login_read in
    (forward_bungee length_digest client_ip login
      ≡ (ok tt, end_state length_digest client_ip login login_read))
    × (parse_handshake (marshal_handshake login_read.hs host)
        ≡ ok (record login_read.hs { host = host }))
    × ((rest : List ℕ) (f : IoError)
        → read_frame (stream (given length_digest client_ip login login_read ++ rest) f)
          ≡ (ok (marshal_handshake login_read.hs host), stream (login_read.lf.raw ++ rest) f))
unfolding login_read
forward_bungee_login_example =
    forward_bungee_login length_digest client_ip login login_read refl (omega arith)
      (omega (arith, (offline_uuid_shape length_digest length_digest-byte (98 ∷ [])).0))

abbrev player : TcpAddr
player = record { ip = 10 ∷ 0 ∷ 0 ∷ 9 ∷ []; port = 50000 }

abbrev proxy4 : TcpAddr
proxy4 = record { ip = 10 ∷ 0 ∷ 0 ∷ 1 ∷ []; port = 25565 }

abbrev proxy6 : TcpAddr
proxy6 = record {
  ip = 0x20 ∷ 1 ∷ 0 ∷ 0 ∷ 0 ∷ 0 ∷ 0 ∷ 0 ∷ 0 ∷ 0 ∷ 0 ∷ 0 ∷ 0 ∷ 0 ∷ 0 ∷ 1 ∷ [];
  port = 25565;
}

player-proxy6-Mixed : Mixed player proxy6
unfolding to4
player-proxy6-Mixed h = cc h

write_ppv2_unknown_example :
    (Mixed player proxy6
      → write_ppv2 (some player) (some proxy6) (sockets []) ≡ (panics, sockets []))
    × (write_ppv2 (some player) none (sockets []) ≡ (panics, sockets []))
    × (write_ppv2 none (some proxy6) (sockets []) ≡ (panics, sockets []))
write_ppv2_unknown_example = write_ppv2_unknown player proxy6 (sockets [])

mixed_run : write_ppv2 (some player) (some proxy6) (sockets []) ≡ (panics, sockets [])
mixed_run = write_ppv2_unknown_example.0 player-proxy6-Mixed
