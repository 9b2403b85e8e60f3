-- ===== src/Proxy/Forward.antt =====
-- The forwarding modes of internal/proxy/proxy.go, between the two sockets of a connection.
-- Deadlines are left to the fault of the client's stream and to the backend's `writes`.
pub mod Bungee
pub mod Login
pub mod Announce
mod Tests
use proxygo.Base.{
  ℕ, ◌%◌, ◌^◌, Bool, true, false, not, ◌&&◌, Option, none, some, List, [], ◌∷◌, ◌++◌, ◌==◌,
  if◌then◌else◌, take, Result, ok, err, panics,
}
use proxygo.Base.Stream.{Stream}
use proxygo.Base.Text.{codes}
use proxygo.Mcproto
use proxygo.Mcproto.{
  Frame, Handshake, Digest, read_frame, parse_handshake, parse_login_name, marshal_handshake,
  offline_uuid,
}
use proxygo.Ppv2
use proxygo.Ppv2.{Header, Ip, is_nil, to4, marshal, family_inet, family_inet6, family_unspec}

-- The backend's socket: what it has taken, and how the writes to come go. `none` takes
-- everything, `some n` fails after `n` bytes.
pub record Peer : Type 0 where
  pub delivered : List ℕ
  pub writes : List (Option ℕ)

pub record Sockets : Type 0 where
  pub client : Stream
  pub backend : Peer

pub data Error : Type 0 where
  reading : Mcproto.Error → Error
  writing : Error
  header : Ppv2.Error → Error

abbrev pub Action : Type 0 → Type 0
Action A = Sockets → Result Error A × Sockets

abbrev pub and_then :
    {A B : Type 0} → Result Error A × Sockets → (A → Action B) → Result Error B × Sockets
and_then (ok a, s) f = f a s
and_then (err e, s) f = (err e, s)
and_then (panics, s) f = (panics, s)

infixl 5 ◌>>=◌ ◌>>◌
abbrev pub ◌>>=◌ : {A B : Type 0} → Action A → (A → Action B) → Action B
◌>>=◌ m f s = and_then (m s) f

abbrev pub ◌>>◌ : {A B : Type 0} → Action A → Action B → Action B
◌>>◌ m k s = and_then (m s) (λ _. k)

abbrev pub take_write : List ℕ → Sockets → List (Option ℕ) → Result Error (Unit {0}) × Sockets
take_write p s [] =
    (ok tt, record s { backend = record { delivered = s.backend.delivered ++ p; writes = [] } })
take_write p s (none ∷ ws) =
    (ok tt, record s { backend = record { delivered = s.backend.delivered ++ p; writes = ws } })
take_write p s (some n ∷ ws) = (
  err writing,
  record s { backend = record { delivered = s.backend.delivered ++ take n p; writes = ws } },
)

-- `backend.Write(p)`
abbrev pub send : List ℕ → Action (Unit {0})
send p s = take_write p s s.backend.writes

abbrev pub with_client : Peer → Result Mcproto.Error Frame × Stream → Result Error Frame × Sockets
with_client peer (ok f, t) = (ok f, record { client = t; backend = peer })
with_client peer (err e, t) = (err (reading e), record { client = t; backend = peer })
with_client peer (panics, t) = (panics, record { client = t; backend = peer })

-- `mcproto.ReadFrame(client)`
abbrev pub receive : Action Frame
receive s = with_client s.backend (read_frame s.client)

-- ---------- forward_mode "bungee"

-- `hs.Host + "\x00" + raddr.IP.String() + "\x00" + mcproto.OfflineUUID(name)`
abbrev pub forwarded_host : (List ℕ → Digest) → List ℕ → List ℕ → List ℕ → List ℕ
forwarded_host md5 ip host name = host ++ (0 ∷ ip ++ (0 ∷ offline_uuid md5 name))

module _ (md5 : List ℕ → Digest) (ip : List ℕ) where
  -- What the name in the login start decides.
  abbrev pub forward_login :
      Frame → Handshake → Frame → Result Mcproto.Error (List ℕ) → Action (Unit {0})
  forward_login f hs lf (ok name) = do
    send (marshal_handshake hs (forwarded_host md5 ip hs.host name)).raw
    send lf.raw
  forward_login f hs lf (err e) = do send f.raw; send lf.raw
  forward_login f hs lf panics = λ s. (panics, s)

  -- What the first frame decides.
  abbrev pub forward_first : Frame → Result Mcproto.Error Handshake → Action (Unit {0})
  forward_first f (ok hs) =
      if hs.intent == 2
      then (do lf ← receive; forward_login f hs lf (parse_login_name lf))
      else send f.raw
  forward_first f (err e) = send f.raw
  forward_first f panics = λ s. (panics, s)

  unfoldable pub forward_bungee : Action (Unit {0})
  forward_bungee = do f ← receive; forward_first f (parse_handshake f)

-- ---------- forward_mode "ppv2"

-- The IP and the port of a *net.TCPAddr.
pub record TcpAddr : Type 0 where
  pub ip : List ℕ
  pub port : ℕ

abbrev pub family_for : Ip → ℕ
family_for ip = if is_nil (to4 ip) then family_inet6 else family_inet

abbrev pub same_family : TcpAddr → TcpAddr → Bool
same_family src dst =
    let a = is_nil (to4 (some src.ip)) in
    let b = is_nil (to4 (some dst.ip)) in if a then b else not b

abbrev pub bare_header : Header
bare_header = record {
  command = Ppv2.command_proxy;
  family = family_unspec;
  protocol = Ppv2.protocol_stream;
  source_addr = none;
  dest_addr = none;
  source_port = 0;
  dest_port = 0;
}

-- The IP of an address; an empty one is nil, of which To4 is nil like that of an empty one.
abbrev pub ip_of : List ℕ → Ip
ip_of [] = none
ip_of (b ∷ bs) = some (b ∷ bs)

abbrev pub addressed_header : TcpAddr → TcpAddr → Header
addressed_header src dst = record bare_header {
  family = family_for (some src.ip);
  source_addr = ip_of src.ip;
  dest_addr = ip_of dst.ip;
  source_port = src.port % 2 ^ 16;
  dest_port = dst.port % 2 ^ 16;
}

-- The header for the two ends of the client's socket, where they are TCP addresses.
abbrev pub header_for : Option TcpAddr → Option TcpAddr → Header
header_for (some src) (some dst) =
    if same_family src dst then addressed_header src dst else bare_header
header_for none dst = bare_header
header_for (some src) none = bare_header

abbrev pub send_header : Result Ppv2.Error (List ℕ) → Action (Unit {0})
send_header (ok bs) = send bs
send_header (err e) = λ s. (err (header e), s)
send_header panics = λ s. (panics, s)

unfoldable pub write_ppv2 : Option TcpAddr → Option TcpAddr → Action (Unit {0})
write_ppv2 src dst = send_header (marshal (header_for src dst))

-- ---------- the switch

-- model.ForwardMode; every other string is forwarded like "raw".
pub data ForwardMode : Type 0 where
  raw bungee ppv2 : ForwardMode

-- `local` is the proxy's own end of the client's socket.
unfoldable pub forward_preamble :
    (List ℕ → Digest)
    → (List ℕ → List ℕ)
    → ForwardMode
    → TcpAddr
    → Option TcpAddr
    → Action (Unit {0})
forward_preamble md5 ip_string ppv2 raddr local_addr = write_ppv2 (some raddr) local_addr
forward_preamble md5 ip_string bungee raddr local_addr = forward_bungee md5 (ip_string raddr.ip)
forward_preamble md5 ip_string raw raddr local_addr = λ s. (ok tt, s)
