-- ===== src/Proxy/Forward/Announce.antt =====
-- writePPv2: what the backend reads from the header, and when there is none.
use proxygo.Base.{
  ℕ, ◌%◌, ◌^◌, ◌≡◌, ◌≢◌, refl, arith, Bool, true, false, not, none, some, List, [], ◌∷◌, ◌++◌,
  length, if◌then◌else◌, ok, panics,
}
use proxygo.Base.Stream.{IoError, stream}
use proxygo.Ppv2.{Header, is_nil, to4, marshal, valid, read_header}
use proxygo.Ppv2.Encode.{marshal_unspec}
use proxygo.Ppv2.RoundTrip.{inet, inet6, read_header-marshal-inet, read_header-marshal-inet6}
use proxygo.Proxy.Forward.{
  Sockets, TcpAddr, ip_of, send, same_family, header_for, bare_header, write_ppv2,
}

bare_panics : marshal bare_header ≡ panics
unfolding valid
bare_panics = marshal_unspec 1 1 none none 0 0 refl

-- The two ends are not both IPv4 or both not.
abbrev pub Mixed : TcpAddr → TcpAddr → Type 0
Mixed src dst = is_nil (to4 (some src.ip)) ≢ is_nil (to4 (some dst.ip))

mixed-same_family : (a b : Bool) → a ≢ b → (if a then b else not b) ≡ false
mixed-same_family true true h = absurd (h refl)
mixed-same_family true false h = refl
mixed-same_family false true h = refl
mixed-same_family false false h = absurd (h refl)

-- Where the client's own address or the family is unknown, writePPv2 panics before it writes.
pub write_ppv2_unknown :
    (src dst : TcpAddr) (s : Sockets)
    → (Mixed src dst → write_ppv2 (some src) (some dst) s ≡ (panics, s))
      × (write_ppv2 (some src) none s ≡ (panics, s))
      × (write_ppv2 none (some dst) s ≡ (panics, s))
unfolding write_ppv2
write_ppv2_unknown src dst s = (
  λ mixed.
      let other : same_family src dst ≡ false = mixed-same_family _ _ mixed in
      rw (other, bare_panics) refl,
  rw bare_panics refl,
  rw bare_panics refl,
)

-- The backend's socket took `bs`, and nothing was read from the client.
abbrev pub Gave : List ℕ → Sockets → Sockets → Type 0
Gave bs s t = (t.client ≡ s.client) × (t.backend.delivered ≡ s.backend.delivered ++ bs)

send_writable :
    (bs : List ℕ) (s : Sockets)
    → s.backend.writes ≡ []
    → (t : Sockets) × (send bs s ≡ (ok tt, t)) × Gave bs s t
send_writable bs s writable = (
  record s { backend = record { delivered = s.backend.delivered ++ bs; writes = [] } },
  rw writable refl,
  (refl, refl),
)

ip_of-to4 : (ip : List ℕ) {a : List ℕ} → to4 (some ip) ≡ some a → ip_of ip ≡ some ip
unfolding to4
ip_of-to4 [] h = cc
ip_of-to4 (b ∷ bs) h = refl

ip_of-sixteen : (ip : List ℕ) → length ip ≡ 16 → ip_of ip ≡ some ip
ip_of-sixteen [] h = absurd (omega arith)
ip_of-sixteen (b ∷ bs) h = refl

module _ (src dst : TcpAddr) (s : Sockets) (rest : List ℕ) (f : IoError) where
  abbrev port16 : ℕ → ℕ
  port16 p = p % 2 ^ 16

  -- writePPv2 writes a header that a backend reads back as `h`, in front of whatever follows.
  abbrev pub Announces : Header → Type 0
  Announces h =
      (bs : List ℕ) × (t : Sockets) × (write_ppv2 (some src) (some dst) s ≡ (ok tt, t))
      × Gave bs s t
      × (read_header (stream (bs ++ rest) f) ≡ (ok h, stream rest f))

  announces :
      (bs : List ℕ) (wire_header h : Header)
      → s.backend.writes ≡ []
      → header_for (some src) (some dst) ≡ wire_header
      → marshal wire_header ≡ ok bs
      → read_header (stream (bs ++ rest) f) ≡ (ok h, stream rest f)
      → Announces h
  unfolding write_ppv2
  announces bs wire_header h writable chosen written reads =
      let (t, sent, gave) = send_writable bs s writable in
      (bs, t, rw (chosen, written) sent, gave, reads)

  -- For two IPv4 ends, and a backend's socket that takes all writes, the backend reads the
  -- client's address and port, and the proxy's, in front of whatever follows.
  pub write_ppv2-inet :
      (a b : List ℕ)
      → to4 (some src.ip) ≡ some a
      → to4 (some dst.ip) ≡ some b
      → s.backend.writes ≡ []
      → Announces (inet 1 1 (some a) (some b) (port16 src.port) (port16 dst.port))
  write_ppv2-inet a b ea eb writable =
      let (bs, written, reads) =
        read_header-marshal-inet 1 1 (some src.ip) (some dst.ip) (port16 src.port) (port16 dst.port)
          rest f (unfold valid in rw (ea, eb) refl) (omega arith) (omega arith) in
      announces bs (inet 1 1 (some src.ip) (some dst.ip) (port16 src.port) (port16 dst.port)) _
        writable (rw (ip_of-to4 src.ip ea, ip_of-to4 dst.ip eb, ea, eb) refl) written
        (rw (ea, eb) at reads)

  -- For two ends with sixteen-byte addresses that are not IPv4, and a backend's socket that takes
  -- all writes, the backend reads both addresses as they are, and both ports, in front of whatever
  -- follows.
  pub write_ppv2-inet6 :
      (length src.ip ≡ 16) × (length dst.ip ≡ 16)
      → to4 (some src.ip) ≡ none
      → to4 (some dst.ip) ≡ none
      → s.backend.writes ≡ []
      → Announces (inet6 1 1 (some src.ip) (some dst.ip) (port16 src.port) (port16 dst.port))
  write_ppv2-inet6 sizes ea eb writable =
      let (bs, written, reads) =
        read_header-marshal-inet6 1 1 src.ip dst.ip (port16 src.port) (port16 dst.port) rest f
          (unfold valid in rw (ea, eb) refl) sizes (omega arith) (omega arith) in
      announces bs (inet6 1 1 (some src.ip) (some dst.ip) (port16 src.port) (port16 dst.port)) _
        writable (rw (ip_of-sixteen src.ip sizes.0, ip_of-sixteen dst.ip sizes.1, ea, eb) refl)
        written reads
