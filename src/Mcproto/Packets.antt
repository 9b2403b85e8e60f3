-- ===== src/Mcproto/Packets.antt =====
-- ParseHandshake, MarshalHandshake and ParseLoginName.
use proxygo.Base.{
  ℕ, suc, ◌+◌, ◌*◌, ◌/◌, ◌%◌, ◌^◌, ◌≤◌, ◌<◌, ◌≡◌, refl, ap, ◌∙◌, arith, List, [], ◌∷◌, ◌++◌,
  append-nil, append_assoc, length, length-append, ok,
}
use proxygo.Base.Stream.{IoError, eof, stream, read_full-append}
use proxygo.Mcproto.{
  io, Handshake, handshake_body, handshake_bytes, parse_handshake, marshal_handshake, read_frame,
  max_frame, append_varint, append_string, decode_varint, split_payload, parse_login_name,
}
use proxygo.Mcproto.Varint.{groups, append_varint-groups, length-groups}
use proxygo.Mcproto.Decode.{read_varint-groups, decode_varint-groups}
use proxygo.Mcproto.Strings.{IsShort, append_string-groups, read_string-append_string}
use proxygo.Mcproto.Frames.{read_frame-payload}

-- The fields fit their Go types.
pub record IsValid (h : Handshake) : Type 0 where
  pub protocol_fits : h.protocol < 2 ^ 32
  pub port_fits : h.port < 2 ^ 16
  pub intent_fits : h.intent < 2 ^ 32

abbrev pub port_bytes : Handshake → List ℕ
port_bytes h = h.port / 256 % 256 ∷ h.port % 256 ∷ []

groups_zero : groups 4 0 ≡ 0 ∷ []
unfolding groups
groups_zero = refl

id_zero : append_varint [] 0 ≡ 0 ∷ []
id_zero = append_varint-groups [] 0 (omega arith) ∙ groups_zero

decode_id_zero : (body : List ℕ) → decode_varint (0 ∷ body) ≡ (0, 1)
decode_id_zero body = rw groups_zero at (decode_varint-groups 0 body (omega arith))

module _ (h : Handshake) (host : List ℕ) (valid : IsValid h) (short : IsShort host) where
  abbrev packet : List ℕ
  packet = 0 ∷ handshake_bytes h host

  -- The body is the four fields, one behind the other.
  handshake_bytes-fields :
      handshake_bytes h host
      ≡ groups 4 h.protocol ++ (append_string [] host ++ (port_bytes h ++ groups 4 h.intent))
  unfolding handshake_bytes
  handshake_bytes-fields = simp (
    append_varint-groups [] h.protocol valid.protocol_fits,
    append_string-groups (groups 4 h.protocol) host short,
    append_string-groups [] host short,
    append_varint-groups _ h.intent valid.intent_fits,
    append_assoc,
  )

  read_fields :
      (rest : List ℕ) (f : IoError)
      → handshake_body (stream (handshake_bytes h host ++ rest) f)
        ≡ (ok (record h { host = host }), stream rest f)
  unfolding handshake_body
  read_fields rest f = rw fields_then (
      rw (read_varint-groups h.protocol after_protocol valid.protocol_fits f) (
        rw (read_string-append_string host after_host f short) (
          rw (read_full-append io (port_bytes h) (groups 4 h.intent ++ rest) f) (
            rw (read_varint-groups h.intent rest valid.intent_fits f)
              (ap (λ (p : ℕ). (ok (record h { host = host; port = p }), stream rest f)) port_eq)))))
    where
      after_host : List ℕ
      after_host = port_bytes h ++ (groups 4 h.intent ++ rest)

      after_protocol : List ℕ
      after_protocol = append_string [] host ++ after_host

      fields_then : handshake_bytes h host ++ rest ≡ groups 4 h.protocol ++ after_protocol
      fields_then = simp (handshake_bytes-fields, append_assoc)

      port_eq : h.port / 256 % 256 * 256 + h.port % 256 ≡ h.port
      port_eq = omega (arith, valid.port_fits)

  -- A handshake that MarshalHandshake wrote of fields that fit, with a host shorter than 2^31
  -- bytes, parses to the same protocol, port and intent, with the host that was put in.
  pub parse_handshake-marshal_handshake :
      parse_handshake (marshal_handshake h host) ≡ ok (record h { host = host })
  unfolding parse_handshake marshal_handshake
  parse_handshake-marshal_handshake =
      rw (append-nil (handshake_bytes h host)) at (ap (λ r. r.0) (read_fields [] eof))

  length-handshake_bytes : length (handshake_bytes h host) ≤ length host + 17
  length-handshake_bytes =
      rw (handshake_bytes-fields, append_string-groups [] host short)
        (omega (
          arith,
          length-append (groups 4 h.protocol)
              ((groups 4 (length host) ++ host) ++ (port_bytes h ++ groups 4 h.intent)),
          length-append (groups 4 (length host) ++ host) (port_bytes h ++ groups 4 h.intent),
          length-append (groups 4 (length host)) host,
          length-groups 4 h.protocol,
          length-groups 4 (length host),
          length-groups 4 h.intent,
        ))

  -- The frame is the one that ReadFrame makes of the id 0 and the body.
  framed_packet :
      length host + 18 ≤ max_frame
      → marshal_handshake h host ≡ split_payload (groups 4 (length packet)) packet
  unfolding marshal_handshake
  framed_packet fits = rw (
    id_zero,
    decode_id_zero (handshake_bytes h host),
    small,
    append_varint-groups [] (length packet) (omega (arith, length-handshake_bytes)),
  )
    where
      small : suc (length (handshake_bytes h host)) % 2 ^ 32 ≡ suc (length (handshake_bytes h host))
      small = omega (arith, length-handshake_bytes)

  -- ReadFrame reads the frame that MarshalHandshake wrote of fields that fit back whole, and
  -- leaves what follows, if the host and 18 bytes are within MaxFrame.
  pub read_frame-marshal_handshake :
      (rest : List ℕ) (f : IoError)
      → length host + 18 ≤ max_frame
      → read_frame (stream ((marshal_handshake h host).raw ++ rest) f)
        ≡ (ok (marshal_handshake h host), stream rest f)
  read_frame-marshal_handshake rest f fits = rw (framed_packet fits) (
      rw (append_assoc (groups 4 (length packet)) packet rest)
        (read_frame-payload packet rest f (omega arith) (omega (arith, length-handshake_bytes))))

-- A login-start packet whose body begins with a name shorter than 2^31 bytes gives that name.
pub parse_login_name-append_string :
    (name rest raw : List ℕ)
    → IsShort name
    → parse_login_name (record { id = 0; body = append_string [] name ++ rest; raw = raw })
      ≡ ok name
unfolding parse_login_name
parse_login_name-append_string name rest raw h =
    ap (λ r. r.0) (read_string-append_string name rest eof h)
