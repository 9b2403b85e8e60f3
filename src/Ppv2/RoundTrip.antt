-- ===== src/Ppv2/RoundTrip.antt =====
-- ReadHeader reads back what Marshal wrote.
use proxygo.Base.{
  ℕ, ◌+◌, ◌*◌, ◌/◌, ◌%◌, ◌^◌, ◌<◌, ◌≡◌, ap, ◌∙◌, arith, bit_and, bit_or, true, some, List, [], ◌∷◌,
  ◌++◌, length, length-append, ok, get_or, take, drop, take_front, drop_front, get_or-append,
}
use proxygo.Base.Bits.{low_four, bit_or_above}
use proxygo.Base.Buffer.{be_bytes}
use proxygo.Base.Stream.{IoError, stream}
use proxygo.Ppv2.{
  Ip, Header, to4, to16, first_bytes, read_header, header_of, uint16_at, v4_prefix, marshal, valid,
  family_inet, family_inet6,
}
use proxygo.Ppv2.Encode.{with_family, wire, marshal_inet, marshal_inet6, to4_four}
use proxygo.Ppv2.Decode.{read_header_sized}

uint16-be : (p : ℕ) → p < 2 ^ 16 → p / 256 % 256 * 256 + p % 256 ≡ p
uint16-be p h = omega arith

-- `net.IPv4(…).To4()` gives the four bytes back.
to4-mapped : (a : List ℕ) → length a ≡ 4 → to4 (some (v4_prefix ++ a)) ≡ some a
unfolding to4
to4-mapped a h = rw h

-- Where the two addresses of `n` bytes and the ports are found in a block.
record Block (block a b : List ℕ) (n sp dp : ℕ) : Type 0 where
  pub source : take n block ≡ a
  pub dest : take n (drop n block) ≡ b
  pub source_port : uint16_at block (n + n) ≡ sp
  pub dest_port : uint16_at block (n + n + 2) ≡ dp
  pub size : length block ≡ n + n + 4

module _ (a b : List ℕ) (n sp dp : ℕ) (la : length a ≡ n) (lb : length b ≡ n) (hs : sp < 2 ^ 16)
    (hd : dp < 2 ^ 16) where
  abbrev block_of : List ℕ
  block_of = a ++ (b ++ (be_bytes sp ++ be_bytes dp))

  byte_at :
      (m i : ℕ) → m ≡ n + n + i → get_or block_of m 0 ≡ get_or (be_bytes sp ++ be_bytes dp) i 0
  byte_at m i e =
      get_or-append a _ m (n + i) 0 (omega arith) ∙ get_or-append b _ (n + i) i 0 (omega arith)

  block_of-Block : Block block_of a b n sp dp
  block_of-Block = record {
    source = take_front n a _ la;
    dest = rw (drop_front n a _ la) (take_front n b _ lb);
    source_port =
        rw (byte_at (n + n) 0 (omega arith))
          (rw (byte_at (n + n + 1) 1 (omega arith)) (uint16-be sp hs));
    dest_port =
        rw (byte_at (n + n + 2) 2 (omega arith))
          (rw (byte_at (n + n + 2 + 1) 3 (omega arith)) (uint16-be dp hd));
    size = omega (
      arith,
      la,
      lb,
      length-append a (b ++ (be_bytes sp ++ be_bytes dp)),
      length-append b (be_bytes sp ++ be_bytes dp),
    );
  }

-- Two fields of four bits in a byte, put together and taken apart.
nibbles : (hi lo : ℕ) → bit_or (hi * 16) (bit_and lo 0x0f) ≡ hi * 16 + lo % 16
nibbles hi lo = rw (low_four lo) (bit_or_above 4 hi (lo % 16) (omega arith))

-- What Marshal's two bytes of fields say.
command_byte :
    (command : ℕ) → command < 16 → bit_and (bit_or 32 (bit_and command 0x0f)) 0x0f ≡ command
command_byte command h = rw (nibbles 2 command, low_four) (omega arith)

family_half :
    (family protocol : ℕ)
    → family < 16
    → bit_or (bit_and family 0x0f * 16) (bit_and protocol 0x0f) / 16 ≡ family
family_half family protocol h =
    rw (nibbles (bit_and family 0x0f) protocol) (omega (arith, low_four family))

protocol_half :
    (family protocol : ℕ)
    → protocol < 16
    → bit_and (bit_or (bit_and family 0x0f * 16) (bit_and protocol 0x0f)) 0x0f ≡ protocol
protocol_half family protocol h =
    rw (nibbles (bit_and family 0x0f) protocol, low_four) (omega arith)

module _ (command protocol : ℕ) (src dst : Ip) (source_port dest_port : ℕ) where
  abbrev pub inet : Header
  inet = with_family command protocol src dst source_port dest_port family_inet

  abbrev pub inet6 : Header
  inet6 = with_family command protocol src dst source_port dest_port family_inet6

  valid_fields :
      (family : ℕ)
      → valid (with_family command protocol src dst source_port dest_port family) ≡ true
      → (command < 16) × (protocol < 16)
  unfolding valid
  valid_fields family v = ground arith

  pub valid-inet :
      valid inet ≡ true → (a : List ℕ) × (b : List ℕ) × (to4 src ≡ some a) × (to4 dst ≡ some b)
  unfolding valid
  valid-inet v = ground arith

  header_of-inet :
      (a b block : List ℕ) (n : ℕ)
      → valid inet ≡ true
      → (length a ≡ 4) × (length b ≡ 4)
      → Block block a b 4 source_port dest_port
      → header_of (first_bytes inet ++ (0 ∷ n ∷ [])) block
        ≡ record inet { source_addr = some a; dest_addr = some b }
  unfolding header_of
  header_of-inet a b block n v (la, lb) at = simp (
    command_byte command (valid_fields 1 v).0,
    family_half 1 protocol (omega arith),
    protocol_half 1 protocol (valid_fields 1 v).1,
    at.size,
    at.source,
    at.dest,
    at.source_port,
    at.dest_port,
    to4-mapped a la,
    to4-mapped b lb,
  )

  header_of-inet6 :
      (a b block : List ℕ) (n : ℕ)
      → valid inet6 ≡ true
      → Block block a b 16 source_port dest_port
      → header_of (first_bytes inet6 ++ (0 ∷ n ∷ [])) block
        ≡ record inet6 { source_addr = some a; dest_addr = some b }
  unfolding header_of
  header_of-inet6 a b block n v at = simp (
    command_byte command (valid_fields 2 v).0,
    family_half 2 protocol (omega arith),
    protocol_half 2 protocol (valid_fields 2 v).1,
    at.size,
    at.source,
    at.dest,
    at.source_port,
    at.dest_port,
  )

  module _ (a b rest : List ℕ) (f : IoError) (hs : source_port < 2 ^ 16)
      (hd : dest_port < 2 ^ 16) where
    read_wire-inet :
        valid inet ≡ true
        → (length a ≡ 4) × (length b ≡ 4)
        → read_header (
            stream
              (wire command protocol src dst source_port dest_port family_inet 12 a b ++ rest)
              f)
          ≡ (ok (record inet { source_addr = some a; dest_addr = some b }), stream rest f)
    read_wire-inet v l =
        let at = block_of-Block a b 4 source_port dest_port l.0 l.1 hs hd in
        read_header_sized _ _ 12 (block_of a b 4 source_port dest_port l.0 l.1 hs hd) rest f at.size
          (omega arith)
        ∙ ap (λ (h : Header). (ok h, stream rest f)) (header_of-inet a b _ 12 v l at)

    read_wire-inet6 :
        valid inet6 ≡ true
        → (length a ≡ 16) × (length b ≡ 16)
        → read_header (
            stream
              (wire command protocol src dst source_port dest_port family_inet6 36 a b ++ rest)
              f)
          ≡ (ok (record inet6 { source_addr = some a; dest_addr = some b }), stream rest f)
    read_wire-inet6 v l =
        let at = block_of-Block a b 16 source_port dest_port l.0 l.1 hs hd in
        read_header_sized _ _ 36 (block_of a b 16 source_port dest_port l.0 l.1 hs hd) rest f
          at.size (omega arith)
        ∙ ap (λ (h : Header). (ok h, stream rest f)) (header_of-inet6 a b _ 36 v at)

  -- A valid IPv4 header whose ports fit comes back from the wire with its addresses in their
  -- four-byte form, and what follows it stays on the stream.
  pub read_header-marshal-inet :
      (rest : List ℕ) (f : IoError)
      → valid inet ≡ true
      → source_port < 2 ^ 16
      → dest_port < 2 ^ 16
      → (bs : List ℕ) × (marshal inet ≡ ok bs)
        × (read_header (stream (bs ++ rest) f)
            ≡ (ok (record inet { source_addr = to4 src; dest_addr = to4 dst }), stream rest f))
  read_header-marshal-inet rest f v hs hd =
      let (a, b, ea, eb) = valid-inet v in
      (
        wire command protocol src dst source_port dest_port family_inet 12 a b,
        marshal_inet command protocol src dst source_port dest_port a b v ea eb,
        rw (ea, eb) (read_wire-inet a b rest f hs hd v (to4_four src a ea, to4_four dst b eb)),
      )

to16-sixteen : (a : List ℕ) → length a ≡ 16 → to16 (some a) ≡ some a
unfolding to16
to16-sixteen a h = rw h

-- A valid header with two addresses of sixteen bytes comes back from the wire unchanged, and what
-- follows it stays on the stream.
pub read_header-marshal-inet6 :
    (command protocol : ℕ) (a b : List ℕ) (source_port dest_port : ℕ) (rest : List ℕ) (f : IoError)
    → valid (inet6 command protocol (some a) (some b) source_port dest_port) ≡ true
    → (length a ≡ 16) × (length b ≡ 16)
    → source_port < 2 ^ 16
    → dest_port < 2 ^ 16
    → (bs : List ℕ) × (marshal (inet6 command protocol (some a) (some b) source_port dest_port)
        ≡ ok bs)
      × (read_header (stream (bs ++ rest) f)
          ≡ (ok (inet6 command protocol (some a) (some b) source_port dest_port), stream rest f))
read_header-marshal-inet6 command protocol a b source_port dest_port rest f v l hs hd = (
  wire command protocol (some a) (some b) source_port dest_port family_inet6 36 a b,
  marshal_inet6 command protocol (some a) (some b) source_port dest_port a b v (to16-sixteen a l.0)
      (to16-sixteen b l.1),
  read_wire-inet6 command protocol (some a) (some b) source_port dest_port a b rest f hs hd v l,
)
