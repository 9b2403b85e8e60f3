-- ===== src/Ppv2.antt =====
-- pkg/ppv2/ppv2.go: the binary header of the PROXY protocol, version 2.
-- Bytes and ports are numbers; a net.IP is a list of bytes, and its nil is `none`.
pub mod Encode
pub mod Decode
pub mod RoundTrip
pub mod Outcomes
mod Tests
use proxygo.Base.{
  ℕ, zero, suc, ◌+◌, ◌*◌, ◌/◌, ◌%◌, bit_and, bit_or, Bool, true, false, not, ◌&&◌, ◌||◌, Option,
  none, some, List, [], ◌∷◌, ◌++◌, leb, ltb, ◌==◌, if◌then◌else◌, length, get_or, take, drop,
  replicate, bytes_beq, Result, ok, err, panics, ◌>>=◌,
}
use proxygo.Base.Buffer.{copy_at, put_uint16}
use proxygo.Base.Stream.{Stream, Reader, IoError, return, fail, read_full}
use proxygo.Base.Stream

abbrev pub signature : List ℕ
signature = 0x0D ∷ 0x0A ∷ 0x0D ∷ 0x0A ∷ 0x00 ∷ 0x0D ∷ 0x0A ∷ 0x51 ∷ 0x55 ∷ 0x49 ∷ 0x54 ∷ 0x0A ∷ []

abbrev pub command_local : ℕ
command_local = 0

abbrev pub command_proxy : ℕ
command_proxy = 1

abbrev pub family_unspec : ℕ
family_unspec = 0

abbrev pub family_inet : ℕ
family_inet = 1

abbrev pub family_inet6 : ℕ
family_inet6 = 2

abbrev pub protocol_unspec : ℕ
protocol_unspec = 0

abbrev pub protocol_stream : ℕ
protocol_stream = 1

abbrev pub protocol_dgram : ℕ
protocol_dgram = 2

-- ErrNoHeader, ErrInvalid, and what the reader reports.
pub data Error : Type 0 where
  no_header invalid : Error
  io : IoError → Error

abbrev pub Ip : Type 0
Ip = Option (List ℕ)

abbrev pub is_nil : Ip → Bool
is_nil none = true
is_nil (some bs) = false

pub record Header : Type 0 where
  pub command : ℕ
  pub family : ℕ
  pub protocol : ℕ
  pub source_addr : Ip
  pub dest_addr : Ip
  pub source_port : ℕ
  pub dest_port : ℕ

-- ---------- net.IP

abbrev pub v4_prefix : List ℕ
v4_prefix = 0 ∷ 0 ∷ 0 ∷ 0 ∷ 0 ∷ 0 ∷ 0 ∷ 0 ∷ 0 ∷ 0 ∷ 0xff ∷ 0xff ∷ []

abbrev pub bytes_to4 : List ℕ → Ip
bytes_to4 bs =
    if length bs == 4
    then some bs
    else if length bs == 16 && bytes_beq (take 12 bs) v4_prefix
    then some (drop 12 bs)
    else none

-- (net.IP).To4 and To16.
unfoldable pub to4 : Ip → Ip
to4 none = none
to4 (some bs) = bytes_to4 bs

unfoldable pub to16 : Ip → Ip
to16 none = none
to16 (some bs) =
    if length bs == 4 then some (v4_prefix ++ bs) else if length bs == 16 then some bs else none

-- ---------- validation and encoding

abbrev pub address_block_len : ℕ → ℕ
address_block_len family =
    if family == family_inet then 12 else if family == family_inet6 then 36 else 0

unfoldable pub size : Header → ℕ
size h = 12 + 2 + address_block_len h.family

abbrev pub protocol_ok : ℕ → ℕ → Bool
protocol_ok protocol family =
    if protocol == protocol_stream || protocol == protocol_dgram
    then true
    else protocol == protocol_unspec && family == family_unspec

abbrev pub addresses_ok : ℕ → Ip → Ip → Bool
addresses_ok family src dst =
    if family == family_unspec
    then is_nil src && is_nil dst
    else if family == family_inet
    then not (is_nil src) && not (is_nil dst) && not (is_nil (to4 src)) && not (is_nil (to4 dst))
    else if family == family_inet6
    then not (is_nil src) && not (is_nil dst) && is_nil (to4 src) && is_nil (to4 dst)
    else false

unfoldable pub valid : Header → Bool
valid h =
    (h.command == command_local || h.command == command_proxy)
    && protocol_ok h.protocol h.family
    && addresses_ok h.family h.source_addr h.dest_addr

-- `copy` of a nil slice copies nothing.
abbrev copy_ip : List ℕ → ℕ → Ip → List ℕ
copy_ip buf off none = buf
copy_ip buf off (some bs) = copy_at buf off bs

-- The buffer and the offset behind the address.
unfoldable pub write_ip : List ℕ × ℕ → Ip → ℕ → List ℕ × ℕ
write_ip (buf, off) ip n = (
  (if is_nil ip
      then buf
      else if n == 4
      then copy_ip buf off (to4 ip)
      else copy_ip buf off (to16 ip)),
  off + n,
)

abbrev pub write_addresses : List ℕ → Header → List ℕ × ℕ
write_addresses buf h =
    if h.family == family_inet
    then write_ip (write_ip (buf, 16) h.source_addr 4) h.dest_addr 4
    else if h.family == family_inet6
    then write_ip (write_ip (buf, 16) h.source_addr 16) h.dest_addr 16
    else (buf, 16)

abbrev pub first_bytes : Header → List ℕ
first_bytes h =
    bit_or (2 * 16) (bit_and h.command 0x0f)
    ∷ bit_or (bit_and h.family 0x0f * 16) (bit_and h.protocol 0x0f)
    ∷ []

unfoldable pub marshal : Header → Result Error (List ℕ)
marshal h =
    if valid h
    then (do
      let n = address_block_len h.family
      let buf = copy_at (copy_at (replicate (16 + n) 0) 0 signature) 12 (first_bytes h)
      buf ← put_uint16 buf 14 n
      let placed = write_addresses buf h
      buf ← put_uint16 placed.0 placed.1 h.source_port
      put_uint16 buf (placed.1 + 2) h.dest_port)
    else err invalid

-- ---------- decoding

abbrev pub max_block : ℕ
max_block = 36

abbrev pub uint16_at : List ℕ → ℕ → ℕ
uint16_at bs i = get_or bs i 0 * 256 + get_or bs (i + 1) 0

abbrev pub net_ipv4 : List ℕ → Ip
net_ipv4 bs = some (v4_prefix ++ take 4 bs)

unfoldable pub header_of : List ℕ → List ℕ → Header
header_of first block =
    let family = get_or first 1 0 / 16 in
    let plain : Header = record {
      command = bit_and (get_or first 0 0) 0x0f;
      family = family;
      protocol = bit_and (get_or first 1 0) 0x0f;
      source_addr = none;
      dest_addr = none;
      source_port = 0;
      dest_port = 0;
    } in
    if family == family_inet && leb 12 (length block)
    then record plain {
      source_addr = to4 (net_ipv4 block);
      dest_addr = to4 (net_ipv4 (drop 4 block));
      source_port = uint16_at block 8;
      dest_port = uint16_at block 10;
    }
    else if family == family_inet6 && leb 36 (length block)
    then record plain {
      source_addr = some (take 16 block);
      dest_addr = some (take 16 (drop 16 block));
      source_port = uint16_at block 32;
      dest_port = uint16_at block 34;
    }
    else plain

-- What follows the signature.
unfoldable pub read_rest : Reader Error Header
read_rest = Stream.◌>>=◌ (read_full io 4) λ first.
    let n = uint16_at first 2 in
    if ltb max_block n
    then fail invalid
    else (Stream.◌>>=◌ (read_full io n) λ block. return (header_of first block))

unfoldable pub read_header : Reader Error Header
unfolding read_rest
read_header =
    Stream.◌>>=◌ (read_full io 12)
      λ sig. if bytes_beq sig signature then read_rest else fail no_header
