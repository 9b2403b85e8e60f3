-- ===== src/Mcproto.antt =====
-- pkg/mcproto/mcproto.go: frames, the handshake and login-start packets, varints and strings.
-- An int32 is its bit pattern, a number below 2^32; a string is a list of bytes.
pub mod Varint
pub mod Decode
pub mod Strings
pub mod Frames
pub mod Packets
pub mod Uuid
mod Tests
use proxygo.Base.{
  ℕ, zero, suc, ◌+◌, ◌-◌, ◌*◌, ◌/◌, ◌%◌, ◌^◌, ◌<◌, bit_and, bit_or, arith, Bool, ◌||◌, List, [],
  ◌∷◌, ◌++◌, ltb, leb, ◌==◌, if◌then◌else◌, length, get_or, drop, Result, ok, err, panics,
}
use proxygo.Base.Stream.{
  Stream, Reader, IoError, ◌>>=◌, return, fail, read_full, read_byte, bytes_reader,
}
use proxygo.Base.Accessible.{lt_wf}
use proxygo.Base.Text.{codes, hex_byte}
use mathlib.Core.Logic.{dite}
use mathlib.Core.WellFounded.{Acc}
use native.Mathlib.Decide.{dec_lt}

pub data Error : Type 0 where
  io : IoError → Error
  length_too_long varint_too_long not_handshake not_login_start string_overruns : Error
  bad_frame_length : ℕ → Error

pub record Frame : Type 0 where
  pub id : ℕ
  pub body : List ℕ
  pub raw : List ℕ

pub record Handshake : Type 0 where
  pub protocol : ℕ
  pub host : List ℕ
  pub port : ℕ
  pub intent : ℕ

abbrev pub max_frame : ℕ
max_frame = 65536

-- A bit pattern that stands for a negative int32.
abbrev pub is_negative : ℕ → Bool
is_negative w = leb (2 ^ 31) w

-- ---------- varint / string codec

-- `v |= int32(b&0x7F) << (7 * uint(i))`
unfoldable pub or_group : ℕ → ℕ → ℕ → ℕ
or_group v b i = bit_or v (bit_and b 0x7f * 2 ^ (7 * i) % 2 ^ 32)

-- `b&0x80 == 0`
abbrev pub is_last : ℕ → Bool
is_last b = bit_and b 0x80 == 0

-- The rounds left, the index `i`, and what is left of the slice. `(0, 0)` stands for no varint.
unfoldable pub decode_loop : ℕ → ℕ → ℕ → List ℕ → ℕ × ℕ
decode_loop zero i v bs = (0, 0)
decode_loop (suc left) i v [] = (0, 0)
decode_loop (suc left) i v (b ∷ bs) =
    let more = decode_loop left (i + 1) (or_group v b i) bs in
    if is_last b then (or_group v b i, i + 1) else more

unfoldable pub decode_varint : List ℕ → ℕ × ℕ
decode_varint bs = decode_loop 5 0 0 bs

unfoldable pub read_varint_loop : ℕ → ℕ → ℕ → Reader Error ℕ
read_varint_loop zero i v = fail varint_too_long
read_varint_loop (suc left) i v = do
  b ← read_byte io
  let more = read_varint_loop left (i + 1) (or_group v b i)
  if is_last b then return (or_group v b i) else more

unfoldable pub read_varint : Reader Error ℕ
read_varint = read_varint_loop 5 0 0

pub next_group-lt : (u : ℕ) → 0 < u / 128 → u / 128 < u
next_group-lt u h = omega arith

-- `u >>= 7` falls until it is 0, which ends the loop.
unfoldable pub append_varint_loop : List ℕ → (u : ℕ) → Acc ◌<◌ u → List ℕ
append_varint_loop b u (Acc.intro _ below) =
    let bb = bit_and u 0x7f % 256 in
    dite (dec_lt 0 (u / 128))
      (λ more.
        append_varint_loop (b ++ (bit_or bb 0x80 ∷ [])) (u / 128) (below _ (next_group-lt u more)))
      (λ _. b ++ (bb ∷ []))

unfoldable pub append_varint : List ℕ → ℕ → List ℕ
append_varint b v = append_varint_loop b v (lt_wf.apply v)

-- `n < 0 || int64(n) > int64(r.Len())`, or the next `n` bytes.
unfoldable pub read_counted : ℕ → Reader Error (List ℕ)
read_counted n s =
    if is_negative n || ltb (length s.pending) n then fail string_overruns s else read_full io n s

unfoldable pub read_string : Reader Error (List ℕ)
read_string = do n ← read_varint; read_counted n

-- Lengths stay below 2^31, so `int32(len(s))` is the length.
unfoldable pub append_string : List ℕ → List ℕ → List ℕ
append_string b s = append_varint b (length s % 2 ^ 32) ++ s

-- ---------- frames

-- The loop that reads the length prefix byte by byte, with what it has read so far.
unfoldable pub frame_length : ℕ → ℕ → ℕ → List ℕ → Reader Error (ℕ × List ℕ)
frame_length zero i v seen = fail length_too_long
frame_length (suc left) i v seen = do
  bs ← read_full io 1
  let b = get_or bs 0 0
  let more = frame_length left (i + 1) (or_group v b i) (seen ++ (b ∷ []))
  if is_last b then return (or_group v b i, seen ++ (b ∷ [])) else more

-- `length <= 0 || length > MaxFrame`
abbrev pub bad_length : ℕ → Bool
bad_length n = is_negative n || n == 0 || ltb max_frame n

abbrev pub split_payload : List ℕ → List ℕ → Frame
split_payload prefix payload =
    let decoded = decode_varint payload in
    record { id = decoded.0; body = drop decoded.1 payload; raw = prefix ++ payload }

unfoldable pub read_frame : Reader Error Frame
read_frame = do
  (n, prefix) ← frame_length 5 0 0 []
  if bad_length n
      then fail (bad_frame_length n)
      else do payload ← read_full io n; return (split_payload prefix payload)

-- ---------- packets

-- Any failure of a field is reported as ErrNotHandshake.
abbrev pub hide_cause {ℓ} : {A : Type ℓ} → Result Error A × Stream → Result Error A × Stream
hide_cause (ok a, t) = (ok a, t)
hide_cause (err e, t) = (err not_handshake, t)
hide_cause (panics, t) = (panics, t)

abbrev pub or_not_handshake {ℓ} : {A : Type ℓ} → Reader Error A → Reader Error A
or_not_handshake m s = hide_cause (m s)

unfoldable pub handshake_body : Reader Error Handshake
handshake_body = do
  protocol ← or_not_handshake read_varint
  host ← or_not_handshake read_string
  port ← or_not_handshake (read_full io 2)
  intent ← or_not_handshake read_varint
  return (record {
    protocol = protocol;
    host = host;
    port = get_or port 0 0 * 256 + get_or port 1 0;
    intent = intent;
  })

unfoldable pub parse_handshake : Frame → Result Error Handshake
parse_handshake f =
    if f.id == 0 then (handshake_body (bytes_reader f.body)).0 else err not_handshake

-- The body that MarshalHandshake writes.
unfoldable pub handshake_bytes : Handshake → List ℕ → List ℕ
handshake_bytes h host =
    append_varint
      (append_string (append_varint [] h.protocol) host ++ (h.port / 256 % 256 ∷ h.port % 256 ∷ []))
      h.intent

unfoldable pub marshal_handshake : Handshake → List ℕ → Frame
marshal_handshake h host =
    let body = handshake_bytes h host in
    let payload = append_varint [] 0 ++ body in
    record { id = 0; body = body; raw = append_varint [] (length payload % 2 ^ 32) ++ payload }

unfoldable pub parse_login_name : Frame → Result Error (List ℕ)
parse_login_name f =
    if f.id == 0 then (read_string (bytes_reader f.body)).0 else err not_login_start

-- ---------- offline UUID

-- A [16]byte is the function that answers its elements; `md5` is crypto/md5's Sum.
abbrev pub Digest : Type 0
Digest = ℕ → ℕ

abbrev put_at : ℕ → ℕ → Digest → Digest
put_at i v sum j = if i == j then v else sum j

-- `%x` of the `n` bytes from `lo` on, in front of `rest`.
unfoldable pub hex_range : Digest → ℕ → ℕ → List ℕ → List ℕ
hex_range sum zero lo rest = rest
hex_range sum (suc n) lo rest = hex_byte (sum lo) (hex_range sum n (lo + 1) rest)

abbrev pub versioned : Digest → Digest
versioned sum =
    let sum6 = put_at 6 (bit_or (bit_and (sum 6) 0x0f) 0x30) sum in
    put_at 8 (bit_or (bit_and (sum6 8) 0x3f) 0x80) sum6

unfoldable pub format_uuid : Digest → List ℕ
unfolding hex_range
format_uuid sum = hex_range sum 4 0 (
    b'-'
    ∷ hex_range sum 2 4
        (b'-' ∷ hex_range sum 2 6 (b'-' ∷ hex_range sum 2 8 (b'-' ∷ hex_range sum 6 10 []))))

unfoldable pub offline_uuid : (List ℕ → Digest) → List ℕ → List ℕ
unfolding format_uuid
offline_uuid md5 name = format_uuid (versioned (md5 (codes "OfflinePlayer:" ++ name)))
