-- ===== src/Mcproto/Tests.antt =====
-- Concrete runs, and the theorems at concrete inputs.
use proxygo.Base.{ℕ, ◌+◌, ◌%◌, ◌≤◌, ◌<◌, ◌≡◌, refl, arith, List, [], ◌∷◌, ◌++◌, length, ok}
use proxygo.Base.Stream.{eof, stream, read_full}
use proxygo.Base.Accessible.{lt_wf}
use proxygo.Base.Text.{codes}
use proxygo.Mcproto.{
  Frame, Handshake, max_frame, read_frame, frame_length, or_group, decode_varint, decode_loop,
  append_varint, append_varint_loop, marshal_handshake, Digest,
}
use proxygo.Mcproto.Frames.{read_frame_splits}
use proxygo.Mcproto.Packets.{IsValid, read_frame-marshal_handshake}
use native.Mathlib.Decide.{dec_lt}

abbrev login : Handshake
login = record { protocol = 763; host = codes "localhost"; port = 25565; intent = 2 }

abbrev login-IsValid : IsValid login
login-IsValid = omega arith

varint_300 : append_varint [] 300 ≡ 0xac ∷ 0x02 ∷ []
unfolding append_varint append_varint_loop lt_wf dec_lt
varint_300 = refl

-- A negative int32 takes five bytes.
varint_minus_one : append_varint [] 0xffff_ffff ≡ 0xff ∷ 0xff ∷ 0xff ∷ 0xff ∷ 0x0f ∷ []
unfolding append_varint append_varint_loop lt_wf dec_lt
varint_minus_one = refl

-- A frame of an unfinished packet id counts as a packet with id 0 and the whole payload as body.
unfinished_id :
    read_frame (stream (1 ∷ 0x80 ∷ []) eof)
    ≡ (ok (record { id = 0; body = 0x80 ∷ []; raw = 1 ∷ 0x80 ∷ [] }), stream [] eof)
unfolding read_frame frame_length read_full or_group decode_varint decode_loop
unfinished_id = refl

two_bytes : Frame
two_bytes = record { id = 5; body = 9 ∷ []; raw = 2 ∷ 5 ∷ 9 ∷ [] }

two_bytes_read : read_frame (stream (2 ∷ 5 ∷ 9 ∷ 8 ∷ []) eof) ≡ (ok two_bytes, stream (8 ∷ []) eof)
unfolding two_bytes read_frame frame_length read_full or_group decode_varint decode_loop
two_bytes_read = refl

read_frame_splits_example :
    (two_bytes.raw ++ (8 ∷ []) ≡ 2 ∷ 5 ∷ 9 ∷ 8 ∷ [])
    × (eof ≡ eof)
    × (length two_bytes.raw ≤ 5 + max_frame)
    × (length two_bytes.body < length two_bytes.raw)
read_frame_splits_example =
    read_frame_splits (stream (2 ∷ 5 ∷ 9 ∷ 8 ∷ []) eof) two_bytes (stream (8 ∷ []) eof)
      two_bytes_read

read_frame-marshal_handshake_example :
    read_frame (stream ((marshal_handshake login (codes "host")).raw ++ (1 ∷ [])) eof)
    ≡ (ok (marshal_handshake login (codes "host")), stream (1 ∷ []) eof)
read_frame-marshal_handshake_example =
    read_frame-marshal_handshake login (codes "host") login-IsValid (omega arith) (1 ∷ []) eof
      (omega arith)

-- A stand-in for MD5.
abbrev length_digest : List ℕ → Digest
length_digest m i = (length m + i) % 256

length_digest-byte : (m : List ℕ) (i : ℕ) → length_digest m i < 256
length_digest-byte m i = omega arith
