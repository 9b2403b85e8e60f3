-- ===== src/Mcproto/Decode.antt =====
-- The three loops that read a varint back: decodeVarint, readVarint and the length of ReadFrame.
use proxygo.Base.{
  ℕ, suc, ◌+◌, ◌*◌, ◌^◌, ◌<◌, ◌≡◌, ◌∙◌, arith, true, false, List, [], ◌∷◌, ◌++◌, length, ok,
}
use proxygo.Base.Stream.{IoError, stream, read_byte, read_full_one}
use proxygo.Mcproto.{
  io, or_group, is_last, decode_loop, decode_varint, read_varint_loop, read_varint, append_varint,
  frame_length,
}
use proxygo.Mcproto.Varint.{groups, append_varint-groups, loop-groups, Progress-start}

start_value : (v : ℕ) → 0 + v * 2 ^ (7 * 0) ≡ v
start_value v = omega arith

module _ (f : IoError) where
  read_last :
      (left i acc b : ℕ) (seen bs : List ℕ)
      → is_last b ≡ true
      → read_varint_loop (suc left) i acc (stream (b ∷ bs) f) ≡ (ok (or_group acc b i), stream bs f)
  unfolding read_varint_loop read_byte
  read_last left i acc b seen bs e = rw e

  read_marked :
      (left i acc b : ℕ) (seen bs : List ℕ)
      → is_last b ≡ false
      → read_varint_loop (suc left) i acc (stream (b ∷ bs) f)
        ≡ read_varint_loop left (i + 1) (or_group acc b i) (stream bs f)
  unfolding read_varint_loop read_byte
  read_marked left i acc b seen bs e = rw e

  length_last :
      (left i acc b : ℕ) (seen bs : List ℕ)
      → is_last b ≡ true
      → frame_length (suc left) i acc seen (stream (b ∷ bs) f)
        ≡ (ok (or_group acc b i, seen ++ (b ∷ [])), stream bs f)
  unfolding frame_length
  length_last left i acc b seen bs e = rw (read_full_one io b bs f, e)

  length_marked :
      (left i acc b : ℕ) (seen bs : List ℕ)
      → is_last b ≡ false
      → frame_length (suc left) i acc seen (stream (b ∷ bs) f)
        ≡ frame_length left (i + 1) (or_group acc b i) (seen ++ (b ∷ [])) (stream bs f)
  unfolding frame_length
  length_marked left i acc b seen bs e = rw (read_full_one io b bs f, e)

decode_last :
    (left i acc b : ℕ) (seen bs : List ℕ)
    → is_last b ≡ true
    → decode_loop (suc left) i acc (b ∷ bs) ≡ (or_group acc b i, i + 1)
unfolding decode_loop
decode_last left i acc b seen bs e = rw e

decode_marked :
    (left i acc b : ℕ) (seen bs : List ℕ)
    → is_last b ≡ false
    → decode_loop (suc left) i acc (b ∷ bs) ≡ decode_loop left (i + 1) (or_group acc b i) bs
unfolding decode_loop
decode_marked left i acc b seen bs e = rw e

module _ (v : ℕ) (rest : List ℕ) (small : v < 2 ^ 32) where
  -- ReadFrame's loop reads the prefix that MarshalHandshake wrote, and keeps its bytes.
  pub frame_length-groups :
      (f : IoError)
      → frame_length 5 0 0 [] (stream (groups 4 v ++ rest) f) ≡ (ok (v, groups 4 v), stream rest f)
  frame_length-groups f = rw (start_value v) at (
      loop-groups (λ left i acc seen bs. frame_length left i acc seen (stream bs f))
        (λ n u seen bs. (ok (u, seen), stream bs f)) (length_last f) (length_marked f) 4 0 0 v []
        rest (omega arith) (Progress-start v small))

  -- decodeVarint reads back what appendVarint wrote, and says how many bytes that took.
  pub decode_varint-groups : decode_varint (groups 4 v ++ rest) ≡ (v, length (groups 4 v))
  unfolding decode_varint
  decode_varint-groups =
      loop-groups (λ left i acc seen bs. decode_loop left i acc bs) (λ n u seen bs. (u, n))
        decode_last decode_marked 4 0 0 v [] rest (omega arith) (Progress-start v small)
      ∙ ground arith

  pub read_varint-groups :
      (f : IoError) → read_varint (stream (groups 4 v ++ rest) f) ≡ (ok v, stream rest f)
  unfolding read_varint
  read_varint-groups f = rw (start_value v) at (
      loop-groups (λ left i acc seen bs. read_varint_loop left i acc (stream bs f))
        (λ n u seen bs. (ok u, stream bs f)) (read_last f) (read_marked f) 4 0 0 v [] rest
        (omega arith) (Progress-start v small))

  -- readVarint reads back the int32 that appendVarint wrote, and leaves what follows.
  pub read_varint-append_varint :
      (f : IoError) → read_varint (stream (append_varint [] v ++ rest) f) ≡ (ok v, stream rest f)
  read_varint-append_varint f = rw (append_varint-groups [] v small) (read_varint-groups f)
