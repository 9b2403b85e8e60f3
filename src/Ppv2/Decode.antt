-- ===== src/Ppv2/Decode.antt =====
-- ReadHeader: what it takes off the stream, and that it reads back what Marshal wrote.
use proxygo.Base.{
  ℕ, ◌+◌, ◌*◌, ◌%◌, ◌≤◌, ◌<◌, ◌≡◌, ◌≢◌, sym, arith, bit_and, List, [], ◌∷◌, ◌++◌, length, ok, err,
  bytes_beq_iff,
}
use proxygo.Base.Bits.{low_four}
use proxygo.Base.Stream.{IoError, stream, read_full-append}
use proxygo.Ppv2.{io, no_header, invalid, signature, read_header, header_of, max_block}

-- A stream whose first twelve bytes are another text is refused, with nothing else consumed.
pub read_header_no_signature :
    (sig rest : List ℕ) (f : IoError)
    → length sig ≡ 12
    → sig ≢ signature
    → read_header (stream (sig ++ rest) f) ≡ (err no_header, stream rest f)
unfolding read_header
read_header_no_signature sig rest f twelve other =
    rw (sym twelve)
      (rw (read_full-append io sig rest f) (ground (arith, bytes_beq_iff sig signature)))

module _ (x y : ℕ) (block rest : List ℕ) (f : IoError) where
  abbrev fields : List ℕ
  fields = x ∷ y ∷ 0 ∷ length block ∷ []

  -- After the signature and four bytes of fields, ReadHeader takes exactly the block that they
  -- announce.
  pub read_header_block :
      length block ≤ max_block
      → read_header (stream (signature ++ (fields ++ (block ++ rest))) f)
        ≡ (ok (header_of fields block), stream rest f)
  unfolding read_header
  read_header_block small = rw (read_full-append io signature (fields ++ (block ++ rest)) f) (
      rw (read_full-append io fields (block ++ rest) f) (
        let e : 0 + length block ≡ length block = omega arith in
        rw e (ground (arith, read_full-append io block rest f))))

pub read_header_sized :
    (x y n : ℕ) (block rest : List ℕ) (f : IoError)
    → length block ≡ n
    → n ≤ max_block
    → read_header (stream (signature ++ (x ∷ y ∷ 0 ∷ n ∷ (block ++ rest))) f)
      ≡ (ok (header_of (x ∷ y ∷ 0 ∷ n ∷ []) block), stream rest f)
read_header_sized x y n block rest f exact small =
    rw (sym exact) (read_header_block x y block rest f (omega arith))

-- A header that announces more than 36 bytes of addresses is refused before they are read.
pub read_header_too_large :
    (x y hi lo : ℕ) (rest : List ℕ) (f : IoError)
    → max_block < hi * 256 + lo
    → read_header (stream (signature ++ (x ∷ y ∷ hi ∷ lo ∷ rest)) f) ≡ (err invalid, stream rest f)
unfolding read_header
read_header_too_large x y hi lo rest f large =
    rw (read_full-append io signature (x ∷ y ∷ hi ∷ lo ∷ rest) f)
      (rw (read_full-append io (x ∷ y ∷ hi ∷ lo ∷ []) rest f) (ground arith))

-- The version, in the high half of byte 12, is not looked at.
pub read_header_any_version :
    (x z y hi lo : ℕ) (rest : List ℕ) (f : IoError)
    → x % 16 ≡ z % 16
    → read_header (stream (signature ++ (x ∷ y ∷ hi ∷ lo ∷ rest)) f)
      ≡ read_header (stream (signature ++ (z ∷ y ∷ hi ∷ lo ∷ rest)) f)
unfolding read_header header_of
read_header_any_version x z y hi lo rest f same =
    let e : bit_and x 0x0f ≡ bit_and z 0x0f = omega (arith, low_four x, low_four z) in
    rw (read_full-append io signature (x ∷ y ∷ hi ∷ lo ∷ rest) f) (
      rw (read_full-append io signature (z ∷ y ∷ hi ∷ lo ∷ rest) f) (
        rw (read_full-append io (x ∷ y ∷ hi ∷ lo ∷ []) rest f)
          (rw (read_full-append io (z ∷ y ∷ hi ∷ lo ∷ []) rest f) (simp e))))
