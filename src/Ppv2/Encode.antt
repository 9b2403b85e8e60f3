-- ===== src/Ppv2/Encode.antt =====
-- What Marshal writes for each family, and where it panics.
use proxygo.Base.{
  ℕ, ◌+◌, ◌≡◌, refl, arith, true, none, some, List, [], ◌∷◌, ◌++◌, length, ok, panics, length-drop,
  replicate,
}
use proxygo.Base.Buffer.{copy_at, put_uint16, be_bytes, fill_block}
use proxygo.Ppv2.{
  Ip, Header, Error, to4, to16, signature, first_bytes, valid, write_ip, write_addresses, marshal,
  family_inet, family_inet6, family_unspec,
}

-- An address that To4 returns has four bytes.
pub to4_four : (ip : Ip) (bs : List ℕ) → to4 ip ≡ some bs → length bs ≡ 4
unfolding to4
to4_four none bs h = cc
to4_four (some xs) bs h = ground (arith, length-drop 12 xs)

pub to16_sixteen : (ip : Ip) (bs : List ℕ) → to16 ip ≡ some bs → length bs ≡ 16
unfolding to16
to16_sixteen none bs h = cc
to16_sixteen (some xs) bs h = ground arith

-- The fixed 16 bytes, written over zeros in front of a block of `n` zeros.
abbrev fixed : ℕ → ℕ → ℕ → List ℕ
fixed x y n = signature ++ (x ∷ y ∷ 0 ∷ n ∷ [])

prepare_inet :
    (x y : ℕ)
    → put_uint16 {E = Error} (copy_at (copy_at (replicate 28 0) 0 signature) 12 (x ∷ y ∷ [])) 14 12
      ≡ ok (fixed x y 12 ++ (replicate 4 0 ++ (replicate 4 0 ++ replicate 4 0)))
unfolding copy_at put_uint16
prepare_inet x y = refl

prepare_inet6 :
    (x y : ℕ)
    → put_uint16 {E = Error} (copy_at (copy_at (replicate 52 0) 0 signature) 12 (x ∷ y ∷ [])) 14 36
      ≡ ok (fixed x y 36 ++ (replicate 16 0 ++ (replicate 16 0 ++ replicate 4 0)))
unfolding copy_at put_uint16
prepare_inet6 x y = refl

prepare_unspec :
    (x y : ℕ)
    → put_uint16 {E = Error} (copy_at (copy_at (replicate 16 0) 0 signature) 12 (x ∷ y ∷ [])) 14 0
      ≡ ok (fixed x y 0)
unfolding copy_at put_uint16
prepare_unspec x y = refl

write_ip_four :
    (buf : List ℕ) (off : ℕ) (ip : Ip) (bs : List ℕ)
    → to4 ip ≡ some bs
    → write_ip (buf, off) ip 4 ≡ (copy_at buf off bs, off + 4)
unfolding write_ip
write_ip_four buf off none bs h = unfold to4 in cc
write_ip_four buf off (some xs) bs h = rw h

write_ip_sixteen :
    (buf : List ℕ) (off : ℕ) (ip : Ip) (bs : List ℕ)
    → to16 ip ≡ some bs
    → write_ip (buf, off) ip 16 ≡ (copy_at buf off bs, off + 16)
unfolding write_ip
write_ip_sixteen buf off none bs h = unfold to16 in cc
write_ip_sixteen buf off (some xs) bs h = rw h

module _ (command protocol : ℕ) (src dst : Ip) (source_port dest_port : ℕ) where
  abbrev pub with_family : ℕ → Header
  with_family family = record {
    command = command;
    family = family;
    protocol = protocol;
    source_addr = src;
    dest_addr = dst;
    source_port = source_port;
    dest_port = dest_port;
  }

  -- The bytes of a header of `n` address bytes, with the two addresses `a` and `b`.
  abbrev pub wire : ℕ → ℕ → List ℕ → List ℕ → List ℕ
  wire family n a b =
      signature
      ++ (first_bytes (with_family family)
          ++ (0 ∷ n ∷ (a ++ (b ++ (be_bytes source_port ++ be_bytes dest_port)))))

  addresses_inet :
      (buf a b : List ℕ)
      → to4 src ≡ some a
      → to4 dst ≡ some b
      → write_addresses buf (with_family family_inet) ≡ (copy_at (copy_at buf 16 a) 20 b, 24)
  addresses_inet buf a b ea eb = rw (write_ip_four buf 16 src a ea) (write_ip_four _ 20 dst b eb)

  addresses_inet6 :
      (buf a b : List ℕ)
      → to16 src ≡ some a
      → to16 dst ≡ some b
      → write_addresses buf (with_family family_inet6) ≡ (copy_at (copy_at buf 16 a) 32 b, 48)
  addresses_inet6 buf a b ea eb =
      rw (write_ip_sixteen buf 16 src a ea) (write_ip_sixteen _ 32 dst b eb)

  -- A valid IPv4 header is encoded in 28 bytes: signature, two bytes of fields, the length of the
  -- block, the two addresses and the two ports.
  pub marshal_inet :
      (a b : List ℕ)
      → valid (with_family family_inet) ≡ true
      → to4 src ≡ some a
      → to4 dst ≡ some b
      → marshal (with_family family_inet) ≡ ok (wire family_inet 12 a b)
  unfolding marshal
  marshal_inet a b v ea eb = rw v (
      rw (prepare_inet _ _) (
        rw (addresses_inet (fixed _ _ 12 ++ replicate 12 0) a b ea eb) (
          fill_block (fixed _ _ 12) (replicate 4 0) (replicate 4 0) a b 4 source_port dest_port refl
            (refl, refl) (to4_four src a ea, to4_four dst b eb))))

  pub marshal_inet6 :
      (a b : List ℕ)
      → valid (with_family family_inet6) ≡ true
      → to16 src ≡ some a
      → to16 dst ≡ some b
      → marshal (with_family family_inet6) ≡ ok (wire family_inet6 36 a b)
  unfolding marshal
  marshal_inet6 a b v ea eb = rw v (
      rw (prepare_inet6 _ _) (
        rw (addresses_inet6 (fixed _ _ 36 ++ replicate 36 0) a b ea eb) (
          fill_block (fixed _ _ 36) (replicate 16 0) (replicate 16 0) a b 16 source_port dest_port
            refl (refl, refl) (to16_sixteen src a ea, to16_sixteen dst b eb))))

  pub marshal_unspec :
      valid (with_family family_unspec) ≡ true → marshal (with_family family_unspec) ≡ panics
  unfolding marshal
  marshal_unspec v = rw v (rw (prepare_unspec _ _) (unfold put_uint16 in refl))
