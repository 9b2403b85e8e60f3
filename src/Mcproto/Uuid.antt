-- ===== src/Mcproto/Uuid.antt =====
-- OfflineUUID.
use proxygo.Base.{ℕ, bit_and, bit_or, ◌/◌, ◌<◌, ◌≡◌, refl, arith, List, length, get_or, ◌⊎◌}
use proxygo.Base.Bits.{version_three, rfc_variant}
use proxygo.Base.Text.{hex_digit}
use proxygo.Mcproto.{Digest, offline_uuid}

version_digit : (b : ℕ) → b < 256 → hex_digit (bit_or (bit_and b 0x0f) 0x30 / 16) ≡ b'3'
version_digit b h = rw (version_three b h) (ground arith)

variant_digit :
    (b : ℕ)
    → b < 256
    → let digit = hex_digit (bit_or (bit_and b 0x3f) 0x80 / 16) in
      (digit ≡ b'8') ⊎ (digit ≡ b'9') ⊎ (digit ≡ b'a') ⊎ (digit ≡ b'b')
variant_digit b h = rw (rfc_variant b h) (ground arith)

module _ (md5 : List ℕ → Digest) (bytes : (m : List ℕ) (i : ℕ) → md5 m i < 256)
    (name : List ℕ) where
  -- The text has 36 characters, with dashes behind the 8th, 12th, 16th and 20th digit; the digit
  -- of the version is 3 and that of the variant is 8, 9, a or b.
  pub offline_uuid_shape :
      let text = offline_uuid md5 name in
      (length text ≡ 36)
      × ((get_or text 8 0 ≡ b'-')
          × (get_or text 13 0 ≡ b'-')
          × (get_or text 18 0 ≡ b'-')
          × (get_or text 23 0 ≡ b'-'))
      × (get_or text 14 0 ≡ b'3')
      × ((get_or text 19 0 ≡ b'8')
          ⊎ (get_or text 19 0 ≡ b'9')
          ⊎ (get_or text 19 0 ≡ b'a')
          ⊎ (get_or text 19 0 ≡ b'b'))
  unfolding offline_uuid
  offline_uuid_shape =
      (refl, (refl, refl, refl, refl), version_digit _ (bytes _ 6), variant_digit _ (bytes _ 8))
