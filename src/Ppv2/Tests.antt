-- ===== src/Ppv2/Tests.antt =====
-- Concrete runs, and the theorems at concrete inputs.
use proxygo.Base.{ℕ, ◌≡◌, refl, arith, true, none, some, List, [], ◌∷◌, ◌++◌, replicate, ok, panics}
use proxygo.Base.Buffer.{copy_at, put_uint16}
use proxygo.Base.Stream.{eof, stream}
use proxygo.Ppv2.{Header, signature, valid, marshal, to4, write_ip, read_header, family_unspec}
use proxygo.Ppv2.Encode.{with_family}
use proxygo.Ppv2.Outcomes.{marshal_without_addresses}
use proxygo.Ppv2.RoundTrip.{inet, inet6, read_header-marshal-inet}
use proxygo.Ppv2.Outcomes.{marshal_without_addresses}

abbrev client : List ℕ
client = 203 ∷ 0 ∷ 113 ∷ 7 ∷ []

abbrev server : List ℕ
server = 198 ∷ 51 ∷ 100 ∷ 1 ∷ []

abbrev v4 : Header
v4 = inet 1 1 (some client) (some server) 50000 25565

v4-valid : valid v4 ≡ true
unfolding valid to4
v4-valid = refl

v4_bytes :
    marshal v4
    ≡ ok (signature ++ (0x21 ∷ 0x11 ∷ 0 ∷ 12 ∷ (client ++ (server ++ (195 ∷ 80 ∷ 99 ∷ 221 ∷ [])))))
unfolding marshal valid to4 write_ip copy_at put_uint16
v4_bytes = refl

abbrev unspec : Header
unspec = with_family 1 1 none none 0 0 family_unspec

-- The header that writePPv2 builds where it cannot tell the family.
unspec_panics : marshal unspec ≡ panics
unfolding valid
unspec_panics = (marshal_without_addresses unspec).1 refl refl

read_header-marshal-inet_example :
    (bs : List ℕ) × (marshal v4 ≡ ok bs)
    × (read_header (stream (bs ++ (9 ∷ [])) eof) ≡ (
      ok (record v4 { source_addr = to4 (some client); dest_addr = to4 (some server) }),
      stream (9 ∷ []) eof,
    ))
read_header-marshal-inet_example =
    read_header-marshal-inet 1 1 (some client) (some server) 50000 25565 (9 ∷ []) eof v4-valid
      (omega arith) (omega arith)

abbrev host6 : List ℕ
host6 = 0x20 ∷ 0x01 ∷ replicate 14 7

abbrev v6 : Header
v6 = inet6 1 2 (some host6) (some host6) 1 65535

v6-valid : valid v6 ≡ true
unfolding valid to4
v6-valid = refl
