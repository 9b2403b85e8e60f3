-- ===== src/Base/Buffer.antt =====
-- Byte slices that are written in place: make, copy, index and binary.BigEndian.PutUint16.
use Prim.Native.Nat.{ℕ, zero, suc, ◌+◌, ◌/◌, ◌%◌}
use mathlib.Core.Path.{◌≡◌, refl, ap, sym, ◌∙◌}
use mathlib.Core.List.{List, [], ◌∷◌, ◌++◌, append_assoc, append-nil}
use native.Mathlib.Omega.{arith}
use proxygo.Base.Tests.{leb, le→leb, if◌then◌else◌}
use proxygo.Base.Lists.{length, length-append}
use proxygo.Base.Logic.{Result, ok, panics, ◌>>=◌}

-- `copy(buf[off:], src)` stops at the shorter end.
unfoldable pub copy_at : List ℕ → ℕ → List ℕ → List ℕ
copy_at [] off src = []
copy_at (b ∷ bs) zero [] = b ∷ bs
copy_at (b ∷ bs) zero (x ∷ xs) = x ∷ copy_at bs zero xs
copy_at (b ∷ bs) (suc off) src = b ∷ copy_at bs off src

-- The two bytes of a uint16, the higher first.
abbrev pub be_bytes : ℕ → List ℕ
be_bytes v = v / 256 % 256 ∷ v % 256 ∷ []

-- `binary.BigEndian.PutUint16(buf[off:], v)` panics where fewer than two bytes are left.
unfoldable pub put_uint16 : {E : Type 0} → List ℕ → ℕ → ℕ → Result E (List ℕ)
put_uint16 buf off v =
    if leb (off + 2) (length buf) then ok (copy_at buf off (be_bytes v)) else panics

copy_at-start : (src ys zs : List ℕ) → length src ≡ length ys → copy_at (ys ++ zs) 0 src ≡ src ++ zs
unfolding copy_at
copy_at-start [] [] [] h = refl
copy_at-start [] [] (z ∷ zs) h = refl
copy_at-start (x ∷ xs) [] zs h = absurd (omega arith)
copy_at-start [] (y ∷ ys) zs h = absurd (omega arith)
copy_at-start (x ∷ xs) (y ∷ ys) zs h = ap (λ l. x ∷ l) (copy_at-start xs ys zs (omega arith))

-- A copy replaces as many bytes as it brings.
pub copy_at-append :
    (xs src ys zs : List ℕ) (off : ℕ)
    → off ≡ length xs
    → length src ≡ length ys
    → copy_at (xs ++ (ys ++ zs)) off src ≡ xs ++ (src ++ zs)
unfolding copy_at
copy_at-append [] src ys zs zero e h = copy_at-start src ys zs h
copy_at-append [] src ys zs (suc off) e h = absurd (omega arith)
copy_at-append (x ∷ xs) src ys zs zero e h = absurd (omega arith)
copy_at-append (x ∷ xs) src ys zs (suc off) e h =
    ap (λ l. x ∷ l) (copy_at-append xs src ys zs off (omega arith) h)

pub put_uint16-append :
    {E : Type 0} (xs ys zs : List ℕ) (off v : ℕ)
    → off ≡ length xs
    → length ys ≡ 2
    → put_uint16 {E = E} (xs ++ (ys ++ zs)) off v ≡ ok (xs ++ (be_bytes v ++ zs))
unfolding put_uint16
put_uint16-append xs ys zs off v e two = rw (
  le→leb (off + 2) (length (xs ++ (ys ++ zs)))
      (omega (arith, length-append xs (ys ++ zs), length-append ys zs)),
  copy_at-append xs (be_bytes v) ys zs off e (sym two),
)

-- Two fields of `n` bytes and two of two bytes, written behind a head of 16 bytes.
pub fill_block :
    {E : Type 0} (head za zb a b : List ℕ) (n sp dp : ℕ)
    → length head ≡ 16
    → (length za ≡ n) × (length zb ≡ n)
    → (length a ≡ n) × (length b ≡ n)
    → (put_uint16 {E = E}
          (copy_at (copy_at (head ++ (za ++ (zb ++ (0 ∷ 0 ∷ 0 ∷ 0 ∷ [])))) 16 a) (16 + n) b)
          (16 + n + n)
          sp
        >>= λ buf. put_uint16 buf (16 + n + n + 2) dp)
      ≡ ok (head ++ (a ++ (b ++ (be_bytes sp ++ be_bytes dp))))
fill_block {E} head za zb a b n sp dp h z w =
    rw (copy_at-append head a za (zb ++ zeros) 16 (sym h) (w.0 ∙ sym z.0)) (
      rw (sym (append_assoc head a (zb ++ zeros))) (
        rw
          (copy_at-append (head ++ a) b zb zeros (16 + n)
            (omega (arith, h, w.0, length-append head a)) (w.1 ∙ sym z.1))
          (rw (sym (append_assoc (head ++ a) b zeros)) (
            rw
              (put_uint16-append {E = E} front (0 ∷ 0 ∷ []) (0 ∷ 0 ∷ []) (16 + n + n) sp at_ports
                refl)
              last_port))))
  where
    zeros : List ℕ
    zeros = 0 ∷ 0 ∷ 0 ∷ 0 ∷ []

    front : List ℕ
    front = (head ++ a) ++ b

    at_ports : 16 + n + n ≡ length front
    at_ports = omega (arith, h, w.0, w.1, length-append head a, length-append (head ++ a) b)

    last_port :
        put_uint16 {E = E} (front ++ (be_bytes sp ++ (0 ∷ 0 ∷ []))) (16 + n + n + 2) dp
        ≡ ok (head ++ (a ++ (b ++ (be_bytes sp ++ be_bytes dp))))
    last_port =
        ap (λ l. put_uint16 {E = E} l (16 + n + n + 2) dp)
          (sym (append_assoc front (be_bytes sp) (0 ∷ 0 ∷ [])))
        ∙ put_uint16-append (front ++ be_bytes sp) (0 ∷ 0 ∷ []) [] (16 + n + n + 2) dp
            (omega (arith, at_ports, length-append front (be_bytes sp))) refl
        ∙ ap ok (simp (append_assoc, append-nil))
