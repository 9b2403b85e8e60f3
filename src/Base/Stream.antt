-- ===== src/Base/Stream.antt =====
-- The reading side of a connection: Go's io.Reader, io.ReadFull and bytes.Reader.
use proxygo.Base.Tests.{leb, le→leb, if◌then◌else◌}
use proxygo.Base.Lists.{
  length, take, drop, take-length-append, drop-length-append, length-append, take-append-drop,
  length-take,
}
use proxygo.Base.Logic.{Result, ok, err, panics}
use Prim.Native.Nat.{ℕ, ◌<◌}
use mathlib.Core.Path.{◌≡◌, refl}
use mathlib.Core.List.{List, [], ◌∷◌, ◌++◌}
use native.Mathlib.Omega.{arith}

-- io.EOF, io.ErrUnexpectedEOF, and any other failure of a connection, such as a passed deadline.
pub data IoError : Type 0 where
  eof unexpected_eof timeout closed : IoError

-- The bytes that reads will still deliver, and the error of every read after them.
pub record Stream : Type 0 where
  pub pending : List ℕ
  pub fault : IoError

abbrev pub Reader {ℓ} : Type 0 → Type ℓ → Type ℓ
Reader E A = Stream → Result E A × Stream

abbrev pub and_then {ℓ κ} :
    {E : Type 0} {A : Type ℓ} {B : Type κ}
    → Result E A × Stream
    → (A → Reader E B)
    → Result E B × Stream
and_then (ok a, s) f = f a s
and_then (err e, s) f = (err e, s)
and_then (panics, s) f = (panics, s)

-- A successful sequence has a successful first part.
pub and_then-ok {ℓ κ} :
    {E : Type 0} {A : Type ℓ} {B : Type κ} (r : Result E A × Stream) (k : A → Reader E B) {b : B}
    {t : Stream}
    → and_then r k ≡ (ok b, t)
    → (a : A) × (u : Stream) × (r ≡ (ok a, u)) × (k a u ≡ (ok b, t))
and_then-ok (ok a, s) k h = (a, s, refl, h)
and_then-ok (err e, s) k h = cc
and_then-ok (panics, s) k h = cc

infixl 5 ◌>>=◌ ◌>>◌
abbrev pub ◌>>=◌ {ℓ κ} :
    {E : Type 0} {A : Type ℓ} {B : Type κ} → Reader E A → (A → Reader E B) → Reader E B
◌>>=◌ m f s = and_then (m s) f

abbrev pub ◌>>◌ {ℓ κ} :
    {E : Type 0} {A : Type ℓ} {B : Type κ} → Reader E A → Reader E B → Reader E B
◌>>◌ m k s = and_then (m s) (λ _. k)

abbrev pub return {ℓ} : {E : Type 0} {A : Type ℓ} → A → Reader E A
return a s = (ok a, s)

abbrev pub fail {ℓ} : {E : Type 0} {A : Type ℓ} → E → Reader E A
fail e s = (err e, s)

abbrev pub bytes_reader : List ℕ → Stream
bytes_reader bs = record { pending = bs; fault = eof }

-- What io.ReadFull answers when the bytes run out: io.EOF only if it got none.
abbrev pub short_read : List ℕ → IoError → IoError
short_read (b ∷ bs) eof = unexpected_eof
short_read (b ∷ bs) unexpected_eof = unexpected_eof
short_read (b ∷ bs) timeout = timeout
short_read (b ∷ bs) closed = closed
short_read [] f = f

-- io.ReadFull into a buffer of `n` bytes. The package's own error type embeds these by `wrap`.
unfoldable pub read_full : {E : Type 0} → (IoError → E) → ℕ → Reader E (List ℕ)
read_full wrap n s =
    if leb n (length s.pending)
    then (ok (take n s.pending), record s { pending = drop n s.pending })
    else (err (wrap (short_read s.pending s.fault)), record s { pending = [] })

-- (*bytes.Reader).ReadByte.
unfoldable pub read_byte : {E : Type 0} → (IoError → E) → Reader E ℕ
read_byte wrap s = elim s.pending [
  | [] ↦ (err (wrap s.fault), s)
  | b ∷ rest ↦ (ok b, record s { pending = rest })
]

abbrev pub stream : List ℕ → IoError → Stream
stream bs f = record { pending = bs; fault = f }

module _ {E : Type 0} (wrap : IoError → E) where
  pub read_full-append :
      (xs ys : List ℕ) (f : IoError)
      → read_full wrap (length xs) (stream (xs ++ ys) f) ≡ (ok xs, stream ys f)
  unfolding read_full
  read_full-append xs ys f = rw (
    le→leb (length xs) (length (xs ++ ys)) (omega (arith, length-append xs ys)),
    take-length-append xs ys,
    drop-length-append xs ys,
  )

  pub read_full_one :
      (b : ℕ) (ys : List ℕ) (f : IoError)
      → read_full wrap 1 (stream (b ∷ ys) f) ≡ (ok (b ∷ []), stream ys f)
  read_full_one b ys f = read_full-append (b ∷ []) ys f

  pub read_full_short :
      (n : ℕ) (xs : List ℕ) (f : IoError)
      → length xs < n
      → read_full wrap n (stream xs f) ≡ (err (wrap (short_read xs f)), stream [] f)
  unfolding read_full
  read_full_short n xs f h = ground arith

  -- What io.ReadFull delivers is the front of the stream, and the rest stays.
  pub read_full_splits :
      (n : ℕ) (s : Stream) {xs : List ℕ} {t : Stream}
      → read_full wrap n s ≡ (ok xs, t)
      → (xs ++ t.pending ≡ s.pending) × (t.fault ≡ s.fault) × (length xs ≡ n)
  unfolding read_full
  read_full_splits n s h = ground (arith, take-append-drop n s.pending, length-take n s.pending)
