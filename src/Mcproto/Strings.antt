-- ===== src/Mcproto/Strings.antt =====
-- readString and appendString.
use proxygo.Base.{
  ℕ, ◌%◌, ◌^◌, ◌<◌, ◌≡◌, arith, List, [], ◌++◌, append_assoc, length, length-append, ok, err,
}
use proxygo.Base.Stream.{IoError, stream, read_full-append}
use proxygo.Mcproto.{io, string_overruns, read_counted, read_string, append_varint, append_string}
use proxygo.Mcproto.Varint.{groups, append_varint-groups}
use proxygo.Mcproto.Decode.{read_varint-groups}

-- A Go string whose length is an int32.
abbrev pub IsShort : List ℕ → Type 0
IsShort s = length s < 2 ^ 31

pub append_string-groups :
    (b s : List ℕ) → IsShort s → append_string b s ≡ b ++ (groups 4 (length s) ++ s)
unfolding append_string
append_string-groups b s h =
    let e : length s % 2 ^ 32 ≡ length s = omega arith in
    rw (e, append_varint-groups b (length s) (omega arith)) (append_assoc b (groups 4 (length s)) s)

read_counted-append :
    (s rest : List ℕ) (f : IoError)
    → IsShort s
    → read_counted (length s) (stream (s ++ rest) f) ≡ (ok s, stream rest f)
unfolding read_counted
read_counted-append s rest f h = ground (arith, length-append s rest, read_full-append io s rest f)

-- readString reads back the string that appendString wrote, and leaves what follows.
pub read_string-append_string :
    (s rest : List ℕ) (f : IoError)
    → IsShort s
    → read_string (stream (append_string [] s ++ rest) f) ≡ (ok s, stream rest f)
unfolding read_string
read_string-append_string s rest f h =
    rw (append_string-groups [] s h, append_assoc (groups 4 (length s)) s rest)
      (rw (read_varint-groups (length s) (s ++ rest) (omega arith) f)
        (read_counted-append s rest f h))

-- A length beyond what is left of the packet is refused, and no byte of the string is taken.
pub read_string_overrun :
    (n : ℕ) (rest : List ℕ) (f : IoError)
    → n < 2 ^ 32
    → length rest < n
    → read_string (stream (append_varint [] n ++ rest) f) ≡ (err string_overruns, stream rest f)
unfolding read_string read_counted
read_string_overrun n rest f h short =
    rw (append_varint-groups [] n h) (rw (read_varint-groups n rest h f) (ground arith))
