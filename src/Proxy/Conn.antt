-- ===== src/Proxy/Conn.antt =====
-- internal/proxy/conn.go: the connections of each client address, the counting wrapper and the pump.
pub mod Tracker
pub mod Pipe
mod Tests
use proxygo.Base.{
  ℕ, suc, ◌+◌, ◌-◌, Bool, true, false, Option, none, some, List, [], ◌∷◌, ◌++◌, leb, if◌then◌else◌,
  length, take,
}
use proxygo.Base.Assoc.{MapKey, bytes_eq, lookup, assign, delete}

abbrev pub Key : Type 0
Key = List ℕ

-- ipConnTracker: the live connections of each address.
abbrev pub Tracker : Type 0
Tracker = List (Key × ℕ)

abbrev pub or_zero : Option ℕ → ℕ
or_zero none = 0
or_zero (some n) = n

unfoldable pub count : Key → Tracker → ℕ
count ip t = or_zero (lookup ip t)

unfoldable pub inc : Key → Tracker → Tracker
inc ip t = assign ip (or_zero (lookup ip t) + 1) t

abbrev pub dec_found : Key → Tracker → Option ℕ → Tracker
dec_found ip t none = t
dec_found ip t (some n) = if leb n 1 then delete ip t else assign ip (n - 1) t

unfoldable pub dec : Key → Tracker → Tracker
dec ip t = dec_found ip t (lookup ip t)

-- ---------- countConn and pipe

-- What one Read of the source delivers, and whether it also fails.
pub record Read : Type 0 where
  pub bytes : List ℕ
  pub failed : Bool

-- The other side: what it has taken, the bytes that countConn has counted, and how the writes to
-- come go: `none` takes everything, `some n` fails after `n` bytes.
pub record Sink : Type 0 where
  pub delivered : List ℕ
  pub counted : ℕ
  pub writes : List (Option ℕ)

-- (*countConn).Write, with the error as `true`. Deadlines are left to `failed` and `writes`.
abbrev pub accept : List ℕ → Sink → List (Option ℕ) → Bool → Sink × Bool
accept p k rest failed = (
  record k { delivered = k.delivered ++ p; counted = k.counted + length p; writes = rest },
  failed,
)

abbrev pub write_next : List ℕ → Sink → List (Option ℕ) → Sink × Bool
write_next p k [] = accept p k [] false
write_next p k (none ∷ rest) = accept p k rest false
write_next p k (some n ∷ rest) = accept (take n p) k rest true

unfoldable pub write : List ℕ → Sink → Sink × Bool
write p k = write_next p k k.writes

-- The pump over the reads that the source will answer; empty reads are not written.
-- The size of the buffer only bounds what one read brings.
abbrev pub write_nonempty : List ℕ → Sink → Sink × Bool
write_nonempty [] k = (k, false)
write_nonempty (b ∷ bs) k = write (b ∷ bs) k

unfoldable pub pipe : List Read → Sink → Sink
pipe [] k = k
pipe (r ∷ rs) k =
    let sent = write_nonempty r.bytes k in
    let more = pipe rs sent.0 in if sent.1 then sent.0 else if r.failed then sent.0 else more
