-- ===== src/Security/Limiter.antt =====
-- Limiter of internal/security/security.go. Times and durations are nanoseconds since the start of
-- the process; the monotonic clock does not run backwards, and `now` is an argument of each call.
pub mod Quota
pub mod Shared
pub mod Prune
mod Tests
use proxygo.Base.{
  ℕ, zero, suc, ◌+◌, ◌-◌, ◌≤◌, ◌<◌, Bool, true, false, Option, none, some, List, [], ◌∷◌, leb, ltb,
  ◌==◌, if◌then◌else◌,
}
use proxygo.Base.Int.{ℤ, pos, negsuc}
use proxygo.Base.Assoc.{MapKey, bytes_eq, lookup, assign, delete_if}

abbrev pub Key : Type 0
Key = List ℕ

pub record Bucket : Type 0 where
  pub tokens : ℕ
  pub last_fill : ℕ

-- `tokens` of the source is `buckets` here.
pub record Limiter : Type 0 where
  pub capacity : ℕ
  pub refill : ℕ
  pub buckets : List (Key × Bucket)

-- `if x <= 0 { x = fallback }`
abbrev pub positive_or : ℕ → ℤ → ℕ
positive_or fallback (pos zero) = fallback
positive_or fallback (pos (suc n)) = suc n
positive_or fallback (negsuc n) = fallback

abbrev pub minute : ℕ
minute = 60_000_000_000

pub new_limiter : ℤ → ℤ → Limiter
new_limiter capacity refill = record {
  capacity = positive_or 1 capacity;
  refill = positive_or minute refill;
  buckets = [];
}

-- The bucket of a key that has none is full.
abbrev pub fresh_bucket : Limiter → ℕ → Option Bucket → Bucket
fresh_bucket l now none = record { tokens = l.capacity; last_fill = now }
fresh_bucket l now (some b) = b

abbrev pub refilled : Limiter → ℕ → Bucket → Bucket
refilled l now b =
    if leb l.refill (now - b.last_fill) then record { tokens = l.capacity; last_fill = now } else b

abbrev pub take_token : Limiter → Key → Bucket → Limiter × Bool
take_token l key b =
    if b.tokens == 0
    then (record l { buckets = assign key b l.buckets }, false)
    else (record l { buckets = assign key (record b { tokens = b.tokens - 1 }) l.buckets }, true)

unfoldable pub allow : Limiter → Key → ℕ → Limiter × Bool
allow l key now = take_token l key (refilled l now (fresh_bucket l now (lookup key l.buckets)))

-- `b.lastFill.Before(cutoff)`, where `cutoff` is `now - maxAge`.
abbrev pub is_stale : ℕ → ℕ → Bucket → Bool
is_stale max_age now b = ltb (b.last_fill + max_age) now

unfoldable pub prune : Limiter → ℕ → ℕ → Limiter
prune l max_age now = record l { buckets = delete_if (λ key b. is_stale max_age now b) l.buckets }
