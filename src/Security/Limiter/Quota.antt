-- ===== src/Security/Limiter/Quota.antt =====
-- How many uses a key is granted.
use proxygo.Base.{
  ℕ, ◌+◌, ◌-◌, ◌*◌, ◌≤◌, ◌<◌, ◌≡◌, arith, Bool, true, false, none, some, List, [], ◌∷◌,
  if◌then◌else◌, length, All, Option-cases, inl, inr, ◌⊎◌, ◌≢◌, bytes_beq_iff,
}
use proxygo.Base.Assoc.{bytes_eq, lookup, lookup-assign, lookup-assign_self}
use proxygo.Security.Limiter.{Key, Bucket, Limiter, allow, fresh_bucket, refilled, take_token}
use Prim.Native.Nat.{min}
use native.Mathlib.Decide.{dec_lt}

-- The bucket that a call of `allow` for the key works on.
abbrev pub bucket_at : Limiter → Key → ℕ → Bucket
bucket_at l key now = refilled l now (fresh_bucket l now (lookup key l.buckets))

-- No bucket holds more than the capacity.
abbrev pub IsBounded : Limiter → Type 0
IsBounded l = (key : Key) (b : Bucket) → lookup key l.buckets ≡ some b → b.tokens ≤ l.capacity

-- What a call reports and leaves behind, for the bucket `b` that it works on.
abbrev pub TokenTaken : Limiter → Key → Key → Bucket → Limiter × Bool → Type 0
TokenTaken l key other b (l', granted) =
    ((granted ≡ true) × (0 < b.tokens) ⊎ (granted ≡ false) × (b.tokens ≡ 0))
    × (lookup key l'.buckets ≡ some (record b { tokens = b.tokens - 1 }))
    × ((key ≢ other) → lookup other l'.buckets ≡ lookup other l.buckets)
    × (l'.capacity ≡ l.capacity)
    × (l'.refill ≡ l.refill)

take_token_lem :
    (l : Limiter) (key other : Key) (b : Bucket) → TokenTaken l key other b (take_token l key b)
take_token_lem l key other b = ground (
  arith,
  lookup-assign_self key b l.buckets,
  lookup-assign_self key (record b { tokens = b.tokens - 1 }) l.buckets,
  lookup-assign key other b l.buckets,
  lookup-assign key other (record b { tokens = b.tokens - 1 }) l.buckets,
  bytes_beq_iff key other,
)

-- A call is granted exactly when the bucket of its key, refilled if a refill is due, is not empty;
-- it takes one token, leaves every other key alone, and keeps the settings.
pub allow_lem :
    (l : Limiter) (key other : Key) (now : ℕ)
    → TokenTaken l key other (bucket_at l key now) (allow l key now)
unfolding allow
allow_lem l key other now = take_token_lem l key other (bucket_at l key now)

-- Calls of one key, one for each time; how many of them are granted.
pub calls : Limiter → Key → List ℕ → Limiter
calls l key [] = l
calls l key (now ∷ times) = calls (allow l key now).0 key times

unfoldable pub granted : Limiter → Key → List ℕ → ℕ
granted l key [] = 0
granted l key (now ∷ times) =
    (if (allow l key now).1 then 1 else 0) + granted (allow l key now).0 key times

bucket_at_inside :
    (l : Limiter) (key : Key) (b : Bucket) (now : ℕ)
    → lookup key l.buckets ≡ some b
    → 0 < l.refill
    → now < b.last_fill + l.refill
    → bucket_at l key now ≡ b
bucket_at_inside l key b now found positive inside = rw found (ground arith)

-- A bucket grants as many of the calls before its next refill as it has tokens, and no more.
granted-window :
    (times : List ℕ) (l : Limiter) (key : Key) (b : Bucket)
    → lookup key l.buckets ≡ some b
    → 0 < l.refill
    → All (λ now. now < b.last_fill + l.refill) times
    → granted l key times ≡ min b.tokens (length times)
unfolding granted
granted-window [] l key b found positive inside = omega arith
granted-window (now ∷ times) l key b found positive (now_inside, inside) =
    let done =
      rw (bucket_at_inside l key b now found positive now_inside) at (allow_lem l key key now) in
    let l' = (allow l key now).0 in
    let rest =
      granted-window times l' key (record b { tokens = b.tokens - 1 }) done.1 (rw done.4 positive)
        (rw done.4 inside) in
    ground (arith, done.0, rest)

-- A call that finds or makes a full bucket, with the calls before the refill after it.
granted-full :
    (l : Limiter) (key : Key) (start : ℕ) (times : List ℕ)
    → 0 < l.refill
    → bucket_at l key start ≡ record { tokens = l.capacity; last_fill = start }
    → All (λ now. now < start + l.refill) times
    → granted l key (start ∷ times) ≡ min l.capacity (length (start ∷ times))
unfolding granted
granted-full l key start times positive full inside =
    let done = rw full at (allow_lem l key key start) in
    let rest =
      granted-window times (allow l key start).0 key
        (record { tokens = l.capacity - 1; last_fill = start }) done.1 (rw done.4 positive)
        (rw done.4 inside) in
    ground (arith, done.0, rest)

-- A key that is new at `start` is granted as many of its calls before `start + refill` as the
-- capacity allows: the smaller of the capacity and their number.
pub granted_since_start :
    (l : Limiter) (key : Key) (start : ℕ) (times : List ℕ)
    → 0 < l.refill
    → lookup key l.buckets ≡ none
    → All (λ now. now < start + l.refill) times
    → granted l key (start ∷ times) ≡ min l.capacity (length (start ∷ times))
granted_since_start l key start times positive fresh inside =
    granted-full l key start times positive (rw fresh (ground arith)) inside

abbrev pub Within : ℕ → ℕ → ℕ → Type 0
Within start len now = (start ≤ now) × (now < start + len)

later_inside :
    (start now len : ℕ) (times : List ℕ)
    → start ≤ now
    → All (Within start len) times
    → All (λ t. t < now + len) times
later_inside start now len [] h k = tt
later_inside start now len (t ∷ times) h k = (omega arith, later_inside start now len times h k.1)

granted_burst :
    (times : List ℕ) (l : Limiter) (key : Key) (b : Bucket) (start : ℕ)
    → lookup key l.buckets ≡ some b
    → 0 < l.refill
    → All (Within start l.refill) times
    → granted l key times ≤ b.tokens + l.capacity
unfolding granted
granted_burst [] l key b start found positive inside = omega arith
granted_burst (now ∷ times) l key b start found positive (now_inside, inside) =
    elim (dec_lt now (b.last_fill + l.refill)) [
      | yes before ↦
          let done =
            rw (bucket_at_inside l key b now found positive before) at (allow_lem l key key now) in
          let rest =
            granted_burst times (allow l key now).0 key (record b { tokens = b.tokens - 1 }) start
              done.1 (rw done.4 positive) (rw done.4 inside) in
          ground (arith, done.0, done.3, rest)
      | no due ↦
          let full : bucket_at l key now ≡ record { tokens = l.capacity; last_fill = now } =
            rw found (ground arith) in
          omega (
            arith,
            granted-full l key now times positive full
                (later_inside start now l.refill times now_inside.0 inside),
          )
    ]

-- In no stretch of time as long as one refill interval is a key granted more than twice the
-- capacity, if no bucket holds more than the capacity.
pub granted-le-twice_capacity :
    (l : Limiter) (key : Key) (start : ℕ) (times : List ℕ)
    → 0 < l.refill
    → IsBounded l
    → All (Within start l.refill) times
    → granted l key times ≤ 2 * l.capacity
granted-le-twice_capacity l key start [] positive bounded inside = unfold granted in omega arith
granted-le-twice_capacity l key start (now ∷ times) positive bounded (now_inside, inside) =
    elim (Option-cases (lookup key l.buckets)) [
      | inl fresh ↦ omega (
        arith,
        granted_since_start l key now times positive fresh
            (later_inside start now l.refill times now_inside.0 inside),
      )
      | inr (b, found) ↦ omega (
        arith,
        granted_burst (now ∷ times) l key b start found positive (now_inside, inside),
        bounded key b found,
      )
    ]
