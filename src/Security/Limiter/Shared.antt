-- ===== src/Security/Limiter/Shared.antt =====
-- The calls of several keys on one limiter.
use proxygo.Base.{
  ℕ, ◌+◌, ◌-◌, ◌*◌, ◌≤◌, ◌<◌, ◌≡◌, ◌≢◌, refl, sym, ◌∙◌, ap, arith, ◌&&◌, some, List, [], ◌∷◌,
  if◌then◌else◌, if_elim, All, Bool-cases, inl, inr, bytes_beq, bytes_beq_iff,
}
use proxygo.Base.Assoc.{bytes_eq, lookup}
use proxygo.Security.Limiter.{Key, Bucket, Limiter, allow}
use proxygo.Security.Limiter.Quota.{
  bucket_at, IsBounded, allow_lem, granted, Within, granted-le-twice_capacity,
}

-- Calls of any keys, one after the other; how many of those of one key are granted.
unfoldable pub granted_to : Limiter → Key → List (Key × ℕ) → ℕ
granted_to l key [] = 0
granted_to l key ((k, now) ∷ cs) =
    (if bytes_beq k key && (allow l k now).1 then 1 else 0) + granted_to (allow l k now).0 key cs

-- When the key calls.
abbrev pub times_of : Key → List (Key × ℕ) → List ℕ
times_of key [] = []
times_of key ((k, now) ∷ cs) =
    let rest = times_of key cs in if bytes_beq k key then now ∷ rest else rest

-- The same settings, and the same bucket of a key.
abbrev pub SameFor : Key → Limiter → Limiter → Type 0
SameFor key l m =
    (lookup key l.buckets ≡ lookup key m.buckets)
    × (l.capacity ≡ m.capacity)
    × (l.refill ≡ m.refill)

bucket_at-SameFor :
    (key : Key) (l m : Limiter) (now : ℕ)
    → SameFor key l m
    → bucket_at l key now ≡ bucket_at m key now
bucket_at-SameFor key l m now (found, capacity, refill) = rw (found, capacity, refill) refl

allow-SameFor :
    (key : Key) (l m : Limiter) (now : ℕ)
    → SameFor key l m
    → ((allow l key now).1 ≡ (allow m key now).1)
      × SameFor key (allow l key now).0 (allow m key now).0
allow-SameFor key l m now same =
    let b = bucket_at-SameFor key l m now same in
    let x = allow_lem l key key now in
    let y = allow_lem m key key now in
    (
      ground (arith, x.0, y.0, ap (λ (b : Bucket). b.tokens) b),
      (
        x.1 ∙ ap (λ (b : Bucket). some (record b { tokens = b.tokens - 1 })) b ∙ sym y.1,
        x.3 ∙ same.1 ∙ sym y.3,
        x.4 ∙ same.2 ∙ sym y.4,
      ),
    )

granted-SameFor :
    (key : Key) (times : List ℕ) (l m : Limiter)
    → SameFor key l m
    → granted l key times ≡ granted m key times
unfolding granted
granted-SameFor key [] l m same = refl
granted-SameFor key (now ∷ times) l m same =
    let (grant, after) = allow-SameFor key l m now same in
    let rest = granted-SameFor key times (allow l key now).0 (allow m key now).0 after in
    ground (arith, grant, rest)

-- The calls of other keys between them change nothing for a key.
granted_to-granted :
    (key : Key) (cs : List (Key × ℕ)) (l : Limiter)
    → granted_to l key cs ≡ granted l key (times_of key cs)
unfolding granted_to granted
granted_to-granted key [] l = refl
granted_to-granted key ((k, now) ∷ cs) l = elim (Bool-cases (bytes_beq k key)) [
  | inl own ↦ rw own (
      ap (λ (j : Key). (if (allow l j now).1 then 1 else 0) + granted_to (allow l j now).0 key cs)
        ((bytes_beq_iff k key).0 own)
      ∙ omega (arith, granted_to-granted key cs (allow l key now).0))
  | inr other ↦
      let (a, b, left_alone, capacity, refill) = allow_lem l k key now in
      let apart : k ≢ key = λ same. cc (sym ((bytes_beq_iff k key).1 same) ∙ other) in
      rw other (
        omega (
          arith,
          granted_to-granted key cs (allow l k now).0,
          granted-SameFor key (times_of key cs) (allow l k now).0 l
              (left_alone apart, capacity, refill),
        ))
]

times-Within :
    (key : Key) (start len : ℕ) (cs : List (Key × ℕ))
    → All (λ c. Within start len c.1) cs
    → All (Within start len) (times_of key cs)
times-Within key start len [] inside = tt
times-Within key start len ((k, now) ∷ cs) (first, inside) =
    let rest = times-Within key start len cs inside in
    if_elim (All (Within start len)) (bytes_beq k key) (now ∷ times_of key cs) (times_of key cs)
      (λ own. (first, rest)) (λ other. rest)

-- In no stretch of time as long as one refill interval is a key granted more than twice the
-- capacity, whatever other keys call in between, if no bucket holds more than the capacity.
pub granted_to-le-twice_capacity :
    (l : Limiter) (key : Key) (start : ℕ) (cs : List (Key × ℕ))
    → 0 < l.refill
    → IsBounded l
    → All (λ c. Within start l.refill c.1) cs
    → granted_to l key cs ≤ 2 * l.capacity
granted_to-le-twice_capacity l key start cs positive bounded inside = omega (
  arith,
  granted_to-granted key cs l,
  granted-le-twice_capacity l key start (times_of key cs) positive bounded
      (times-Within key start l.refill cs inside),
)
