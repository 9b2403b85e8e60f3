-- ===== src/Security/Limiter/Prune.antt =====
-- What a limiter keeps: positive settings, bounded buckets, one bucket to a key; and that Prune
-- does not show.
use proxygo.Base.{
  ℕ, ◌-◌, ◌≤◌, ◌<◌, ◌≡◌, refl, sym, ◌∙◌, arith, List, [], ◌∷◌, Option-cases, inl, inr,
  bytes_beq_iff, All,
}
use proxygo.Base.Int.{ℤ, pos, negsuc}
use proxygo.Base.Assoc.{bytes_eq, lookup, IsMap, lookup-delete_if, IsMap-assign}
use proxygo.Security.Limiter.{
  Key, Bucket, Limiter, new_limiter, positive_or, allow, prune, is_stale, take_token,
}
use proxygo.Security.Limiter.Quota.{IsBounded, bucket_at, allow_lem, granted}

pub record IsValid (l : Limiter) : Type 0 where
  pub capacity_positive : 0 < l.capacity
  pub refill_positive : 0 < l.refill
  pub bounded : IsBounded l
  pub unique : IsMap l.buckets

-- NewLimiter makes a valid limiter of any two settings.
pub new_limiter-IsValid : (capacity refill : ℤ) → IsValid (new_limiter capacity refill)
unfolding new_limiter lookup
new_limiter-IsValid capacity refill = record {
  capacity_positive = positive capacity 1 (omega arith);
  refill_positive = positive refill _ (omega arith);
  bounded = λ key b h. cc;
  unique = tt;
}
  where
    positive : (x : ℤ) (fallback : ℕ) → 0 < fallback → 0 < positive_or fallback x
    positive (pos n) fallback h = ground arith
    positive (negsuc n) fallback h = h

bucket_at-bound :
    (l : Limiter) (key : Key) (now : ℕ) → IsBounded l → (bucket_at l key now).tokens ≤ l.capacity
bucket_at-bound l key now bounded = elim (Option-cases (lookup key l.buckets)) [
  | inl fresh ↦ rw fresh (ground arith)
  | inr (b, found) ↦ rw found (ground (arith, bounded key b found))
]

allow-IsBounded : (l : Limiter) (key : Key) (now : ℕ) → IsBounded l → IsBounded (allow l key now).0
allow-IsBounded l key now bounded k b found =
    let done = allow_lem l key k now in
    ground (arith, done, bytes_beq_iff key k, bounded k b, bucket_at-bound l key now bounded, found)

take_token-IsMap :
    (l : Limiter) (key : Key) (b : Bucket) → IsMap l.buckets → IsMap (take_token l key b).0.buckets
take_token-IsMap l key b unique = ground (
  arith,
  IsMap-assign key b l.buckets unique,
  IsMap-assign key (record b { tokens = b.tokens - 1 }) l.buckets unique,
)

allow-IsMap :
    (l : Limiter) (key : Key) (now : ℕ) → IsMap l.buckets → IsMap (allow l key now).0.buckets
unfolding allow
allow-IsMap l key now unique = take_token-IsMap l key (bucket_at l key now) unique

-- Allow keeps a valid limiter valid.
pub allow-IsValid : (l : Limiter) (key : Key) (now : ℕ) → IsValid l → IsValid (allow l key now).0
allow-IsValid l key now v =
    let done = allow_lem l key key now in
    record {
      capacity_positive = rw done.3 v.capacity_positive;
      refill_positive = rw done.4 v.refill_positive;
      bounded = allow-IsBounded l key now v.bounded;
      unique = allow-IsMap l key now v.unique;
    }

survivor-bucket :
    (l : Limiter) (key : Key) (max_age pruned now : ℕ)
    → IsMap l.buckets
    → l.refill ≤ max_age
    → pruned ≤ now
    → bucket_at (prune l max_age pruned) key now ≡ bucket_at l key now
unfolding prune
survivor-bucket l key max_age pruned now unique old later =
    rw (lookup-delete_if (λ k b. is_stale max_age pruned b) key l.buckets unique)
      (elim (Option-cases (lookup key l.buckets)) [
        | inl fresh ↦ rw fresh
        | inr (b, found) ↦ rw found (ground arith)
      ])

-- Two limiters with the same settings and the same bucket for a key grant it the same.
record Agrees (key : Key) (l m : Limiter) : Type 0 where
  pub capacity_eq : l.capacity ≡ m.capacity
  pub refill_eq : l.refill ≡ m.refill
  pub bucket_eq : lookup key l.buckets ≡ lookup key m.buckets

bucket_at-Agrees :
    (key : Key) (l m : Limiter) (now : ℕ)
    → Agrees key l m
    → bucket_at l key now ≡ bucket_at m key now
bucket_at-Agrees key l m now a = rw a.bucket_eq (elim (Option-cases (lookup key m.buckets)) [
  | inl fresh ↦ rw fresh (ground arith)
  | inr (b, found) ↦ rw found (ground arith)
])

-- One call of a key that works on the same bucket in both.
allow-Agrees :
    (key : Key) (l m : Limiter) (now : ℕ)
    → l.capacity ≡ m.capacity
    → l.refill ≡ m.refill
    → bucket_at l key now ≡ bucket_at m key now
    → ((allow l key now).1 ≡ (allow m key now).1)
      × Agrees key (allow l key now).0 (allow m key now).0
allow-Agrees key l m now c r same =
    let left = rw same at (allow_lem l key key now) in
    let right = allow_lem m key key now in
    (
      ground (arith, left.0, right.0),
      record {
        capacity_eq = left.3 ∙ c ∙ sym right.3;
        refill_eq = left.4 ∙ r ∙ sym right.4;
        bucket_eq = left.1 ∙ sym right.1;
      },
    )

granted-Agrees :
    (times : List ℕ) (key : Key) (l m : Limiter)
    → Agrees key l m
    → granted l key times ≡ granted m key times
unfolding granted
granted-Agrees [] key l m a = refl
granted-Agrees (now ∷ times) key l m a =
    let step =
      allow-Agrees key l m now a.capacity_eq a.refill_eq (bucket_at-Agrees key l m now a) in
    rw (step.0, granted-Agrees times key (allow l key now).0 (allow m key now).0 step.1)

-- Pruning the keys that were last filled at least a refill interval ago changes no later answer:
-- any key is granted as many of its calls from then on as it would have been.
pub granted-prune :
    (l : Limiter) (key : Key) (max_age pruned : ℕ) (times : List ℕ)
    → IsValid l
    → l.refill ≤ max_age
    → All (λ now. pruned ≤ now) times
    → granted (prune l max_age pruned) key times ≡ granted l key times
unfolding granted
granted-prune l key max_age pruned [] v old later = refl
granted-prune l key max_age pruned (now ∷ times) v old (now_later, later) =
    let step =
      allow-Agrees key (prune l max_age pruned) l now (unfold prune in refl) (unfold prune in refl)
        (survivor-bucket l key max_age pruned now v.unique old now_later) in
    rw (step.0, granted-Agrees times key _ _ step.1)
