-- ===== src/Security/Limiter/Tests.antt =====
-- Concrete runs, and the theorems at concrete inputs.
use proxygo.Base.{ℕ, ◌*◌, ◌≤◌, ◌≡◌, refl, arith, List, [], ◌∷◌}
use proxygo.Base.Int.{pos}
use proxygo.Base.Assoc.{bytes_eq, lookup, assign}
use proxygo.Base.Text.{codes}
use proxygo.Security.Limiter.{Limiter, new_limiter, allow}
use proxygo.Security.Limiter.Quota.{granted}
use proxygo.Security.Limiter.Shared.{granted_to, granted_to-le-twice_capacity}
use proxygo.Security.Limiter.Prune.{IsValid, new_limiter-IsValid}

abbrev alice : List ℕ
alice = codes "alice"

-- Two uses in ten nanoseconds.
abbrev two_per_ten : Limiter
two_per_ten = record { capacity = 2; refill = 10; buckets = [] }

new_two_per_ten : new_limiter (pos 2) (pos 10) ≡ two_per_ten
unfolding new_limiter
new_two_per_ten = refl

two_per_ten-IsValid : IsValid two_per_ten
unfolding new_limiter
two_per_ten-IsValid = new_limiter-IsValid (pos 2) (pos 10)

third_refused : granted two_per_ten alice (100 ∷ 101 ∷ 102 ∷ 109 ∷ []) ≡ 2
unfolding granted allow lookup assign
third_refused = refl

-- Four uses in two nanoseconds: the old tokens just before the refill, and the new ones.
burst : granted two_per_ten alice (100 ∷ 109 ∷ 110 ∷ 111 ∷ []) ≡ 4
unfolding granted allow lookup assign
burst = refl

-- A second key calls between the calls of the first.
abbrev mixed : List (List ℕ × ℕ)
mixed = (alice, 100) ∷ (codes "bob", 101) ∷ (alice, 102) ∷ (alice, 109) ∷ []

alice_twice : granted_to two_per_ten alice mixed ≡ 2
unfolding granted_to allow lookup assign
alice_twice = refl

granted_to-le-twice_capacity_example : granted_to two_per_ten alice mixed ≤ 2 * 2
granted_to-le-twice_capacity_example =
    granted_to-le-twice_capacity two_per_ten alice 100 mixed (omega arith)
      two_per_ten-IsValid.bounded (ground arith)
