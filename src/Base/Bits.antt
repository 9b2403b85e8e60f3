-- ===== src/Base/Bits.antt =====
-- Facts about `bit_and` and `bit_or` on bytes and on disjoint fields of bits.
use Prim.Native.Nat.{
  ℕ, zero, suc, ◌+◌, ◌*◌, ◌/◌, ◌%◌, ◌^◌, ◌≤◌, ◌<◌, min, max, bit_and, bit_or, digits,
  bit_and-bitwise, bit_or-bitwise,
}
use mathlib.Core.Path.{◌≡◌, refl, ap}
use mathlib.Core.Bool.{Bool, true, false}
use native.Mathlib.Omega.{arith}
use native.Mathlib.Numerals.{towards_suc}
use mathlib.Core.Logic.{inl, inr}
use proxygo.Base.Tests.{◌==◌, ==_iff, if◌then◌else◌, Bool-cases}

-- Do two functions of a byte agree on every number below a bound?
agrees : (ℕ → ℕ) → (ℕ → ℕ) → ℕ → Bool
agrees f g zero = true
agrees f g (suc bound) = if f bound == g bound then agrees f g bound else false

agree_below : (f g : ℕ → ℕ) (bound : ℕ) → agrees f g bound ≡ true → (v : ℕ) → v < bound → f v ≡ g v
unfolding agrees
agree_below f g zero table v below = absurd (omega arith)
agree_below f g (suc bound) table v below = elim (Bool-cases (v == bound)) [
  | inl last ↦
      let e : v ≡ bound = (==_iff v bound).0 last in
      rw e (ground (arith, ==_iff (f bound) (g bound)))
  | inr earlier ↦
      ground
        (arith, ==_iff (f bound) (g bound), agree_below f g bound (known table) v, ==_iff v bound)
]
  where
    known : agrees f g (suc bound) ≡ true → agrees f g bound ≡ true
    known h = ground arith

pub top_bit : (b : ℕ) → b < 256 → bit_and b 0x80 ≡ b / 128 * 128
unfolding agrees
top_bit = agree_below _ _ 256 refl

pub with_top_bit : (b : ℕ) → b < 128 → bit_or b 0x80 ≡ b + 128
unfolding agrees
with_top_bit = agree_below _ _ 128 refl

-- The version and the variant field of a UUID.
pub version_three : (b : ℕ) → b < 256 → bit_or (bit_and b 0x0f) 0x30 ≡ b % 16 + 48
unfolding agrees
version_three = agree_below _ _ 256 refl

pub rfc_variant : (b : ℕ) → b < 256 → bit_or (bit_and b 0x3f) 0x80 ≡ b % 64 + 128
unfolding agrees
rfc_variant = agree_below _ _ 256 refl

-- The bit operations recur on binary digits, with fuel; any fuel that covers the first number gives
-- the same.
module _ (stop : ℕ → ℕ) (digit : ℕ → ℕ → ℕ) where
  fuel_irrelevant :
      (x y some_fuel other_fuel : ℕ)
      → (x ≤ some_fuel) × (x ≤ other_fuel)
      → digits stop digit some_fuel x y ≡ digits stop digit other_fuel x y
  fuel_irrelevant zero y zero zero covers = refl
  fuel_irrelevant zero y zero (suc other) covers = refl
  fuel_irrelevant zero y (suc some_fuel) zero covers = refl
  fuel_irrelevant zero y (suc some_fuel) (suc other) covers = refl
  fuel_irrelevant (suc x) y zero other (first, second) = absurd (omega arith)
  fuel_irrelevant (suc x) y (suc some_fuel) zero (first, second) = absurd (omega arith)
  fuel_irrelevant (suc x) y (suc some_fuel) (suc other) (first, second) =
      omega (arith, fuel_irrelevant (suc x / 2) (y / 2) some_fuel other (omega arith, omega arith))

  lowest_digit :
      (x y : ℕ)
      → digits stop digit (suc x) (suc x) y
        ≡ digit (suc x % 2) (y % 2) + 2 * digits stop digit (suc x / 2) (suc x / 2) (y / 2)
  lowest_digit x y =
      omega (arith, fuel_irrelevant (suc x / 2) (y / 2) x (suc x / 2) (omega arith, omega arith))

zero-bit_or : (v : ℕ) → bit_or 0 v ≡ v
zero-bit_or v = bit_or-bitwise 0 v

zero-bit_and : (v : ℕ) → bit_and 0 v ≡ 0
zero-bit_and v = bit_and-bitwise 0 v

bit_or_lowest : (x y : ℕ) → bit_or x y ≡ max (x % 2) (y % 2) + 2 * bit_or (x / 2) (y / 2)
bit_or_lowest zero y = omega (arith, zero-bit_or (y / 2), zero-bit_or y)
bit_or_lowest (suc x) y =
    rw (bit_or-bitwise (suc x) y, bit_or-bitwise (suc x / 2) (y / 2))
      (lowest_digit (λ v. v) max x y)

bit_and_lowest : (x y : ℕ) → bit_and x y ≡ min (x % 2) (y % 2) + 2 * bit_and (x / 2) (y / 2)
bit_and_lowest zero y = omega (arith, zero-bit_and (y / 2), zero-bit_and y)
bit_and_lowest (suc x) y =
    rw (bit_and-bitwise (suc x) y, bit_and-bitwise (suc x / 2) (y / 2))
      (lowest_digit (λ v. 0) min x y)

masked_by_none : (bound v : ℕ) → v ≤ bound → bit_and v 0 ≡ 0
masked_by_none bound zero covers = refl
masked_by_none zero (suc v) covers = absurd (omega arith)
masked_by_none (suc bound) (suc v) covers =
    omega (arith, masked_by_none bound (suc v / 2) (omega arith), bit_and_lowest (suc v) 0)

bit_and-zero : (v : ℕ) → bit_and v 0 ≡ 0
bit_and-zero v = masked_by_none v v (omega arith)

bit_and-three : (a : ℕ) → bit_and a 3 ≡ a % 4
bit_and-three a =
    omega (arith, bit_and_lowest a 3, bit_and_lowest (a / 2) 1, bit_and-zero (a / 2 / 2))

-- The lowest four and the lowest seven bits of a number of any size.
pub low_four : (a : ℕ) → bit_and a 0x0f ≡ a % 16
low_four a = omega (arith, bit_and_lowest a 15, bit_and_lowest (a / 2) 7, bit_and-three (a / 2 / 2))

pub low_seven : (a : ℕ) → bit_and a 0x7f ≡ a % 128
low_seven a = omega (
  arith,
  bit_and_lowest a 127,
  bit_and_lowest (a / 2) 63,
  bit_and_lowest (a / 2 / 2) 31,
  low_four (a / 2 / 2 / 2),
)

double_shift : (w k : ℕ) → w * 2 ^ suc k ≡ w * 2 ^ k * 2
double_shift w k = grind arith

-- A field of bits above the first `k` is added by `bit_or`.
pub bit_or_disjoint : (k v w : ℕ) → v < 2 ^ k → bit_or v (w * 2 ^ k) ≡ v + w * 2 ^ k
bit_or_disjoint zero v w h =
    omega (arith, zero-bit_or (w * 2 ^ 0), ap (λ (t : ℕ). bit_or t (w * 1)) (v_zero))
  where
    v_zero : v ≡ 0
    v_zero = omega arith
bit_or_disjoint (suc k) v w h = omega (
  arith,
  bit_or_lowest v (w * 2 ^ suc k),
  bit_or_disjoint k (v / 2) w (omega arith),
  double_shift w k,
  ap (λ (t : ℕ). bit_or (v / 2) t) half_shift,
)
  where
    half_shift : w * 2 ^ suc k / 2 ≡ w * 2 ^ k
    half_shift = omega (arith, double_shift w k)

joined_with_none : (bound v : ℕ) → v ≤ bound → bit_or v 0 ≡ v
joined_with_none bound zero covers = refl
joined_with_none zero (suc v) covers = absurd (omega arith)
joined_with_none (suc bound) (suc v) covers =
    omega (arith, joined_with_none bound (suc v / 2) (omega arith), bit_or_lowest (suc v) 0)

-- The same with the higher field first.
pub bit_or_above : (k w v : ℕ) → v < 2 ^ k → bit_or (w * 2 ^ k) v ≡ w * 2 ^ k + v
bit_or_above zero w v h =
    let v_zero : v ≡ 0 = omega arith in rw v_zero (omega (arith, joined_with_none (w * 1) (w * 1)))
bit_or_above (suc k) w v h = omega (
  arith,
  bit_or_lowest (w * 2 ^ suc k) v,
  bit_or_above k w (v / 2) (omega arith),
  double_shift w k,
  ap (λ (t : ℕ). bit_or t (v / 2)) half_shift,
)
  where
    half_shift : w * 2 ^ suc k / 2 ≡ w * 2 ^ k
    half_shift = omega (arith, double_shift w k)

pow_seven : (n : ℕ) → 2 ^ (n + 7) ≡ 2 ^ n * 128
pow_seven n = simp towards_suc (omega arith)

-- Seven more bits of shift.
pub shift_seven : (i : ℕ) → 2 ^ (7 * (i + 1)) ≡ 2 ^ (7 * i) * 128
shift_seven i = rw e (pow_seven (7 * i))
  where
    e : 7 * (i + 1) ≡ 7 * i + 7
    e = omega arith
