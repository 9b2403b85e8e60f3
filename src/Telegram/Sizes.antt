-- ===== src/Telegram/Sizes.antt =====
-- humanBytes and shortUptime of internal/telegram/helpers.go.
use proxygo.Base.{
  ℕ, zero, suc, ◌+◌, ◌-◌, ◌*◌, ◌/◌, ◌^◌, ◌≤◌, ◌<◌, ◌≡◌, refl, arith, false, ltb, leb, ◌==◌,
  if◌then◌else◌, Result, ok, err, panics, leb→le, Bool-cases, inl, inr, ◌⊎◌, subst, List, get_or,
}
use native.Mathlib.Nat.{mul-le-mul_left, pow-le-pow_right}
use native.Mathlib.Decide.{dec_lt}
use native.Mathlib.Omega.{pow_step}
use proxygo.Base.Text.{codes}
use proxygo.Base.Int.{ℤ, pos, negsuc}

-- A count of bytes, or `n` divided by `unit` with one digit after the point, and the letter.
pub data Size : Type 0 where
  bytes : ℤ → Size
  scaled : ℕ → ℕ → ℕ → Size

-- `for m := n / unit; m >= unit; m /= unit`, with the divisor and the exponent.
unfoldable pub scale_loop : ℕ → ℕ → ℕ → ℕ → ℕ × ℕ
scale_loop zero m unit exp = (unit, exp)
scale_loop (suc fuel) m unit exp =
    let rest = scale_loop fuel (m / 1024) (unit * 1024) (exp + 1) in
    if leb 1024 m then rest else (unit, exp)

-- `n` turns are enough.
abbrev pub scale : ℕ → ℕ × ℕ
scale n = scale_loop n (n / 1024) 1024 0

-- `"KMGT"[exp]`
abbrev pub letter : ℕ → Result (Unit {0}) ℕ
letter exp =
    if exp == 0
    then ok b'K'
    else if exp == 1
    then ok b'M'
    else if exp == 2
    then ok b'G'
    else if exp == 3
    then ok b'T'
    else panics

abbrev pub with_letter : ℕ → ℕ → Result (Unit {0}) ℕ → Result (Unit {0}) Size
with_letter n unit (ok c) = ok (scaled n unit c)
with_letter n unit (err e) = err e
with_letter n unit panics = panics

unfoldable pub human_bytes : ℤ → Result (Unit {0}) Size
human_bytes (negsuc n) = ok (bytes (negsuc n))
human_bytes (pos n) =
    if ltb n 1024 then ok (bytes (pos n)) else with_letter n (scale n).0 (letter (scale n).1)

-- A duration of `seconds` as days and hours, or as hours and minutes.
pub data Uptime : Type 0 where
  days_hours hours_minutes : ℕ → ℕ → Uptime

unfoldable pub short_uptime : ℕ → Uptime
short_uptime seconds =
    let days = seconds / 86400 in
    let rest = seconds - days * 86400 in
    let hours = rest / 3600 in
    let minutes = (rest - hours * 3600) / 60 in
    if ltb 0 days then days_hours days hours else hours_minutes hours minutes

-- ---------- the loop

-- The power of 1024 that is left when `n` is divided by it.
abbrev pub IsScale : ℕ → ℕ × ℕ → Type 0
IsScale n (unit, exp) = (unit ≡ 1024 ^ (exp + 1)) × (unit ≤ n) × (n < unit * 1024)

whole : (m : ℕ) → 1024 * (m / 1024) ≤ m
whole m = omega arith

rounded : (m : ℕ) → m + 1 ≤ 1024 * (m / 1024 + 1)
rounded m = omega arith

under : (m : ℕ) → leb 1024 m ≡ false → m + 1 ≤ 1024
under m small = ground arith

scale_loop-IsScale :
    (n fuel m unit exp : ℕ)
    → m ≤ fuel
    → 1 ≤ m
    → unit * m ≤ n
    → n < unit * (m + 1)
    → unit ≡ 1024 ^ (exp + 1)
    → IsScale n (scale_loop fuel m unit exp)
unfolding scale_loop
scale_loop-IsScale n zero m unit exp enough some below above power = absurd (omega arith)
scale_loop-IsScale n (suc fuel) m unit exp enough some below above power =
    elim (Bool-cases (leb 1024 m)) [
      | inl big ↦ rw big (
          scale_loop-IsScale n fuel (m / 1024) (unit * 1024) (exp + 1) (omega arith)
            (omega (arith, leb→le 1024 m big)) (grind (arith, mul-le-mul_left unit (whole m)))
            (grind (arith, mul-le-mul_left unit (rounded m)))
            (grind (arith, pow_step 1024 (exp + 1))))
      | inr small ↦ rw small (
        power,
        grind (arith, mul-le-mul_left unit some),
        grind (arith, mul-le-mul_left unit (under m small)),
      )
    ]

scale-IsScale : (n : ℕ) → 1024 ≤ n → IsScale n (scale n)
scale-IsScale n big =
    scale_loop-IsScale n n (n / 1024) 1024 0 (omega arith) (omega arith) (omega arith) (omega arith)
      refl

-- The exponent has a letter exactly where `n` is below the fifth power of the unit.
exponent_small : (n : ℕ) → 1024 ≤ n → n < 1024 ^ 5 → (scale n).1 < 4
exponent_small n big below = elim (dec_lt (scale n).1 4) [
  | yes few ↦ few
  | no many ↦
      let power =
        pow-le-pow_right {n = 1024} (omega arith) {i = 5} {j = (scale n).1 + 1}
          (omega (arith, many)) in
      absurd (omega (arith, power, scale-IsScale n big))
]

exponent_big : (n : ℕ) → 1024 ≤ n → 1024 ^ 5 ≤ n → 4 ≤ (scale n).1
exponent_big n big above = elim (dec_lt (scale n).1 4) [
  | no many ↦ omega (arith, many)
  | yes few ↦
      let power =
        pow-le-pow_right {n = 1024} (omega arith) {i = (scale n).1 + 1} {j = 4}
          (omega (arith, few)) in
      absurd (omega (arith, power, scale-IsScale n big))
]

-- The loop comes to the same with any number of turns that is enough.
scale_loop_enough :
    (f k m unit exp : ℕ) → m ≤ f → m ≤ k → scale_loop f m unit exp ≡ scale_loop k m unit exp
unfolding scale_loop
scale_loop_enough zero zero m unit exp hf hk = refl
scale_loop_enough zero (suc k) m unit exp hf hk = ground (arith, hf)
scale_loop_enough (suc f) zero m unit exp hf hk = ground (arith, hk)
scale_loop_enough (suc f) (suc k) m unit exp hf hk = elim (Bool-cases (leb 1024 m)) [
  | inl big ↦ rw big (
      scale_loop_enough f k (m / 1024) (unit * 1024) (exp + 1) (omega (arith, leb→le 1024 m big))
        (omega (arith, leb→le 1024 m big)))
  | inr small ↦ rw small refl
]

-- The letters of the units from 1024 on, as the source has them.
abbrev pub unit_letters : List ℕ
unit_letters = codes "KMGT"

letter-ok : (exp : ℕ) → exp < 4 → letter exp ≡ ok (get_or unit_letters exp 0)
letter-ok zero few = refl
letter-ok (suc zero) few = refl
letter-ok (suc (suc zero)) few = refl
letter-ok (suc (suc (suc zero))) few = refl
letter-ok (suc (suc (suc (suc e)))) few = absurd (omega arith)

letter-panics : (exp : ℕ) → 4 ≤ exp → letter exp ≡ panics
letter-panics exp many = ground arith

-- The count over the largest power of the unit that leaves at least 1, below its fifth, with the
-- letter of that power.
abbrev pub IsReadable : ℕ → Result (Unit {0}) Size → Type 0
IsReadable n r =
    (exp : ℕ) × (exp < 4)
    × (1024 ^ (exp + 1) ≤ n)
    × (n < 1024 ^ (exp + 1) * 1024)
    × (r ≡ ok (scaled n (1024 ^ (exp + 1)) (get_or unit_letters exp 0)))

above_unit :
    (n : ℕ)
    → 1024 ≤ n
    → IsReadable n (human_bytes (pos n)) ⊎ (1024 ^ 5 ≤ n) × (human_bytes (pos n) ≡ panics)
unfolding human_bytes
above_unit n big =
    let (power, below, above) = scale-IsScale n big in
    elim (dec_lt n (1024 ^ 5)) [
      | yes small ↦
          let few = exponent_small n big small in
          inl (
            (scale n).1,
            few,
            omega (arith, power, below),
            subst (λ u. n < u * 1024) power above,
            ground (arith, letter-ok (scale n).1 few, power),
          )
      | no huge ↦ inr (
        omega (arith, huge),
        ground (arith, letter-panics (scale n).1 (exponent_big n big (omega (arith, huge)))),
      )
    ]

-- Of every count from 0 on, humanBytes shows the count itself below 1024; the count in the largest of
-- the units K, M, G and T that leaves at least 1, below 1024^5; and from there on it panics on the
-- index of its letters. Its loop ends: any number of turns from the count on comes to the same.
pub human_bytes_outcome :
    (n fuel : ℕ)
    → n ≤ fuel
    → ((n < 1024) × (human_bytes (pos n) ≡ ok (bytes (pos n)))
        ⊎ (IsReadable n (human_bytes (pos n)) ⊎ (1024 ^ 5 ≤ n) × (human_bytes (pos n) ≡ panics)))
      × (scale_loop fuel (n / 1024) 1024 0 ≡ scale n)
unfolding human_bytes
human_bytes_outcome n fuel enough = (
  elim (dec_lt n 1024) [
    | yes few ↦ inl (few, ground arith)
    | no many ↦ inr (above_unit n (omega (arith, many)))
  ],
  scale_loop_enough fuel n (n / 1024) 1024 0 (omega arith) (omega arith),
)
