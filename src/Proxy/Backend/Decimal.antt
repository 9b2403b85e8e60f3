-- ===== src/Proxy/Backend/Decimal.antt =====
-- itoa: the digits and their value.
use proxygo.Base.{
  ℕ, zero, suc, ◌+◌, ◌-◌, ◌*◌, ◌/◌, ◌%◌, ◌≤◌, ◌≡◌, refl, ap, ◌∙◌, arith, List, [], ◌∷◌, ◌==◌,
  ==_iff, Bool-cases, inl, inr, All,
}
use proxygo.Proxy.Backend.{itoa_loop, itoa}

-- Read as a decimal number behind the digits of `value`.
abbrev pub decimal : ℕ → List ℕ → ℕ
decimal value [] = value
decimal value (d ∷ ds) = decimal (value * 10 + (d - b'0')) ds

abbrev pub IsDigit : ℕ → Type 0
IsDigit d = (b'0' ≤ d) × (d ≤ b'9')

last_digit : (n : ℕ) → n / 10 * 10 + (b'0' + n % 10 - b'0') ≡ n
last_digit n = omega arith

itoa_loop-decimal :
    (fuel n : ℕ) (b : List ℕ) → n ≤ fuel → decimal 0 (itoa_loop fuel n b) ≡ decimal n b
unfolding itoa_loop
itoa_loop-decimal zero n b h = let e : n ≡ 0 = omega arith in rw e
itoa_loop-decimal (suc fuel) n b h = elim (Bool-cases (n == 0)) [
  | inl done ↦ rw (done, (==_iff n 0).0 done) refl
  | inr more ↦
      let rest = itoa_loop-decimal fuel (n / 10) ((b'0' + n % 10) ∷ b) (omega arith) in
      rw more (rest ∙ ap (λ v. decimal v b) (last_digit n))
]

itoa_loop-IsDigit : (fuel n : ℕ) (b : List ℕ) → All IsDigit b → All IsDigit (itoa_loop fuel n b)
unfolding itoa_loop
itoa_loop-IsDigit zero n b digits = digits
itoa_loop-IsDigit (suc fuel) n b digits = elim (Bool-cases (n == 0)) [
  | inl done ↦ rw done digits
  | inr more ↦ rw more (itoa_loop-IsDigit fuel (n / 10) ((b'0' + n % 10) ∷ b) (omega arith, digits))
]

-- The text of a number is made of decimal digits, and they read as the number.
pub decimal-itoa : (n : ℕ) → (decimal 0 (itoa n) ≡ n) × All IsDigit (itoa n)
unfolding itoa
decimal-itoa n = elim (Bool-cases (n == 0)) [
  | inl nought ↦ rw (nought, (==_iff n 0).0 nought) (refl, (omega arith, tt))
  | inr positive ↦ rw positive (itoa_loop-decimal n n [] (omega arith), itoa_loop-IsDigit n n [] tt)
]
