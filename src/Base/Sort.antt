-- ===== src/Base/Sort.antt =====
-- sort.Slice and sort.Strings as insertion sort: items that compare equal keep their order, where
-- the library's sort may put them in any.
use Prim.Native.Nat.{ℕ, ◌+◌, ◌≤◌}
use mathlib.Core.Path.{◌≡◌, refl}
use mathlib.Core.Bool.{Bool, true, false}
use mathlib.Core.List.{List, [], ◌∷◌}
use native.Mathlib.Omega.{arith}
use proxygo.Base.Tests.{if◌then◌else◌, ltb, Bool-cases}
use mathlib.Core.Logic.{inl, inr}

module _ {ℓ} {A : Type ℓ} (less : A → A → Bool) where
  unfoldable pub insert_by : A → List A → List A
  insert_by x [] = x ∷ []
  insert_by x (y ∷ ys) = let rest = insert_by x ys in if less y x then y ∷ rest else x ∷ y ∷ ys

  unfoldable pub sort_by : List A → List A
  sort_by [] = []
  sort_by (x ∷ xs) = insert_by x (sort_by xs)

-- The order of Go strings.
abbrev pub bytes_less : List ℕ → List ℕ → Bool
bytes_less [] [] = false
bytes_less [] (b ∷ t) = true
bytes_less (a ∷ s) [] = false
bytes_less (a ∷ s) (b ∷ t) = if ltb a b then true else if ltb b a then false else bytes_less s t

module _ {ℓ} {A : Type ℓ} where
  -- The total of a number over a list, and the number of times that a test holds.
  abbrev pub total : (A → ℕ) → List A → ℕ
  total f [] = 0
  total f (x ∷ xs) = f x + total f xs

  -- Each item is at least every later one, by a number.
  abbrev pub IsAtLeast : (A → ℕ) → ℕ → List A → Type 0
  IsAtLeast f n [] = Unit {0}
  IsAtLeast f n (x ∷ xs) = (f x ≤ n) × IsAtLeast f n xs

  abbrev pub IsDescending : (A → ℕ) → List A → Type 0
  IsDescending f [] = Unit {0}
  IsDescending f (x ∷ xs) = IsAtLeast f (f x) xs × IsDescending f xs

  -- `rows[i].v > rows[j].v`
  abbrev pub more : (A → ℕ) → A → A → Bool
  more f x y = ltb (f y) (f x)

  IsAtLeast-mono : (f : A → ℕ) (m n : ℕ) (xs : List A) → m ≤ n → IsAtLeast f m xs → IsAtLeast f n xs
  IsAtLeast-mono f m n [] le h = tt
  IsAtLeast-mono f m n (x ∷ xs) le (h, hs) = (omega arith, IsAtLeast-mono f m n xs le hs)

  IsAtLeast-insert :
      (f : A → ℕ) (n : ℕ) (x : A) (xs : List A)
      → f x ≤ n
      → IsAtLeast f n xs
      → IsAtLeast f n (insert_by (more f) x xs)
  unfolding insert_by
  IsAtLeast-insert f n x [] le h = (le, tt)
  IsAtLeast-insert f n x (y ∷ ys) le (h, hs) = ground (arith, IsAtLeast-insert f n x ys le hs)

  IsDescending-insert :
      (f : A → ℕ) (x : A) (xs : List A)
      → IsDescending f xs
      → IsDescending f (insert_by (more f) x xs)
  unfolding insert_by
  IsDescending-insert f x [] h = (tt, tt)
  IsDescending-insert f x (y ∷ ys) (h, hs) = elim (Bool-cases (more f y x)) [
    | inl y_first ↦
        rw y_first (IsAtLeast-insert f (f y) x ys (ground arith) h, IsDescending-insert f x ys hs)
    | inr x_first ↦
        rw x_first ((ground arith, IsAtLeast-mono f (f y) (f x) ys (ground arith) h), (h, hs))
  ]

  pub IsDescending-sort : (f : A → ℕ) (xs : List A) → IsDescending f (sort_by (more f) xs)
  unfolding sort_by
  IsDescending-sort f [] = tt
  IsDescending-sort f (x ∷ xs) =
      IsDescending-insert f x (sort_by (more f) xs) (IsDescending-sort f xs)

  total-insert :
      (less : A → A → Bool) (g : A → ℕ) (x : A) (xs : List A)
      → total g (insert_by less x xs) ≡ g x + total g xs
  unfolding insert_by
  total-insert less g x [] = refl
  total-insert less g x (y ∷ ys) = ground (arith, total-insert less g x ys)

  -- Sorting keeps every total, so also how often each item stands in the list.
  pub total-sort :
      (less : A → A → Bool) (g : A → ℕ) (xs : List A) → total g (sort_by less xs) ≡ total g xs
  unfolding sort_by
  total-sort less g [] = refl
  total-sort less g (x ∷ xs) =
      omega (arith, total-insert less g x (sort_by less xs), total-sort less g xs)
