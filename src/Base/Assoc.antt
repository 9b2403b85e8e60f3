-- ===== src/Base/Assoc.antt =====
-- Go maps as association lists, and equality of keys as an interface.
use Prim.Native.Nat.{ℕ}
use mathlib.Core.Path.{◌≡◌, refl, ◌∙◌}
use mathlib.Core.Logic.{◌↔◌}
use mathlib.Core.Bool.{Bool, true, ◌&&◌}
use mathlib.Core.Option.{Option, none, some}
use mathlib.Core.List.{List, [], ◌∷◌}
use native.Mathlib.Omega.{arith}
use proxygo.Base.Tests.{if◌then◌else◌, nat_beq, ==_iff}
use proxygo.Base.Lists.{bytes_beq, bytes_beq_iff}
use proxygo.Base.Int.{ℤ, eq_ℤ, eq_ℤ_iff}

pub record MapKey {ℓ} (A : Type ℓ) : Type ℓ where
  pub same : A → A → Bool
  pub same_iff : (j k : A) → (same j k ≡ true) ↔ (j ≡ k)

infix 50 ◌=?◌
abbrev pub ◌=?◌ {ℓ} : {A : Type ℓ} ⦃e : MapKey A⦄ → A → A → Bool
◌=?◌ ⦃e⦄ = e.same

instance abbrev pub nat_eq : MapKey ℕ
nat_eq = record { same_iff = ==_iff; same = nat_beq }

instance abbrev pub int_eq : MapKey ℤ
int_eq = record { same = eq_ℤ; same_iff = eq_ℤ_iff }

-- Go strings are lists of bytes.
instance abbrev pub bytes_eq : MapKey (List ℕ)
bytes_eq = record { same = bytes_beq; same_iff = bytes_beq_iff }

abbrev pub same_pair {ℓ κ} :
    {A : Type ℓ} {B : Type κ} ⦃e : MapKey A⦄ ⦃f : MapKey B⦄ → A × B → A × B → Bool
same_pair ⦃e⦄ ⦃f⦄ (a, b) (c, d) = e.same a c && f.same b d

pub same_pair_iff {ℓ κ} :
    {A : Type ℓ} {B : Type κ} ⦃e : MapKey A⦄ ⦃f : MapKey B⦄ (p q : A × B)
    → (same_pair p q ≡ true) ↔ (p ≡ q)
same_pair_iff ⦃e⦄ ⦃f⦄ (a, b) (c, d) = ground (arith, e.same_iff a c, f.same_iff b d)

instance abbrev pub pair_eq {ℓ κ} :
    {A : Type ℓ} {B : Type κ} ⦃e : MapKey A⦄ ⦃f : MapKey B⦄ → MapKey (A × B)
pair_eq = record { same_iff = same_pair_iff; same = same_pair }

pub same_self {ℓ} : {A : Type ℓ} ⦃e : MapKey A⦄ (a : A) → (a =? a) ≡ true
same_self ⦃e⦄ a = (e.same_iff a a).1 refl

abbrev pub altered {ℓ} : {V : Type ℓ} → (V → V) → Option V → Option V
altered f none = none
altered f (some v) = some (f v)

-- `m[k]` with the `ok` result, `m[k] = v` and `delete(m, k)`.
module _ {ℓ κ} {K : Type ℓ} {V : Type κ} ⦃e : MapKey K⦄ where
  unfoldable pub lookup : K → List (K × V) → Option V
  lookup k [] = none
  lookup k ((j, v) ∷ m) = if j =? k then some v else lookup k m

  unfoldable pub assign : K → V → List (K × V) → List (K × V)
  assign k v [] = (k, v) ∷ []
  assign k v ((j, w) ∷ m) = if j =? k then (k, v) ∷ m else (j, w) ∷ assign k v m

  unfoldable pub delete : K → List (K × V) → List (K × V)
  delete k [] = []
  delete k ((j, w) ∷ m) = let rest = delete k m in if j =? k then rest else (j, w) ∷ rest

  pub lookup-assign :
      (k j : K) (v : V) (m : List (K × V))
      → lookup j (assign k v m) ≡ (if k =? j then some v else lookup j m)
  unfolding lookup assign
  lookup-assign k j v [] = refl
  lookup-assign k j v ((i, w) ∷ m) =
      ground (arith, e.same_iff k j, e.same_iff i k, e.same_iff i j, lookup-assign k j v m)

  pub lookup-delete :
      (k j : K) (m : List (K × V)) → lookup j (delete k m) ≡ (if k =? j then none else lookup j m)
  unfolding lookup delete
  lookup-delete k j [] = ground arith
  lookup-delete k j ((i, w) ∷ m) =
      ground (arith, e.same_iff k j, e.same_iff i k, e.same_iff i j, lookup-delete k j m)

  pub lookup-assign_self : (k : K) (v : V) (m : List (K × V)) → lookup k (assign k v m) ≡ some v
  lookup-assign_self k v m = lookup-assign k k v m ∙ rw (same_self k)

  pub lookup-delete_self : (k : K) (m : List (K × V)) → lookup k (delete k m) ≡ none
  lookup-delete_self k m = lookup-delete k k m ∙ rw (same_self k)

  -- A change to the entry of a key, where there is one.
  unfoldable pub alter : K → (V → V) → List (K × V) → List (K × V)
  alter k f [] = []
  alter k f ((j, v) ∷ m) = (j, if j =? k then f v else v) ∷ alter k f m

  pub lookup-alter :
      (k j : K) (f : V → V) (m : List (K × V))
      → lookup j (alter k f m) ≡ (if k =? j then altered f (lookup j m) else lookup j m)
  unfolding lookup alter
  lookup-alter k j f [] = ground arith
  lookup-alter k j f ((i, w) ∷ m) =
      ground (arith, e.same_iff k j, e.same_iff i k, e.same_iff i j, lookup-alter k j f m)

  -- `for k, v := range m { if test(k, v) { delete(m, k) } }`
  unfoldable pub delete_if : (K → V → Bool) → List (K × V) → List (K × V)
  delete_if test [] = []
  delete_if test ((k, v) ∷ m) =
      let rest = delete_if test m in if test k v then rest else (k, v) ∷ rest

  -- A key stands in at most one entry, as in a Go map.
  abbrev pub IsMap : List (K × V) → Type κ
  IsMap [] = Unit {κ}
  IsMap ((k, v) ∷ m) = ((lookup k m ≡ none) × IsMap m)

  abbrev pub survivor : (K → V → Bool) → K → Option V → Option V
  survivor test k none = none
  survivor test k (some v) = if test k v then none else some v

  pub lookup-delete_if :
      (test : K → V → Bool) (k : K) (m : List (K × V))
      → IsMap m
      → lookup k (delete_if test m) ≡ survivor test k (lookup k m)
  unfolding lookup delete_if
  lookup-delete_if test k [] unique = refl
  lookup-delete_if test k ((j, v) ∷ m) (fresh, unique) =
      ground (arith, e.same_iff j k, same_self k, fresh, lookup-delete_if test k m unique)

  pub IsMap-assign : (k : K) (v : V) (m : List (K × V)) → IsMap m → IsMap (assign k v m)
  unfolding assign lookup
  IsMap-assign k v [] unique = (refl, tt)
  IsMap-assign k v ((j, w) ∷ m) (fresh, unique) = ground (
    arith,
    e.same_iff j k,
    e.same_iff k j,
    fresh,
    unique,
    lookup-assign k j v m,
    IsMap-assign k v m unique,
  )

  pub IsMap-delete : (k : K) (m : List (K × V)) → IsMap m → IsMap (delete k m)
  unfolding delete
  IsMap-delete k [] unique = tt
  IsMap-delete k ((j, w) ∷ m) (fresh, unique) =
      ground (arith, e.same_iff k j, fresh, lookup-delete k j m, IsMap-delete k m unique)

  pub IsMap-delete_if :
      (test : K → V → Bool) (m : List (K × V)) → IsMap m → IsMap (delete_if test m)
  unfolding delete_if
  IsMap-delete_if test [] unique = tt
  IsMap-delete_if test ((j, w) ∷ m) (fresh, unique) =
      ground (arith, fresh, lookup-delete_if test j m unique, IsMap-delete_if test m unique)

  pub IsMap-alter : (k : K) (f : V → V) (m : List (K × V)) → IsMap m → IsMap (alter k f m)
  unfolding alter
  IsMap-alter k f [] unique = tt
  IsMap-alter k f ((j, v) ∷ m) (fresh, unique) =
      (lookup-alter k j f m ∙ ground (arith, fresh), IsMap-alter k f m unique)
