-- ===== src/Persistence/Maps.antt =====
-- What one call does to the registry and to the table.
use proxygo.Base.{
  ℕ, ◌+◌, ◌≡◌, refl, sym, ◌∙◌, ap, arith, ==_iff, Bool, true, false, Option, none, some, ◌==◌,
  if◌then◌else◌, bytes_beq, bytes_beq_iff,
}
use proxygo.Base.Assoc.{
  nat_eq, bytes_eq, altered, lookup, assign, delete, alter, lookup-assign, lookup-delete,
  lookup-alter, IsMap-assign, IsMap-delete, IsMap-alter,
}
use proxygo.Proxy.Manager.{Name, Row, Running, Backends, adjust, Library}
use proxygo.Storage.{Rows}
use proxygo.Persistence.{
  row_in, row_at, row_at-assign, row_at-delete, row_at-adjust, Acts, KeepsRow, SameRows-add,
  SameRows-remove, SameRows-change, SameMaps,
}

module _ (lib : Library) where
  pub added :
      (r : Running) (m : Backends) (rows : Rows) (last : ℕ)
      → r.row.id ≡ last + 1
      → r.row.enabled ≡ true
      → lookup (lib.to_lower r.row.name) m ≡ none
      → SameMaps lib m rows last
      → SameMaps lib
          (assign (lib.to_lower r.row.name) r m)
          (assign (last + 1) r.row rows)
          (last + 1)
  added r m rows last own on missing same = (
    SameRows-add lib (λ key. row_at key m) _ (λ id. lookup id rows) _ last r.row own on
        (ap row_in missing) (λ j. row_at-assign (lib.to_lower r.row.name) j r m)
        (λ id. lookup-assign (last + 1) id r.row rows) same.0,
    IsMap-assign (last + 1) r.row rows same.1,
  )

  pub removed :
      (key : Name) (r : Running) (m : Backends) (rows : Rows) (last : ℕ)
      → lookup key m ≡ some r
      → SameMaps lib m rows last
      → SameMaps lib (delete key m) (delete r.row.id rows) last
  removed key r m rows last found same = (
    SameRows-remove lib (λ key. row_at key m) _ (λ id. lookup id rows) _ last key r.row
        (ap row_in found) (λ j. row_at-delete key j m) (λ id. lookup-delete r.row.id id rows)
        same.0,
    IsMap-delete r.row.id rows same.1,
  )

  pub changed :
      (key : Name) (f : Running → Running) (g : Row → Row) (r : Running) (m : Backends)
      (rows : Rows) (last : ℕ)
      → Acts f g
      → KeepsRow lib g
      → lookup key m ≡ some r
      → SameMaps lib m rows last
      → SameMaps lib (adjust key f m) (alter r.row.id g rows) last
  changed key f g r m rows last acts keeps found same = (
    SameRows-change lib (λ key. row_at key m) _ (λ id. lookup id rows) _ last key r.row g keeps
        (ap row_in found)
        (λ j. row_at-adjust key j f g m acts ∙ ground (arith, bytes_beq_iff key j, ap row_in found))
        (λ id.
          lookup-alter r.row.id id g rows
          ∙ ground (arith, ==_iff r.row.id id, (same.0.0 key r.row (ap row_in found)).2))
        same.0,
    IsMap-alter r.row.id g rows same.1,
  )

  -- A change that leaves the row alone.
  pub steady :
      (key : Name) (f : Running → Running) (m : Backends) (rows : Rows) (last : ℕ)
      → Acts f (λ row. row)
      → SameMaps lib m rows last
      → SameMaps lib (adjust key f m) rows last
  steady key f m rows last acts ((a, b), unique) = (
    (
      λ k row at_k. a k row (sym (kept k) ∙ at_k),
      λ id row at_id.
          let (own, runs, le) = b id row at_id in (own, kept (lib.to_lower row.name) ∙ runs, le),
    ),
    unique,
  )
    where
      kept : (k : Name) → row_at k (adjust key f m) ≡ row_at k m
      kept k = row_at-adjust key k f (λ row. row) m acts ∙ unchanged (bytes_beq key k) (row_at k m)
        where
          unchanged : (b : Bool) (o : Option Row) → (if b then altered (λ row. row) o else o) ≡ o
          unchanged true none = refl
          unchanged true (some row) = refl
          unchanged false o = refl

  -- A row that is added and deleted again only uses up its id.
  pub undone :
      (row : Row) (m : Backends) (rows : Rows) (last : ℕ)
      → SameMaps lib m rows last
      → SameMaps lib m (delete (last + 1) (assign (last + 1) row rows)) (last + 1)
  undone row m rows last ((a, b), unique) = (
    (
      λ k r at_k.
          let (named, on, stored) = a k r at_k in
          (named, on, kept r.id ∙ ground (arith, ==_iff (last + 1) r.id, b r.id r)),
      λ id r at_id.
          let old : lookup id rows ≡ some r =
            ground (arith, kept id, ==_iff (last + 1) id, at_id) in
          let (own, runs, le) = b id r old in (own, runs, omega arith),
    ),
    IsMap-delete (last + 1) (assign (last + 1) row rows) (IsMap-assign (last + 1) row rows unique),
  )
    where
      kept :
          (id : ℕ)
          → lookup id (delete (last + 1) (assign (last + 1) row rows))
            ≡ (if last + 1 == id then none else lookup id rows)
      kept id =
          lookup-delete (last + 1) id (assign (last + 1) row rows)
          ∙ ground (arith, lookup-assign (last + 1) id row rows)
