-- ===== src/Persistence.antt =====
-- The manager of internal/proxy/manager.go over the Store of internal/storage/storage.go, with a driver
-- that executes every statement: the registry and the table of backends as two maps.
pub mod Maps
pub mod Additions
pub mod Calls
pub mod Recovery
mod Tests
use proxygo.Base.{
  ℕ, suc, ◌+◌, ◌≤◌, ◌≡◌, refl, ◌∙◌, ap, arith, ==_iff, Bool, true, false, Option, none, some, List,
  [], ◌∷◌, ◌==◌, if◌then◌else◌, bytes_beq, bytes_beq_iff,
}
use proxygo.Base.Assoc.{
  MapKey, nat_eq, bytes_eq, altered, lookup, assign, delete, alter, lookup-assign, lookup-delete,
  IsMap,
}
use proxygo.Proxy.Manager.{Name, Row, Running, Backends, Storage, Manager, Library, adjust}
use proxygo.Storage.{Rows, Store, store_persist}

abbrev pub every_statement : ℕ → Bool
every_statement n = true

abbrev pub reliable : Storage Store
reliable = store_persist every_statement

abbrev pub row_in : Option Running → Option Row
row_in none = none
row_in (some r) = some r.row

-- The row under which a name runs.
abbrev pub row_at : Name → Backends → Option Row
row_at key m = row_in (lookup key m)

row_in-if :
    (b : Bool) (x y : Option Running)
    → row_in (if b then x else y) ≡ (if b then row_in x else row_in y)
row_in-if true x y = refl
row_in-if false x y = refl

pub row_at-assign :
    (key j : Name) (r : Running) (m : Backends)
    → row_at j (assign key r m) ≡ (if bytes_beq key j then some r.row else row_at j m)
row_at-assign key j r m =
    ap row_in (lookup-assign key j r m) ∙ row_in-if (bytes_beq key j) (some r) (lookup j m)

pub row_at-delete :
    (key j : Name) (m : Backends)
    → row_at j (delete key m) ≡ (if bytes_beq key j then none else row_at j m)
row_at-delete key j m =
    ap row_in (lookup-delete key j m) ∙ row_in-if (bytes_beq key j) none (lookup j m)

-- The change `f` of a running backend is the change `g` of its row.
abbrev pub Acts : (Running → Running) → (Row → Row) → Type 0
Acts f g = (r : Running) → (f r).row ≡ g r.row

pub row_at-adjust :
    (key j : Name) (f : Running → Running) (g : Row → Row) (m : Backends)
    → Acts f g
    → row_at j (adjust key f m) ≡ (if bytes_beq key j then altered g (row_at j m) else row_at j m)
unfolding adjust lookup
row_at-adjust key j f g [] acts = ground arith
row_at-adjust key j f g ((k, r) ∷ m) acts = ground (
  arith,
  acts r,
  bytes_beq_iff k key,
  bytes_beq_iff k j,
  bytes_beq_iff key j,
  row_at-adjust key j f g m acts,
)

-- ---------- the two maps

module _ (lib : Library) where
  -- The registry and the table hold the same rows: a row that runs is enabled, runs under its
  -- lowercase name, and stands in the table under its id; a row of the table runs, and has an id
  -- that was given.
  abbrev pub SameRows : (Name → Option Row) → (ℕ → Option Row) → ℕ → Type 0
  SameRows running stored last =
      ((key : Name) (row : Row)
        → running key ≡ some row
        → (key ≡ lib.to_lower row.name) × (row.enabled ≡ true) × (stored row.id ≡ some row))
      × ((id : ℕ) (row : Row)
          → stored id ≡ some row
          → (row.id ≡ id) × (running (lib.to_lower row.name) ≡ some row) × (id ≤ last))

  pub SameRows-add :
      (running running' : Name → Option Row) (stored stored' : ℕ → Option Row) (last : ℕ)
      (row : Row)
      → row.id ≡ last + 1
      → row.enabled ≡ true
      → running (lib.to_lower row.name) ≡ none
      → ((j : Name)
          → running' j ≡ (if bytes_beq (lib.to_lower row.name) j then some row else running j))
      → ((id : ℕ) → stored' id ≡ (if last + 1 == id then some row else stored id))
      → SameRows running stored last
      → SameRows running' stored' (last + 1)
  SameRows-add running running' stored stored' last row own on missing runs stores (a, b) = (
    λ key r found. ground (
      arith,
      runs key,
      stores r.id,
      bytes_beq_iff (lib.to_lower row.name) key,
      a key r,
      b r.id r,
    ),
    λ id r found. ground (
      arith,
      stores id,
      runs (lib.to_lower r.name),
      bytes_beq_iff (lib.to_lower row.name) (lib.to_lower r.name),
      b id r,
    ),
  )

  pub SameRows-remove :
      (running running' : Name → Option Row) (stored stored' : ℕ → Option Row) (last : ℕ)
      (key : Name) (row : Row)
      → running key ≡ some row
      → ((j : Name) → running' j ≡ (if bytes_beq key j then none else running j))
      → ((id : ℕ) → stored' id ≡ (if row.id == id then none else stored id))
      → SameRows running stored last
      → SameRows running' stored' last
  SameRows-remove running running' stored stored' last key row found runs stores (a, b) = (
    λ k r at_k.
        ground (
          arith,
          runs k,
          stores r.id,
          bytes_beq_iff key k,
          a key row,
          a k r,
          b row.id row,
          b r.id r,
        ),
    λ id r at_id. ground (
      arith,
      stores id,
      runs (lib.to_lower r.name),
      bytes_beq_iff key (lib.to_lower r.name),
      a key row,
      b id r,
    ),
  )

  -- A change of a row that leaves its id, its name and its being enabled alone.
  abbrev pub KeepsRow : (Row → Row) → Type 0
  KeepsRow g =
      (row : Row)
      → ((g row).id ≡ row.id) × ((g row).name ≡ row.name) × ((g row).enabled ≡ row.enabled)

  pub SameRows-change :
      (running running' : Name → Option Row) (stored stored' : ℕ → Option Row) (last : ℕ)
      (key : Name) (row : Row) (g : Row → Row)
      → KeepsRow g
      → running key ≡ some row
      → ((j : Name) → running' j ≡ (if bytes_beq key j then some (g row) else running j))
      → ((id : ℕ) → stored' id ≡ (if row.id == id then some (g row) else stored id))
      → SameRows running stored last
      → SameRows running' stored' last
  SameRows-change running running' stored stored' last key row g keeps found runs stores (a, b) = (
    λ k r at_k. ground (
      arith,
      keeps row,
      runs k,
      stores r.id,
      bytes_beq_iff key k,
      a key row,
      a k r,
      b row.id row,
      b r.id r,
      ap lib.to_lower (keeps row).1,
    ),
    λ id r at_id. ground (
      arith,
      keeps row,
      stores id,
      runs (lib.to_lower r.name),
      bytes_beq_iff key (lib.to_lower r.name),
      a key row,
      b row.id row,
      b id r,
      ap lib.to_lower (keeps row).1,
    ),
  )

  -- The same, of an association list and a table in which no id stands twice.
  abbrev pub SameMaps : Backends → Rows → ℕ → Type 0
  SameMaps m rows last = SameRows (λ key. row_at key m) (λ id. lookup id rows) last × IsMap rows

  -- The manager and its store agree.
  abbrev pub Agree : Manager Store → Type 0
  Agree m = SameMaps m.backends m.store.db.backends m.store.db.sequence
