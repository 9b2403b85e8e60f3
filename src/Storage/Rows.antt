-- ===== src/Storage/Rows.antt =====
-- The table of backends under the statements of the store: its key, its order and its names.
use proxygo.Base.{
  ℕ, ◌+◌, ◌≤◌, ◌<◌, ◌≡◌, refl, sym, subst, arith, ==_iff, Bool, true, false, Option, none, some,
  List, [], ◌∷◌, ◌==◌, if◌then◌else◌, bytes_beq, bytes_beq_iff, Option-cases, inl, inr,
}
use proxygo.Base.Assoc.{nat_eq, assign, delete, alter}
use proxygo.Proxy.Manager.{Name, Row}
use proxygo.Storage.{
  Rows, Sums, Database, Store, with_name, insert_backend, update_backend, delete_row, insert_stat,
  settle, set_mode, set_udp, unset_udp, add_backend, update_backend_forward_mode,
  update_backend_udp, clear_backend_udp, delete_backend, record_stat, last_insert_id,
}

-- Each row carries its id, the ids ascend from above `low` to at most `high`, and no name stands
-- twice.
abbrev pub IsTable : ℕ → ℕ → Rows → Type 0
IsTable low high [] = low ≤ high
IsTable low high ((id, row) ∷ rows) =
    (low < id) × (row.id ≡ id) × (with_name row.name rows ≡ none) × IsTable id high rows

IsTable-le : (low high : ℕ) (rows : Rows) → IsTable low high rows → low ≤ high
IsTable-le low high [] table = table
IsTable-le low high ((id, row) ∷ rows) (above, own, apart, table) =
    omega (arith, IsTable-le id high rows table)

-- ---------- INSERT

with_name-assign :
    (id : ℕ) (row : Row) (name : Name) (rows : Rows)
    → with_name name rows ≡ none
    → bytes_beq row.name name ≡ false
    → with_name name (assign id row rows) ≡ none
unfolding assign
with_name-assign id row name [] missing other = ground arith
with_name-assign id row name ((j, r) ∷ rows) missing other =
    ground (arith, ==_iff j id, with_name-assign id row name rows)

IsTable-assign :
    (low high : ℕ) (row : Row) (rows : Rows)
    → row.id ≡ high + 1
    → with_name row.name rows ≡ none
    → IsTable low high rows
    → IsTable low (high + 1) (assign (high + 1) row rows)
unfolding assign
IsTable-assign low high row [] own fresh table = (omega arith, own, refl, omega arith)
IsTable-assign low high row ((j, r) ∷ rows) own fresh (above, mine, apart, table) =
    let older : (j == high + 1) ≡ false = ground (arith, IsTable-le j high rows table) in
    ground (
      arith,
      older,
      bytes_beq_iff r.name row.name,
      bytes_beq_iff row.name r.name,
      with_name-assign (high + 1) row r.name rows,
      IsTable-assign j high row rows own,
    )

-- ---------- UPDATE

-- A change to a row that leaves its id and its name alone.
abbrev pub KeepsKeys : (Row → Row) → Type 0
KeepsKeys f = (row : Row) → ((f row).id ≡ row.id) × ((f row).name ≡ row.name)

with_name-alter :
    (id : ℕ) (f : Row → Row) (name : Name) (rows : Rows)
    → KeepsKeys f
    → with_name name rows ≡ none
    → with_name name (alter id f rows) ≡ none
unfolding alter
with_name-alter id f name [] keeps missing = refl
with_name-alter id f name ((j, r) ∷ rows) keeps missing =
    ground (arith, keeps r, with_name-alter id f name rows keeps)

IsTable-alter :
    (low high id : ℕ) (f : Row → Row) (rows : Rows)
    → KeepsKeys f
    → IsTable low high rows
    → IsTable low high (alter id f rows)
unfolding alter
IsTable-alter low high id f [] keeps table = table
IsTable-alter low high id f ((j, r) ∷ rows) keeps (above, own, apart, table) = ground (
  arith,
  keeps r,
  with_name-alter id f r.name rows keeps apart,
  IsTable-alter j high id f rows keeps table,
)

-- ---------- DELETE

with_name-delete :
    (id : ℕ) (name : Name) (rows : Rows)
    → with_name name rows ≡ none
    → with_name name (delete id rows) ≡ none
unfolding delete
with_name-delete id name [] missing = refl
with_name-delete id name ((j, r) ∷ rows) missing = ground (arith, with_name-delete id name rows)

IsTable-weaken :
    (low mid high : ℕ) (rows : Rows) → low ≤ mid → IsTable mid high rows → IsTable low high rows
IsTable-weaken low mid high [] le table = omega arith
IsTable-weaken low mid high ((j, r) ∷ rows) le (above, own, apart, table) =
    (omega arith, own, apart, table)

IsTable-delete :
    (low high id : ℕ) (rows : Rows) → IsTable low high rows → IsTable low high (delete id rows)
unfolding delete
IsTable-delete low high id [] table = table
IsTable-delete low high id ((j, r) ∷ rows) (above, own, apart, table) = ground (
  arith,
  with_name-delete id r.name rows apart,
  IsTable-delete j high id rows table,
  IsTable-weaken low j high (delete id rows),
)

-- ---------- the methods

-- A call of a method that writes.
pub data Write : Type 0 where
  adds : Row → Write
  sets_mode : ℕ → List ℕ → Write
  sets_udp : ℕ → ℕ → List ℕ → Write
  clears_udp : ℕ → Write
  deletes : ℕ → Write
  records : ℕ → ℕ → Sums → Write

module _ (works : ℕ → Bool) where
  unfoldable pub write : Write → Store → Store
  write (adds row) s = (add_backend works row s).1
  write (sets_mode id mode) s = (update_backend_forward_mode works id mode s).1
  write (sets_udp id port addr) s = (update_backend_udp works id port addr s).1
  write (clears_udp id) s = (clear_backend_udp works id s).1
  write (deletes id) s = (delete_backend works id s).1
  write (records id hour p) s = (record_stat works id hour p s).1

  unfoldable pub writes : List Write → Store → Store
  writes [] s = s
  writes (w ∷ ws) s = writes ws (write w s)

abbrev pub InOrder : Database → Type 0
InOrder d = IsTable 0 d.sequence d.backends

abbrev Keeps : Option Database → Type 0
Keeps none = Unit {0}
Keeps (some d) = InOrder d

settled :
    (s : Store) (works : Bool) (r : Option Database)
    → InOrder s.db
    → Keeps r
    → InOrder (settle s (if works then r else none)).1.db
settled s true none table kept = table
settled s true (some d) table kept = kept
settled s false r table kept = table

last_insert_id_store : (r : Bool × Store) → (last_insert_id r).1 ≡ r.1
last_insert_id_store (true, s) = refl
last_insert_id_store (false, s) = refl

insert_backend-InOrder : (row : Row) (d : Database) → InOrder d → Keeps (insert_backend row d)
unfolding insert_backend
insert_backend-InOrder row d table = elim (Option-cases (with_name row.name d.backends)) [
  | inl free ↦
      rw free (
        IsTable-assign 0 d.sequence (record row { id = d.sequence + 1 }) d.backends refl free table)
  | inr (other, taken) ↦ rw taken tt
]

insert_stat-InOrder :
    (id hour : ℕ) (p : Sums) (d : Database) → InOrder d → Keeps (insert_stat id hour p d)
unfolding insert_stat
insert_stat-InOrder id hour p d table = ground (arith, table)

module _ (works : ℕ → Bool) (s : Store) (table : InOrder s.db) where
  altered-InOrder :
      (id : ℕ) (f : Row → Row)
      → KeepsKeys f
      → InOrder (settle s (if works s.issued then update_backend id f s.db else none)).1.db
  unfolding update_backend
  altered-InOrder id f keeps =
      settled s (works s.issued) (update_backend id f s.db) table
        (IsTable-alter 0 s.db.sequence id f s.db.backends keeps table)

  write-InOrder : (w : Write) → InOrder (write works w s).db
  unfolding write add_backend update_backend_forward_mode update_backend_udp clear_backend_udp
      delete_backend record_stat delete_row
  write-InOrder (adds row) =
      let r = settle s (if works s.issued then insert_backend row s.db else none) in
      subst (λ t. InOrder t.db) (sym (last_insert_id_store r))
        (settled s (works s.issued) (insert_backend row s.db) table
          (insert_backend-InOrder row s.db table))
  write-InOrder (sets_mode id mode) = altered-InOrder id (set_mode mode) (λ r. (refl, refl))
  write-InOrder (sets_udp id port addr) = altered-InOrder id (set_udp port addr) (λ r. (refl, refl))
  write-InOrder (clears_udp id) = altered-InOrder id unset_udp (λ r. (refl, refl))
  write-InOrder (deletes id) =
      settled s (works s.issued) (delete_row id s.db) table
        (IsTable-delete 0 s.db.sequence id s.db.backends table)
  write-InOrder (records id hour p) =
      settled s (works s.issued) (insert_stat id hour p s.db) table
        (insert_stat-InOrder id hour p s.db table)

-- Whatever is written, in whatever order and with whatever failures of the driver, a table of
-- backends that is in order stays in order: every row carries its id, the ids ascend and are at most
-- the last id that was given, and no name stands twice.
pub writes-InOrder :
    (works : ℕ → Bool) (ws : List Write) (s : Store) → InOrder s.db → InOrder (writes works ws s).db
unfolding writes
writes-InOrder works [] s table = table
writes-InOrder works (w ∷ ws) s table =
    writes-InOrder works ws (write works w s) (write-InOrder works s table w)
