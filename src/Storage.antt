-- ===== src/Storage.antt =====
-- Store of internal/storage/storage.go, over the tables of internal/storage/migrations. `works n` says
-- whether the driver executes the statements that are issued after `n` statements that write.
pub mod Stats
pub mod Audit
pub mod Rows
pub mod Migrations
mod Tests
use proxygo.Base.{
  ℕ, ◌+◌, Bool, true, false, not, ◌&&◌, ◌||◌, Option, none, some, List, [], ◌∷◌, ◌==◌,
  if◌then◌else◌, bytes_beq,
}
use proxygo.Base.Int.{ℤ}
use proxygo.Base.Assoc.{MapKey, nat_eq, pair_eq, lookup, assign, delete, delete_if, alter}
use proxygo.Proxy.Manager.{Name, Row, Storage}

-- A row of stats_hourly without its key, the backend and the hour.
pub record Sums : Type 0 where
  pub tcp_bytes : ℕ
  pub udp_bytes : ℕ
  pub tcp_conns : ℕ
  pub udp_packets : ℕ

-- model.AuditEntry
pub record AuditEntry : Type 0 where
  pub id : ℕ
  pub actor_id : ℤ
  pub action : List ℕ
  pub detail : List ℕ
  pub created_at : ℕ

abbrev pub Rows : Type 0
Rows = List (ℕ × Row)

abbrev pub StatRows : Type 0
StatRows = List ((ℕ × ℕ) × Sums)

-- The table of bans stands in Security.Bans. `sequence` is the last id that AUTOINCREMENT gave to
-- a backend; the latest audit entry comes first; `foreign_keys` is the pragma of the connection.
pub record Database : Type 0 where
  pub backends : Rows
  pub sequence : ℕ
  pub stats : StatRows
  pub audit : List AuditEntry
  pub foreign_keys : Bool

pub record Store : Type 0 where
  pub db : Database
  pub issued : ℕ

-- ---------- the statements

abbrev pub with_name : Name → Rows → Option Row
with_name name [] = none
with_name name ((id, row) ∷ rows) =
    if bytes_beq row.name name then some row else with_name name rows

abbrev pub is_some {ℓ} : {A : Type ℓ} → Option A → Bool
is_some none = false
is_some (some a) = true

-- INSERT INTO backends: the name is UNIQUE, and AUTOINCREMENT never gives an id again.
unfoldable pub insert_backend : Row → Database → Option Database
insert_backend row d =
    let id = d.sequence + 1 in
    if is_some (with_name row.name d.backends)
    then none
    else some (record d { backends = assign id (record row { id = id }) d.backends; sequence = id })

-- UPDATE backends SET ... WHERE id=?: without such a row it changes nothing.
unfoldable pub update_backend : ℕ → (Row → Row) → Database → Option Database
update_backend id f d = some (record d { backends = alter id f d.backends })

abbrev pub of_backend : ℕ → ℕ × ℕ → Sums → Bool
of_backend id key sums = key.0 == id

-- DELETE FROM backends, with ON DELETE CASCADE where foreign keys are enforced.
unfoldable pub delete_row : ℕ → Database → Option Database
delete_row id d = some (record d {
  backends = delete id d.backends;
  stats = if d.foreign_keys then delete_if (of_backend id) d.stats else d.stats;
})

abbrev pub plus : Sums → Sums → Sums
plus a b = record {
  tcp_bytes = a.tcp_bytes + b.tcp_bytes;
  udp_bytes = a.udp_bytes + b.udp_bytes;
  tcp_conns = a.tcp_conns + b.tcp_conns;
  udp_packets = a.udp_packets + b.udp_packets;
}

abbrev pub upserted : Sums → Option Sums → Sums
upserted p none = p
upserted p (some old) = plus old p

unfoldable pub upsert_stat : ℕ → ℕ → Sums → StatRows → StatRows
upsert_stat id hour p stats = assign (id, hour) (upserted p (lookup (id, hour) stats)) stats

-- A statistic of no backend is refused where foreign keys are enforced.
unfoldable pub insert_stat : ℕ → ℕ → Sums → Database → Option Database
insert_stat id hour p d =
    if d.foreign_keys && not (is_some (lookup id d.backends))
    then none
    else some (record d { stats = upsert_stat id hour p d.stats })

-- ---------- the methods of Store

abbrev pub settle : Store → Option Database → Bool × Store
settle s none = (false, record s { issued = s.issued + 1 })
settle s (some d) = (true, record { db = d; issued = s.issued + 1 })

abbrev pub last_insert_id : Bool × Store → Option ℕ × Store
last_insert_id (true, s) = (some s.db.sequence, s)
last_insert_id (false, s) = (none, s)

abbrev pub set_mode : List ℕ → Row → Row
set_mode mode row = record row { forward_mode = mode }

abbrev pub set_udp : ℕ → List ℕ → Row → Row
set_udp port addr row = record row { udp_enabled = true; udp_port = port; backend_udp = addr }

abbrev pub unset_udp : Row → Row
unset_udp row = record row { udp_enabled = false; udp_port = 0; backend_udp = [] }

-- The rows stand in the order of their ids.
abbrev pub rows_of : Rows → List Row
rows_of [] = []
rows_of ((id, row) ∷ rows) = row ∷ rows_of rows

module _ (works : ℕ → Bool) where
  -- db.Exec: `f` is `none` where a constraint of the table does not hold.
  abbrev pub exec : (Database → Option Database) → Store → Bool × Store
  exec f s = settle s (if works s.issued then f s.db else none)

  abbrev pub query {ℓ} : {A : Type ℓ} → (Database → A) → Store → Option A
  query f s = if works s.issued then some (f s.db) else none

  unfoldable pub add_backend : Row → Store → Option ℕ × Store
  add_backend row s = last_insert_id (exec (insert_backend row) s)

  unfoldable pub get_backends : Store → Option (List Row)
  get_backends s = query (λ d. rows_of d.backends) s

  -- `none` is an error, and `some none` that there is no such row.
  abbrev pub get_backend_by_id : ℕ → Store → Option (Option Row)
  get_backend_by_id id s = query (λ d. lookup id d.backends) s

  abbrev pub get_backend_by_name : Name → Store → Option (Option Row)
  get_backend_by_name name s = query (λ d. with_name name d.backends) s

  unfoldable pub update_backend_forward_mode : ℕ → List ℕ → Store → Bool × Store
  update_backend_forward_mode id mode s = exec (update_backend id (set_mode mode)) s

  unfoldable pub update_backend_udp : ℕ → ℕ → List ℕ → Store → Bool × Store
  update_backend_udp id port addr s = exec (update_backend id (set_udp port addr)) s

  unfoldable pub clear_backend_udp : ℕ → Store → Bool × Store
  clear_backend_udp id s = exec (update_backend id unset_udp) s

  unfoldable pub delete_backend : ℕ → Store → Bool × Store
  delete_backend id s = exec (delete_row id) s

  unfoldable pub record_stat : ℕ → ℕ → Sums → Store → Bool × Store
  record_stat id hour p s = exec (insert_stat id hour p) s

  -- Store is the StoragePersist of the manager.
  abbrev pub store_persist : Storage Store
  store_persist = record {
    get_backends = get_backends;
    add_backend = add_backend;
    delete_backend = delete_backend;
    update_backend_udp = update_backend_udp;
    update_backend_forward_mode = update_backend_forward_mode;
    clear_backend_udp = clear_backend_udp;
  }
