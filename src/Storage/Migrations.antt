-- ===== src/Storage/Migrations.antt =====
-- New and migrate of internal/storage/storage.go, with the two files of internal/storage/migrations.
pub mod Again
pub mod CutShort
use proxygo.Base.{
  ℕ, ◌+◌, ◌≡◌, refl, Bool, true, false, ◌&&◌, not, Option, none, some, List, [], ◌∷◌, if◌then◌else◌,
  bytes_beq, bytes_beq_iff, if_elim, arith,
}
use proxygo.Base.Text.{codes}
use proxygo.Base.Sort.{sort_by, insert_by, bytes_less}

-- What the scripts create: the tables, the column forward_mode, and the pragma foreign_keys, which
-- belongs to the one connection.
pub record Schema : Type 0 where
  pub tables : Bool
  pub forward_mode : Bool
  pub foreign_keys : Bool

-- `applied` is the table schema_migrations; `issued` counts the statements.
pub record Session : Type 0 where
  pub schema : Schema
  pub applied : List (List ℕ)
  pub issued : ℕ

abbrev pub init_sql : List ℕ
init_sql = codes "001_init.sql"

abbrev pub forward_mode_sql : List ℕ
forward_mode_sql = codes "002_forward_mode.sql"

-- 001 creates what does not exist; 002 adds a column, which must not exist.
unfoldable pub script : List ℕ → Schema → Option Schema
script name s =
    if bytes_beq name init_sql
    then some (record s { tables = true; foreign_keys = true })
    else if bytes_beq name forward_mode_sql && s.tables && not s.forward_mode
    then some (record s { forward_mode = true })
    else none

abbrev pub listed : List ℕ → List (List ℕ) → Bool
listed name [] = false
listed name (n ∷ ns) = if bytes_beq n name then true else listed name ns

abbrev pub next : Session → Session
next s = record s { issued = s.issued + 1 }

module _ (works : ℕ → Bool) where
  -- INSERT INTO schema_migrations
  abbrev pub record_file : List ℕ → Session → Bool × Session
  record_file name s =
      if works s.issued
      then (true, record (next s) { applied = name ∷ s.applied })
      else (false, next s)

  abbrev pub scripted : List ℕ → Session → Option Schema → Bool × Session
  scripted name s none = (false, next s)
  scripted name s (some schema) = record_file name (record (next s) { schema = schema })

  abbrev pub apply_file : List ℕ → Session → Bool × Session
  apply_file name s = scripted name s (if works s.issued then script name s.schema else none)

  -- SELECT COUNT(1), and the file where it is not recorded.
  unfoldable pub migrate_file : List ℕ → Session → Bool × Session
  migrate_file name s =
      if works s.issued
      then if listed name s.applied then (true, next s) else apply_file name (next s)
      else (false, next s)

  unfoldable pub migrate_names : List (List ℕ) → Session → Bool × Session
  migrate_names [] s = (true, s)
  migrate_names (name ∷ names) s =
      let r = migrate_file name s in let rest = migrate_names names r.1 in if r.0 then rest else r

  -- The first statement creates schema_migrations.
  unfoldable pub migrate : List (List ℕ) → Session → Bool × Session
  migrate files s =
      if works s.issued then migrate_names (sort_by bytes_less files) (next s) else (false, next s)

  -- A new connection does not enforce foreign keys; the pragmas of New are one statement.
  unfoldable pub open_store : List (List ℕ) → Session → Bool × Session
  open_store files s =
      let fresh = record s { schema = record s.schema { foreign_keys = false } } in
      if works s.issued then migrate files (next fresh) else (false, next fresh)

-- The embedded directory.
abbrev pub embedded_files : List (List ℕ)
embedded_files = init_sql ∷ forward_mode_sql ∷ []
