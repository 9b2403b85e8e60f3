-- ===== src/Storage/Migrations/Again.antt =====
-- Opening a database that was opened before.
use proxygo.Base.{
  ℕ, ◌+◌, ◌≡◌, refl, Bool, true, false, Option, none, some, List, [], ◌∷◌, if◌then◌else◌,
  bytes_beq_iff, if_elim, arith,
}
use proxygo.Base.Sort.{sort_by, bytes_less}
use proxygo.Storage.Migrations.{
  Schema, Session, listed, next, record_file, scripted, apply_file, migrate_file, migrate_names,
  migrate, open_store,
}

abbrev AllListed : List (List ℕ) → List (List ℕ) → Type 0
AllListed [] applied = Unit {0}
AllListed (name ∷ names) applied = (listed name applied ≡ true) × AllListed names applied

-- What is recorded stays recorded, and a file that was applied without an error is recorded.
abbrev Grows : Session → Bool × Session → Type 0
Grows s r = (n : List ℕ) → listed n s.applied ≡ true → listed n r.1.applied ≡ true

abbrev Lists : List (List ℕ) → Bool × Session → Type 0
Lists names r = r.0 ≡ true → AllListed names r.1.applied

AllListed-grown :
    (names : List (List ℕ)) (s : Session) (r : Bool × Session)
    → Grows s r
    → AllListed names s.applied
    → AllListed names r.1.applied
AllListed-grown [] s r grows all = tt
AllListed-grown (name ∷ names) s r grows (one, all) =
    (grows name one, AllListed-grown names s r grows all)

listed_self : (name : List ℕ) (ns : List (List ℕ)) → listed name (name ∷ ns) ≡ true
listed_self name ns = rw ((bytes_beq_iff name name).1 refl) refl

listed-cons :
    (n name : List ℕ) (ns : List (List ℕ)) → listed n ns ≡ true → listed n (name ∷ ns) ≡ true
listed-cons n name ns known = ground (arith, known)

module _ (works : ℕ → Bool) where
  abbrev Records : List ℕ → Session → Bool × Session → Type 0
  Records name s r = Grows s r × Lists (name ∷ []) r

  record_file-Records : (name : List ℕ) (s : Session) → Records name s (record_file works name s)
  record_file-Records name s =
      if_elim (Records name s) (works s.issued)
        (true, record (next s) { applied = name ∷ s.applied }) (false, next s)
        (λ works_now.
          (λ n known. listed-cons n name s.applied known, λ fine. (listed_self name s.applied, tt)))
        (λ fails. (λ n known. known, λ fine. ground arith))

  scripted-Records :
      (name : List ℕ) (s : Session) (o : Option Schema) → Records name s (scripted works name s o)
  scripted-Records name s none = (λ n known. known, λ fine. ground arith)
  scripted-Records name s (some schema) =
      record_file-Records name (record (next s) { schema = schema })

  migrate_file-Records : (name : List ℕ) (s : Session) → Records name s (migrate_file works name s)
  unfolding migrate_file
  migrate_file-Records name s =
      if_elim (Records name s) (works s.issued)
        (if listed name s.applied then (true, next s) else apply_file works name (next s))
        (false, next s)
        (λ works_now.
          if_elim (Records name s) (listed name s.applied) (true, next s)
            (apply_file works name (next s)) (λ known. (λ n known. known, λ fine. (known, tt)))
            (λ new. scripted-Records name (next s) _))
        (λ fails. (λ n known. known, λ fine. ground arith))

  migrate_names-Grows :
      (names : List (List ℕ)) (s : Session) → Grows s (migrate_names works names s)
  unfolding migrate_names
  migrate_names-Grows [] s n known = known
  migrate_names-Grows (name ∷ names) s n known =
      let r = migrate_file works name s in
      let once = (migrate_file-Records name s).0 n known in
      if_elim (λ r. listed n r.1.applied ≡ true) r.0 (migrate_names works names r.1) r
        (λ works_now. migrate_names-Grows names r.1 n once) (λ fails. once)

  migrate_names-Lists :
      (names : List (List ℕ)) (s : Session) → Lists names (migrate_names works names s)
  unfolding migrate_names
  migrate_names-Lists [] s fine = tt
  migrate_names-Lists (name ∷ names) s finished =
      let r = migrate_file works name s in
      if_elim (Lists (name ∷ names)) r.0 (migrate_names works names r.1) r
        (λ works_now fine. (
          migrate_names-Grows names r.1 name ((migrate_file-Records name s).1 works_now).0,
          migrate_names-Lists names r.1 fine,
        ))
        (λ fails fine. ground arith) finished

-- Where every file is recorded and the driver works, nothing is applied.
migrate_names-listed :
    (works : ℕ → Bool) (names : List (List ℕ)) (s : Session)
    → ((n : ℕ) → works n ≡ true)
    → AllListed names s.applied
    → ((migrate_names works names s).0 ≡ true)
      × ((migrate_names works names s).1.applied ≡ s.applied)
      × ((migrate_names works names s).1.schema ≡ s.schema)
unfolding migrate_names migrate_file
migrate_names-listed works [] s driver all = (refl, refl, refl)
migrate_names-listed works (name ∷ names) s driver (one, all) =
    rw (driver s.issued) (rw one (migrate_names-listed works names (next s) driver all))

open_store-Lists :
    (works : ℕ → Bool) (files : List (List ℕ)) (s : Session)
    → Lists (sort_by bytes_less files) (open_store works files s)
unfolding open_store migrate
open_store-Lists works files s =
    let names = sort_by bytes_less files in
    let fresh = record s { schema = record s.schema { foreign_keys = false } } in
    if_elim (Lists names) (works s.issued) (migrate works files (next fresh)) (false, next fresh)
      (λ first.
        if_elim (Lists names) (works (s.issued + 1)) (migrate_names works names (next (next fresh)))
          (false, next (next fresh)) (λ second. migrate_names-Lists works names (next (next fresh)))
          (λ fails fine. ground arith))
      (λ fails fine. ground arith)

-- Where New succeeds, whatever files there are, every later New with a driver that works succeeds
-- too: it applies no file again, records none again, and leaves the tables and columns as they are.
pub open_store-open_store :
    (works again : ℕ → Bool) (files : List (List ℕ)) (s : Session)
    → (open_store works files s).0 ≡ true
    → ((n : ℕ) → again n ≡ true)
    → let first = (open_store works files s).1 in
      let second = open_store again files first in
      (second.0 ≡ true)
      × (second.1.applied ≡ first.applied)
      × (second.1.schema ≡ record first.schema { foreign_keys = false })
unfolding open_store migrate
open_store-open_store works again files s opened driver =
    let first = (open_store works files s).1 in
    let fresh = record first { schema = record first.schema { foreign_keys = false } } in
    rw (driver first.issued) (
      rw (driver (first.issued + 1)) (
        migrate_names-listed again (sort_by bytes_less files) (next (next fresh)) driver
          (open_store-Lists works files s opened)))
