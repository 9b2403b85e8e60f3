-- ===== src/Persistence/Recovery.antt =====
-- What Start brings back from the table of backends.
use proxygo.Base.{
  ℕ, ◌≡◌, sym, ◌∙◌, ap, arith, ==_iff, Bool, true, false, ◌&&◌, Option, some, List, [], ◌∷◌, ◌==◌,
  if◌then◌else◌, bytes_beq, bytes_beq_iff, Bool-cases, Option-cases, inl, inr, ◌⊎◌,
}
use proxygo.Base.Assoc.{nat_eq, bytes_eq, lookup, assign, IsMap}
use proxygo.Proxy.Manager.{Name, Row, Running, Backends, Manager, Answer, Library, Listening}
use proxygo.Proxy.Manager.Operations.{start, start_rows}
use proxygo.Proxy.Manager.Calls.{Call}
use proxygo.Storage.{Rows, Store, rows_of, get_backends}
use proxygo.Persistence.{reliable, row_at, row_at-assign, Agree}
use proxygo.Persistence.Calls.{IsByName, Call-Agree}

module _ (lib : Library) where
  -- Calls one after the other, each Remove by a name.
  pub data Calls : Manager Store → Manager Store → Type 0 where
    no_call : (m : Manager Store) → Calls m m
    then_call :
        {m n : Manager Store} {r : Manager Store × Answer}
        → Calls m n
        → (call : Call lib reliable n r) → IsByName lib call
        → Calls m r.0

  pub Calls-Agree : {m n : Manager Store} → Calls m n → Agree lib m → Agree lib n
  Calls-Agree (no_call m) agree = agree
  Calls-Agree (then_call calls call by_name) agree =
      Call-Agree lib call by_name (Calls-Agree calls agree)

  -- Listeners that all come up.
  abbrev pub all_up : Row → Listening
  all_up row = record { tcp = true; udp = true }

  -- Each row of the list is the one that should run under its name.
  abbrev Wanted : (Name → Option Row) → List Row → Type 0
  Wanted running [] = Unit {0}
  Wanted running (row ∷ rows) =
      (row.enabled ≡ true) × (running (lib.to_lower row.name) ≡ some row) × Wanted running rows

  abbrev Named : Name → List Row → Type 0
  Named key [] = ⊥
  Named key (row ∷ rows) = (key ≡ lib.to_lower row.name) ⊎ Named key rows

  abbrev runs_as : Row → Running
  runs_as row = record { row = row; udp_fwd = row.udp_enabled && true }

  -- One turn of the loop of Start.
  abbrev put : Row → Backends → Backends
  put row m = if row.enabled then assign (lib.to_lower row.name) (runs_as row) m else m

  row_at-put :
      (key : Name) (row : Row) (m : Backends)
      → row.enabled ≡ true
      → row_at key (put row m)
        ≡ (if bytes_beq (lib.to_lower row.name) key then some row else row_at key m)
  row_at-put key row m on =
      ap
        (λ (b : Bool). row_at key (if b then assign (lib.to_lower row.name) (runs_as row) m else m))
        on
      ∙ row_at-assign (lib.to_lower row.name) key (runs_as row) m

  start_rows-kept :
      (key : Name) (running : Name → Option Row) (rows : List Row) (m : Backends)
      → Wanted running rows
      → row_at key m ≡ running key
      → row_at key (start_rows lib reliable all_up rows m) ≡ running key
  start_rows-kept key running [] m wanted same = same
  start_rows-kept key running (row ∷ rows) m (on, here, wanted) same =
      start_rows-kept key running rows (put row m) wanted
        (row_at-put key row m on ∙ ground (arith, bytes_beq_iff (lib.to_lower row.name) key))

  start_rows-Named :
      (key : Name) (running : Name → Option Row) (rows : List Row) (m : Backends)
      → Wanted running rows
      → Named key rows
      → row_at key (start_rows lib reliable all_up rows m) ≡ running key
  start_rows-Named key running [] m wanted named = absurd named
  start_rows-Named key running (row ∷ rows) m (on, here, wanted) (inl same) =
      start_rows-kept key running rows (put row m) wanted
        (row_at-put key row m on ∙ ground (arith, bytes_beq_iff (lib.to_lower row.name) key))
  start_rows-Named key running (row ∷ rows) m (on, here, wanted) (inr later) =
      start_rows-Named key running rows (put row m) wanted later

  abbrev Sound : (Name → Option Row) → Rows → Type 0
  Sound running rows =
      (id : ℕ) (row : Row)
      → lookup id rows ≡ some row
      → (row.enabled ≡ true) × (running (lib.to_lower row.name) ≡ some row)

  Wanted-rows_of :
      (running : Name → Option Row) (rows : Rows)
      → IsMap rows
      → Sound running rows
      → Wanted running (rows_of rows)
  unfolding lookup
  Wanted-rows_of running [] unique sound = tt
  Wanted-rows_of running ((id, row) ∷ rows) (fresh, unique) sound =
      let (on, here) = sound id row (ground (arith, ==_iff id id)) in
      (
        on,
        here,
        Wanted-rows_of running rows unique
            (λ j r found. sound j r (ground (arith, ==_iff id j, fresh, found))),
      )

  Named-rows_of :
      (id : ℕ) (row : Row) (rows : Rows)
      → lookup id rows ≡ some row
      → Named (lib.to_lower row.name) (rows_of rows)
  unfolding lookup
  Named-rows_of id row [] found = cc
  Named-rows_of id row ((j, r) ∷ rows) found = elim (Bool-cases (j == id)) [
    | inl same ↦ inl (named (ground arith))
    | inr other ↦ inr (Named-rows_of id row rows (ground arith))
  ]
    where
      named : row ≡ r → lib.to_lower row.name ≡ lib.to_lower r.name
      named same = ap (λ (r : Row). lib.to_lower r.name) same

  -- The process ends, and a new one starts on the same store.
  abbrev pub after_restart : Store → Manager Store
  after_restart st =
      (start lib reliable all_up (record { backends = []; locked = false; store = st })).0

  row_at-after_restart :
      (m : Manager Store) (key : Name)
      → Agree lib m
      → row_at key (after_restart m.store).backends ≡ row_at key m.backends
  unfolding start get_backends lookup
  row_at-after_restart m key ((a, b), unique) =
      let running = λ (k : Name). row_at k m.backends in
      let sound : Sound running m.store.db.backends = λ id row found.
        let (own, runs, le) = b id row found in
        let (named, on, stored) = a (lib.to_lower row.name) row runs in (on, runs) in
      let wanted = Wanted-rows_of running m.store.db.backends unique sound in
      elim (Option-cases (row_at key m.backends)) [
        | inl missing ↦
            start_rows-kept key running (rows_of m.store.db.backends) [] wanted (sym missing)
        | inr (row, found) ↦
            (let (named, on, stored) = a key row found in
              start_rows-Named key running (rows_of m.store.db.backends) [] wanted
                (rw named (Named-rows_of row.id row m.store.db.backends stored)))
      ]

  -- Over a store whose driver executes every statement, after any calls of Add, Restart,
  -- SetForwardMode, AddUDP, RemoveUDP and Remove by a name from a manager that agrees with its
  -- store, a process that starts anew on that store, with all its listeners coming up, runs under
  -- every name the same row as the process before it.
  pub row_at-restart :
      {m n : Manager Store}
      → Calls m n
      → Agree lib m
      → (key : Name) → row_at key (after_restart n.store).backends ≡ row_at key n.backends
  row_at-restart {n = n} calls agree key = row_at-after_restart n key (Calls-Agree calls agree)
