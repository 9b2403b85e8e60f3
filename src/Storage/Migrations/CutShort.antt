-- ===== src/Storage/Migrations/CutShort.antt =====
-- A migration that is cut short between a script and its record.
use proxygo.Base.{
  ℕ, ◌+◌, ◌≡◌, sym, ◌∙◌, Bool, true, false, Option, none, some, refl, List, [], ◌∷◌, if◌then◌else◌,
  if_elim, arith,
}
use proxygo.Base.Sort.{sort_by, insert_by}
use proxygo.Storage.Migrations.{
  Schema, Session, init_sql, forward_mode_sql, script, listed, next, record_file, scripted,
  apply_file, migrate_file, migrate_names, migrate, open_store, embedded_files,
}

-- The column stands, but its script is not recorded.
abbrev pub IsCutShort : Session → Type 0
IsCutShort s = (s.schema.forward_mode ≡ true) × (listed forward_mode_sql s.applied ≡ false)

abbrev CutAfter : Bool × Session → Type 0
CutAfter r = IsCutShort r.1

-- An error, and the session is as cut short as before.
abbrev pub StillCutShort : Bool × Session → Type 0
StillCutShort r = (r.0 ≡ false) × IsCutShort r.1

abbrev Added : Option Schema → Type 0
Added none = Unit {0}
Added (some schema) = schema.forward_mode ≡ true

record_init-IsCutShort :
    (works : ℕ → Bool) (s : Session) → IsCutShort s → IsCutShort (record_file works init_sql s).1
record_init-IsCutShort works s cut =
    if_elim CutAfter (works s.issued) (true, record (next s) { applied = init_sql ∷ s.applied })
      (false, next s) (λ first. cut) (λ fails. cut)

scripted-IsCutShort :
    (works : ℕ → Bool) (s : Session) (o : Option Schema)
    → Added o
    → IsCutShort s
    → IsCutShort (scripted works init_sql s o).1
scripted-IsCutShort works s none added cut = cut
scripted-IsCutShort works s (some schema) added (before, unrecorded) =
    record_init-IsCutShort works (record (next s) { schema = schema }) (added, unrecorded)

init-IsCutShort :
    (works : ℕ → Bool) (s : Session) → IsCutShort s → IsCutShort (migrate_file works init_sql s).1
unfolding migrate_file script
init-IsCutShort works s (added, unrecorded) =
    let cut : IsCutShort s = (added, unrecorded) in
    let created = some (record s.schema { tables = true; foreign_keys = true }) in
    if_elim CutAfter (works s.issued)
      (if listed init_sql s.applied then (true, next s) else apply_file works init_sql (next s))
      (false, next s)
      (λ first.
        if_elim CutAfter (listed init_sql s.applied) (true, next s)
          (apply_file works init_sql (next s)) (λ known. cut)
          (λ new.
            scripted-IsCutShort works (next s) (if works (s.issued + 1) then created else none)
              (if_elim Added (works (s.issued + 1)) created none (λ second. added) (λ fails. tt))
              cut))
      (λ fails. cut)

column_stands :
    (schema : Schema) → schema.forward_mode ≡ true → script forward_mode_sql schema ≡ none
unfolding script
column_stands schema added = ground (arith, added)

scripted-StillCutShort :
    (works : ℕ → Bool) (s : Session) (o : Option Schema)
    → o ≡ none
    → IsCutShort s
    → StillCutShort (scripted works forward_mode_sql s o)
scripted-StillCutShort works s none fails cut = (refl, cut)
scripted-StillCutShort works s (some schema) fails cut = cc

stuck_file :
    (works : ℕ → Bool) (s : Session)
    → IsCutShort s
    → StillCutShort (migrate_file works forward_mode_sql s)
unfolding migrate_file
stuck_file works s cut =
    let attempt = if works (s.issued + 1) then script forward_mode_sql s.schema else none in
    if_elim StillCutShort (works s.issued)
      (if listed forward_mode_sql s.applied
        then (true, next s)
        else apply_file works forward_mode_sql (next s))
      (false, next s)
      (λ first.
        if_elim StillCutShort (listed forward_mode_sql s.applied) (true, next s)
          (apply_file works forward_mode_sql (next s)) (λ known. absurd (cc (sym known ∙ cut.1)))
          (λ new.
            scripted-StillCutShort works (next s) attempt
              (if_elim (λ (o : Option Schema). o ≡ none) (works (s.issued + 1)) _ none
                (λ second. column_stands s.schema cut.0) (λ fails. refl))
              cut))
      (λ fails. (refl, cut))

open_store-StillCutShort :
    (works : ℕ → Bool) (s : Session)
    → IsCutShort s
    → StillCutShort (open_store works embedded_files s)
unfolding open_store migrate migrate_names sort_by insert_by
open_store-StillCutShort works s cut =
    let fresh = record s { schema = record s.schema { foreign_keys = false } } in
    let ready = next (next fresh) in
    let r = migrate_file works init_sql ready in
    let kept = init-IsCutShort works ready cut in
    let last = migrate_file works forward_mode_sql r.1 in
    let still = stuck_file works r.1 kept in
    let both = if last.0 then (true, last.1) else last in
    if_elim StillCutShort (works s.issued) (migrate works embedded_files (next fresh))
      (false, next fresh)
      (λ opened.
        if_elim StillCutShort (works (s.issued + 1))
          (migrate_names works (init_sql ∷ forward_mode_sql ∷ []) ready) (false, ready)
          (λ listing.
            if_elim StillCutShort r.0 both r
              (λ first.
                if_elim StillCutShort last.0 (true, last.1) last
                  (λ passed. absurd (cc (sym passed ∙ still.0))) (λ fails. still))
              (λ fails. (fails, kept)))
          (λ fails. (refl, cut)))
      (λ fails. (refl, cut))

-- The program is started again and again, each time with a driver of its own.
unfoldable pub reopened : List (ℕ → Bool) → Session → Session
reopened [] s = s
reopened (works ∷ later) s = reopened later (open_store works embedded_files s).1

reopened-IsCutShort :
    (drivers : List (ℕ → Bool)) (s : Session) → IsCutShort s → IsCutShort (reopened drivers s)
unfolding reopened
reopened-IsCutShort [] s cut = cut
reopened-IsCutShort (works ∷ later) s cut =
    reopened-IsCutShort later (open_store works embedded_files s).1
      (open_store-StillCutShort works s cut).1

-- Once the script that adds the column forward_mode has run and was not recorded, as after a crash or
-- an error between the two statements, every later New reports an error, after any number of others
-- and whatever the driver does in each.
pub open_store_cut_short :
    (drivers : List (ℕ → Bool)) (works : ℕ → Bool) (s : Session)
    → IsCutShort s
    → (open_store works embedded_files (reopened drivers s)).0 ≡ false
open_store_cut_short drivers works s cut =
    (open_store-StillCutShort works (reopened drivers s) (reopened-IsCutShort drivers s cut)).0
