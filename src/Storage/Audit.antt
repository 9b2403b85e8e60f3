-- ===== src/Storage/Audit.antt =====
-- The audit trail: RecordAudit and AuditLog of internal/storage/storage.go.
use proxygo.Base.{ℕ, ◌+◌, Bool, Option, some, List, [], ◌∷◌, ◌||◌, ◌==◌, ltb, if◌then◌else◌, take}
use proxygo.Base.Int.{ℤ, pos, negsuc}
use proxygo.Storage.{AuditEntry, Database, Store, exec, query}

-- AUTOINCREMENT, in a table that nothing is deleted from.
abbrev pub next_audit_id : List AuditEntry → ℕ
next_audit_id [] = 1
next_audit_id (e ∷ es) = e.id + 1

unfoldable pub insert_audit : ℕ → ℤ → List ℕ → List ℕ → Database → Option Database
insert_audit now actor action detail d = some (record d {
  audit =
      record {
        id = next_audit_id d.audit;
        actor_id = actor;
        action = action;
        detail = detail;
        created_at = now;
      }
      ∷ d.audit;
})

-- `limit <= 0 || limit > 1000`
abbrev pub limit_of : ℤ → ℕ
limit_of (negsuc n) = 100
limit_of (pos n) = if n == 0 || ltb 1000 n then 100 else n

module _ (works : ℕ → Bool) where
  unfoldable pub record_audit : ℕ → ℤ → List ℕ → List ℕ → Store → Bool × Store
  record_audit now actor action detail s = exec works (insert_audit now actor action detail) s

  unfoldable pub audit_log : ℤ → Store → Option (List AuditEntry)
  audit_log limit s = query works (λ d. take (limit_of limit) d.audit) s
