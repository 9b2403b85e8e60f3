-- ===== src/Telegram/Bot/Trail.antt =====
-- The audit trail of what the bot does.
use proxygo.Base.{
  ℕ, ◌≡◌, refl, sym, ◌∙◌, ap, subst, ◌⊎◌, inl, inr, Bool-cases, Option-cases, Bool, true, false,
  Option, none, some, List, [], ◌∷◌, if◌then◌else◌, if_elim, All,
}
use proxygo.Base.Int.{ℤ}
use proxygo.Proxy.Manager.{Row, Manager, Answer, done, blocked, failed, Library}
use proxygo.Proxy.Manager.Stored.{Preserves, Call-Preserves}
use proxygo.Storage.{
  AuditEntry, Database, Store, store_persist, settle, last_insert_id, insert_backend,
  update_backend, delete_row, set_mode, set_udp, unset_udp, add_backend,
  update_backend_forward_mode, update_backend_udp, clear_backend_udp, delete_backend, with_name,
}
use proxygo.Storage.Audit.{record_audit, insert_audit, next_audit_id}
use proxygo.Security.Bans.{Bans, Ban, ban, unban, empty_ip, storage_failed}
use proxygo.Config.{admin_allowed}
use proxygo.Telegram.Bot.{
  Bot, Settings, Strings, World, Update, message, callback, callback_without_message, other_update,
  crash,
}
use proxygo.Telegram.Bot.Commands.{store}
use proxygo.Telegram.Bot.Updates.{dispatch, run_callback, guarded, handle_update, handle_updates}
use proxygo.Telegram.Bot.Effects.{
  Lasting, lasting, noted, after_call, after_ban, Did, Does, idle, calls, bans_ip, unbans_ip,
}
use proxygo.Telegram.Bot.Steps.{dispatch-Does, run_callback-Does, guarded-Screened}

abbrev pub audit_of : Store → List AuditEntry
audit_of s = s.db.audit

abbrev pub trail : Bot → List AuditEntry
trail b = audit_of b.manager.store

-- ---------- the statements on backends leave the trail alone

abbrev Leaves : Store → Option Database → Type 0
Leaves s none = Unit {0}
Leaves s (some d) = d.audit ≡ s.db.audit

settle-Leaves :
    (s : Store) (works : Bool) (r : Option Database)
    → Leaves s r
    → audit_of (settle s (if works then r else none)).1 ≡ audit_of s
settle-Leaves s true none same = refl
settle-Leaves s true (some d) same = same
settle-Leaves s false r same = refl

last_insert_id-store : (r : Bool × Store) → (last_insert_id r).1 ≡ r.1
last_insert_id-store (true, s) = refl
last_insert_id-store (false, s) = refl

insert_backend-Leaves : (row : Row) (s : Store) → Leaves s (insert_backend row s.db)
unfolding insert_backend
insert_backend-Leaves row s = elim (Option-cases (with_name row.name s.db.backends)) [
  | inl free ↦ rw free refl
  | inr (other, taken) ↦ rw taken tt
]

audit-Preserves : (works : ℕ → Bool) → Preserves audit_of (store_persist works)
unfolding add_backend delete_backend update_backend_udp update_backend_forward_mode
    clear_backend_udp update_backend delete_row
audit-Preserves works = (
  λ row s.
      ap audit_of (last_insert_id-store _)
      ∙ settle-Leaves s (works s.issued) (insert_backend row s.db) (insert_backend-Leaves row s),
  λ id s. settle-Leaves s (works s.issued) (delete_row id s.db) refl,
  λ id port addr s.
      settle-Leaves s (works s.issued) (update_backend id (set_udp port addr) s.db) refl,
  λ id mode s. settle-Leaves s (works s.issued) (update_backend id (set_mode mode) s.db) refl,
  λ id s. settle-Leaves s (works s.issued) (update_backend id unset_udp s.db) refl,
)

-- ---------- one update

-- The trail is the same, or has one more entry, of `uid`.
abbrev pub Extends : ℤ → List AuditEntry → List AuditEntry → Type 0
Extends uid old new = (new ≡ old) ⊎ ((e : AuditEntry) × (new ≡ e ∷ old) × (e.actor_id ≡ uid))

noted-Extends :
    (works : ℕ → Bool) (unix : ℕ) (uid : ℤ) (action detail : List ℕ) (m : Manager Store)
    → Extends uid (audit_of m.store) (audit_of (noted works unix uid action detail m).store)
unfolding record_audit insert_audit
noted-Extends works unix uid action detail m = elim (Bool-cases (works m.store.issued)) [
  | inl fine ↦ rw fine (
      inr (
        record {
          id = next_audit_id m.store.db.audit;
          actor_id = uid;
          action = action;
          detail = detail;
          created_at = unix;
        },
        refl,
        refl,
      ))
  | inr fails ↦ rw fails (inl refl)
]

module _ (works : ℕ → Bool) (lib : Library) (strings : Strings) (cfg : Settings) where
  after_call-Extends :
      (unix : ℕ) (uid : ℤ) (action detail : List ℕ) (old : List AuditEntry)
      (r : Manager Store × Answer)
      → audit_of r.0.store ≡ old
      → Extends uid old (audit_of (after_call works unix uid action detail r).store)
  after_call-Extends unix uid action detail old (m, done) same =
      subst (λ o. Extends uid o (audit_of (noted works unix uid action detail m).store)) same
        (noted-Extends works unix uid action detail m)
  after_call-Extends unix uid action detail old (m, failed e) same = inl same
  after_call-Extends unix uid action detail old (m, blocked) same = inl same

  after_ban-Extends :
      (unix : ℕ) (uid : ℤ) (action detail : List ℕ) (m : Manager Store)
      (r : Bans × proxygo.Security.Bans.Answer)
      → Extends uid
          (audit_of m.store)
          (audit_of (after_ban works unix uid action detail m r).0.store)
  after_ban-Extends unix uid action detail m (s, proxygo.Security.Bans.done) =
      noted-Extends works unix uid action detail m
  after_ban-Extends unix uid action detail m (s, proxygo.Security.Bans.empty_ip) = inl refl
  after_ban-Extends unix uid action detail m (s, proxygo.Security.Bans.storage_failed) = inl refl

  pub Did-Extends :
      (uid : ℤ) {x y : Lasting}
      → Did works lib strings cfg uid x y
      → Extends uid (audit_of x.0.store) (audit_of y.0.store)
  Did-Extends uid (idle x) = inl refl
  Did-Extends uid (calls unix action detail {r = r} s call) =
      after_call-Extends unix uid action detail _ r
        (Call-Preserves audit_of (store works lib strings cfg) lib (audit-Preserves works) call)
  Did-Extends uid (bans_ip unix stored enforced ip b action detail m s) =
      after_ban-Extends unix uid action detail m (ban stored enforced ip b s)
  Did-Extends uid (unbans_ip unix stored enforced ip action detail m s) =
      after_ban-Extends unix uid action detail m (unban stored enforced ip s)

  -- Every entry names an admin.
  abbrev pub OfAdmins : List AuditEntry → Type 0
  OfAdmins entries = All (λ e. admin_allowed cfg.admin_ids e.actor_id ≡ true) entries

  extended :
      (uid : ℤ) (old new : List AuditEntry)
      → admin_allowed cfg.admin_ids uid ≡ true
      → Extends uid old new
      → OfAdmins old
      → OfAdmins new
  extended uid old new admin (inl same) all = rw same all
  extended uid old new admin (inr (e, more, own)) all = rw more (rw own admin, all)

  guarded-OfAdmins :
      (uid : ℤ) (w : World) (f : Bot → Bot) (b : Bot)
      → ((b' : Bot) → Does works lib strings cfg uid b' (f b'))
      → OfAdmins (trail b)
      → OfAdmins (trail (guarded works lib strings cfg uid w f b))
  guarded-OfAdmins uid w f b each all =
      elim (guarded-Screened works lib strings cfg uid w f b each) [
        | inl (admin, granted, did, l) ↦ extended uid (trail b) _ admin (Did-Extends uid did) all
        | inr (inl (admin, denied, same, l)) ↦ kept _ same
        | inr (inr (stranger, same, l)) ↦ kept _ same
      ]
    where
      kept : (x : Lasting) → x ≡ lasting b → OfAdmins (audit_of x.0.store)
      kept x same = subst (λ (x : Lasting). OfAdmins (audit_of x.0.store)) (sym same) all

  handle_update-OfAdmins :
      (u : Update) (b : Bot)
      → OfAdmins (trail b)
      → OfAdmins (trail (handle_update works lib strings cfg u b))
  unfolding handle_update
  handle_update-OfAdmins other_update b all = all
  handle_update-OfAdmins (message uid text w) b all =
      if_elim (λ (b : Bot). OfAdmins (trail b)) b.stuck b
        (guarded works lib strings cfg uid w (dispatch works lib strings cfg uid w text) b)
        (λ stuck. all)
        (λ free.
          guarded-OfAdmins uid w (dispatch works lib strings cfg uid w text) b
            (dispatch-Does works lib strings cfg uid w text) all)
  handle_update-OfAdmins (callback uid text w) b all =
      if_elim (λ (b : Bot). OfAdmins (trail b)) b.stuck b
        (guarded works lib strings cfg uid w (run_callback works lib strings cfg uid w text) b)
        (λ stuck. all)
        (λ free.
          guarded-OfAdmins uid w (run_callback works lib strings cfg uid w text) b
            (run_callback-Does works lib strings cfg uid w text) all)
  handle_update-OfAdmins (callback_without_message uid w) b all =
      if_elim (λ (b : Bot). OfAdmins (trail b)) b.stuck b
        (guarded works lib strings cfg uid w crash b) (λ stuck. all)
        (λ free. guarded-OfAdmins uid w crash b (λ b. (idle (lasting b), refl)) all)

  -- Whatever updates arrive, from whomever and in whatever order, and whatever the driver, the
  -- listeners and the manager answer: if every entry of the audit trail names an admin before them,
  -- every entry names an admin after them.
  pub handle_updates-OfAdmins :
      (us : List Update) (b : Bot)
      → OfAdmins (trail b)
      → OfAdmins (trail (handle_updates works lib strings cfg us b))
  unfolding handle_updates
  handle_updates-OfAdmins [] b all = all
  handle_updates-OfAdmins (u ∷ us) b all =
      handle_updates-OfAdmins us (handle_update works lib strings cfg u b)
        (handle_update-OfAdmins u b all)
