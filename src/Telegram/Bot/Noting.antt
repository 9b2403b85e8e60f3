-- ===== src/Telegram/Bot/Noting.antt =====
-- A ban or an unban by the bot does not go unnoted.
use proxygo.Base.{ℕ, ◌≡◌, ◌≢◌, refl, ap, arith, ◌⊎◌, inl, inr, List, ◌∷◌}
use proxygo.Base.Int.{ℤ}
use proxygo.Proxy.Manager.{Manager, Library}
use proxygo.Storage.{AuditEntry, Store}
use proxygo.Storage.Audit.{record_audit, insert_audit}
use proxygo.Persistence.{every_statement}
use proxygo.Security.Bans.{Bans, Ban, ban, unban}
use proxygo.Telegram.Bot.{Bot, Settings, Strings}
use proxygo.Telegram.Bot.Effects.{Lasting, after_ban, noted, Did, idle, calls, bans_ip, unbans_ip}
use proxygo.Telegram.Bot.Trail.{trail, audit_of}
use proxygo.Telegram.Bot.Guards.{Request, handle, handle-Outcome}

-- One more entry, of `uid`.
abbrev pub Noted : ℤ → List AuditEntry → List AuditEntry → Type 0
Noted uid old new = (e : AuditEntry) × (new ≡ e ∷ old) × (e.actor_id ≡ uid)

module _ (lib : Library) (strings : Strings) (cfg : Settings) where
  noted-Noted :
      (unix : ℕ) (uid : ℤ) (action detail : List ℕ) (m : Manager Store)
      → Noted uid
          (audit_of m.store)
          (audit_of (noted every_statement unix uid action detail m).store)
  unfolding record_audit insert_audit
  noted-Noted unix uid action detail m = (_, refl, refl)

  banned :
      (uid : ℤ) (unix : ℕ) (action detail : List ℕ) (m : Manager Store) (s : Bans)
      (r : Bans × proxygo.Security.Bans.Answer)
      → (r.1 ≢ proxygo.Security.Bans.done → r.0 ≡ s)
      → let y = after_ban every_statement unix uid action detail m r in
        (y.1 ≡ s) ⊎ Noted uid (audit_of m.store) (audit_of y.0.store)
  banned uid unix action detail m s (s', proxygo.Security.Bans.done) quiet =
      inr (noted-Noted unix uid action detail m)
  banned uid unix action detail m s (s', proxygo.Security.Bans.empty_ip) quiet =
      inl (quiet (λ e. cc))
  banned uid unix action detail m s (s', proxygo.Security.Bans.storage_failed) quiet =
      inl (quiet (λ e. cc))

  Did-Noted :
      (uid : ℤ) {x y : Lasting}
      → Did every_statement lib strings cfg uid x y
      → (y.1 ≡ x.1) ⊎ Noted uid (audit_of x.0.store) (audit_of y.0.store)
  unfolding ban unban
  Did-Noted uid (idle x) = inl refl
  Did-Noted uid (calls unix action detail s call) = inl refl
  Did-Noted uid (bans_ip unix stored enforced ip b action detail m s) =
      banned uid unix action detail m s (ban stored enforced ip b s) (λ failed. ground arith)
  Did-Noted uid (unbans_ip unix stored enforced ip action detail m s) =
      banned uid unix action detail m s (unban stored enforced ip s) (λ failed. ground arith)

  -- Over a store whose driver executes every statement, a request that changes the bans adds one entry
  -- to the audit trail, in the name of its sender.
  pub handle-Noted :
      (uid : ℤ) (q : Request) (b : Bot)
      → let b' = handle every_statement lib strings cfg uid q b in
        (b'.bans ≡ b.bans) ⊎ Noted uid (trail b) (trail b')
  handle-Noted uid q b = elim (handle-Outcome every_statement lib strings cfg uid q b) [
    | inl (is_through, passed, did, l) ↦ Did-Noted uid did
    | inr (inl (stays, same, l)) ↦ inl (ap (λ x. x.1) same)
    | inr (inr (stays, same, l, why)) ↦ inl (ap (λ x. x.1) same)
  ]
