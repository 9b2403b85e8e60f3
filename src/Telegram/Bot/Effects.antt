-- ===== src/Telegram/Bot/Effects.antt =====
-- What an update can do to the manager and to the bans: nothing, one call of the manager, or one ban or
-- unban, with an entry in the trail where that succeeds.
use proxygo.Base.{ℕ, ◌≡◌, refl, Bool, true, Option, none, some, List, [], ◌∷◌, if_elim}
use proxygo.Base.Int.{ℤ}
use proxygo.Base.Text.{codes}
use proxygo.Proxy.Manager.{Manager, Answer, done, blocked, failed, Library}
use proxygo.Proxy.Manager.Calls.{Call, adds}
use proxygo.Storage.{Store}
use proxygo.Storage.Audit.{record_audit}
use proxygo.Security.Bans.{Bans, Ban, ban, unban, empty_ip, storage_failed}
use proxygo.Telegram.Bot.{Reply, Bot, Settings, Strings, World, settle_call}
use proxygo.Telegram.Bot.Commands.{
  store, reading, add_parsed, cmd_add, with_one, with_two, settle_ban, cmd_ban, udp_port_of,
}

-- The parts of the state that last.
abbrev pub Lasting : Type 0
Lasting = Manager Store × Bans

abbrev pub lasting : Bot → Lasting
lasting b = (b.manager, b.bans)

module _ (works : ℕ → Bool) where
  abbrev pub noted : ℕ → ℤ → List ℕ → List ℕ → Manager Store → Manager Store
  noted unix uid action detail m = record m {
    store = (record_audit works unix uid action detail m.store).1;
  }

  abbrev pub after_call : ℕ → ℤ → List ℕ → List ℕ → Manager Store × Answer → Manager Store
  after_call unix uid action detail (m, done) = noted unix uid action detail m
  after_call unix uid action detail (m, failed e) = m
  after_call unix uid action detail (m, blocked) = m

  abbrev pub after_ban :
      ℕ → ℤ → List ℕ → List ℕ → Manager Store → Bans × proxygo.Security.Bans.Answer → Lasting
  after_ban unix uid action detail m (s, proxygo.Security.Bans.done) =
      (noted unix uid action detail m, s)
  after_ban unix uid action detail m (s, proxygo.Security.Bans.empty_ip) = (m, s)
  after_ban unix uid action detail m (s, proxygo.Security.Bans.storage_failed) = (m, s)

module _ (works : ℕ → Bool) (lib : Library) (strings : Strings) (cfg : Settings) where
  -- What was done in the name of `uid`.
  pub data Did (uid : ℤ) : Lasting → Lasting → Type 0 where
    idle : (x : Lasting) → Did uid x x
    calls :
        (unix : ℕ) (action detail : List ℕ) {m : Manager Store} {r : Manager Store × Answer}
        (s : Bans)
        → Call lib (store works lib strings cfg) m r
        → Did uid (m, s) (after_call works unix uid action detail r, s)
    bans_ip :
        (unix : ℕ) (stored enforced : Bool) (ip : List ℕ) (b : Ban) (action detail : List ℕ)
        (m : Manager Store) (s : Bans)
        → Did uid (m, s) (after_ban works unix uid action detail m (ban stored enforced ip b s))
    unbans_ip :
        (unix : ℕ) (stored enforced : Bool) (ip : List ℕ) (action detail : List ℕ)
        (m : Manager Store) (s : Bans)
        → Did uid (m, s) (after_ban works unix uid action detail m (unban stored enforced ip s))

  -- The limiter is left alone.
  abbrev pub Does : ℤ → Bot → Bot → Type 0
  Does uid b b' = Did uid (lasting b) (lasting b') × (b'.limiter ≡ b.limiter)

  module _ (uid : ℤ) (w : World) where
    pub settle_call-Does :
        (action detail : List ℕ) (reply : Reply) (b : Bot) (r : Manager Store × Answer)
        → Call lib (store works lib strings cfg) b.manager r
        → Does uid b (settle_call works w uid action detail reply b r)
    settle_call-Does action detail reply b (m, done) call =
        (calls w.unix action detail b.bans call, refl)
    settle_call-Does action detail reply b (m, failed e) call =
        (calls w.unix action detail b.bans call, refl)
    settle_call-Does action detail reply b (m, blocked) call =
        (calls w.unix action detail b.bans call, refl)

    pub reading-Does :
        (b after : Bot) → Does uid b after → Does uid b (reading works lib strings cfg b after)
    reading-Does b after does =
        if_elim (Does uid b) b.manager.locked (record b { stuck = true }) after
          (λ held. (idle (lasting b), refl)) (λ free. does)

    pub with_one-Does :
        (command : List ℕ) (args : List (List ℕ)) (b : Bot) (f : List ℕ → Bot)
        → ((x : List ℕ) → Does uid b (f x))
        → Does uid b (with_one works lib strings cfg command args b f)
    with_one-Does command [] b f each = (idle (lasting b), refl)
    with_one-Does command (x ∷ []) b f each = each x
    with_one-Does command (x ∷ y ∷ xs) b f each = (idle (lasting b), refl)

    pub with_two-Does :
        (command : List ℕ) (args : List (List ℕ)) (b : Bot) (f : List ℕ → List ℕ → Bot)
        → ((x y : List ℕ) → Does uid b (f x y))
        → Does uid b (with_two works lib strings cfg command args b f)
    with_two-Does command [] b f each = (idle (lasting b), refl)
    with_two-Does command (x ∷ []) b f each = (idle (lasting b), refl)
    with_two-Does command (x ∷ y ∷ []) b f each = each x y
    with_two-Does command (x ∷ y ∷ z ∷ xs) b f each = (idle (lasting b), refl)

    add_parsed-Does :
        (b : Bot) (name tcp udp : List ℕ) (port : Option ℤ)
        → Does uid b (add_parsed works lib strings cfg uid w b name tcp udp port)
    add_parsed-Does b name tcp udp none = (idle (lasting b), refl)
    add_parsed-Does b name tcp udp (some port) = settle_call-Does (codes "/add") name _ b _ (
        adds cfg.whitelist w.listening name port tcp udp (udp_port_of works lib strings cfg udp)
          b.manager)

    pub cmd_add-Does :
        (args : List (List ℕ)) (b : Bot) → Does uid b (cmd_add works lib strings cfg uid w args b)
    unfolding cmd_add
    cmd_add-Does [] b = (idle (lasting b), refl)
    cmd_add-Does (name ∷ []) b = (idle (lasting b), refl)
    cmd_add-Does (name ∷ port ∷ []) b = (idle (lasting b), refl)
    cmd_add-Does (name ∷ port ∷ tcp ∷ []) b = add_parsed-Does b name tcp [] (strings.atoi port)
    cmd_add-Does (name ∷ port ∷ tcp ∷ udp ∷ []) b =
        add_parsed-Does b name tcp udp (strings.atoi port)
    cmd_add-Does (name ∷ port ∷ tcp ∷ udp ∷ x ∷ xs) b = (idle (lasting b), refl)

    pub settle_ban-Does :
        (action ip detail : List ℕ) (b : Bot) (r : Bans × proxygo.Security.Bans.Answer)
        → Did uid (lasting b) (after_ban works w.unix uid action detail b.manager r)
        → Does uid b (settle_ban works lib strings cfg w uid action ip detail b r)
    settle_ban-Does action ip detail b (s, proxygo.Security.Bans.done) did = (did, refl)
    settle_ban-Does action ip detail b (s, proxygo.Security.Bans.empty_ip) did = (did, refl)
    settle_ban-Does action ip detail b (s, proxygo.Security.Bans.storage_failed) did = (did, refl)

    pub cmd_ban-Does :
        (args : List (List ℕ)) (b : Bot) → Does uid b (cmd_ban works lib strings cfg uid w args b)
    unfolding cmd_ban
    cmd_ban-Does [] b = (idle (lasting b), refl)
    cmd_ban-Does (ip ∷ words) b =
        settle_ban-Does (codes "/ban") ip _ b _
          (bans_ip w.unix w.banning w.iptables ip _ (codes "/ban") _ b.manager b.bans)
