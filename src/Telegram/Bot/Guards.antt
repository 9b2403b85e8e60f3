-- ===== src/Telegram/Bot/Guards.antt =====
-- What the guards before the commands promise: admins only, and only as often as the limiter grants.
use proxygo.Base.{
  ℕ, ◌+◌, ◌≤◌, ◌≡◌, refl, sym, ◌∙◌, ap, subst, ◌⊎◌, inl, inr, Bool, true, false, List, [], ◌∷◌,
  if◌then◌else◌, if_elim, All, ◌&&◌,
}
use proxygo.Base.Int.{ℤ, eq_ℤ}
use proxygo.Proxy.Manager.{Library}
use proxygo.Security.Limiter.{Limiter, allow}
use proxygo.Security.Limiter.Quota.{Within}
use proxygo.Security.Limiter.Shared.{granted_to}
use proxygo.Config.{admin_allowed}
use proxygo.Telegram.Bot.{Bot, Settings, Strings, World, Update, message, callback}
use proxygo.Telegram.Bot.Updates.{dispatch, run_callback, guarded, handle_update}
use proxygo.Telegram.Bot.Effects.{lasting, Did, Does}
use proxygo.Telegram.Bot.Steps.{dispatch-Does, run_callback-Does, guarded-Screened, Screened}

-- A message or the press of a button.
pub record Request : Type 0 where
  pub is_message : Bool
  pub text : List ℕ
  pub world : World

abbrev pub update_by : Bool → ℤ → List ℕ → World → Update
update_by true uid text w = message uid text w
update_by false uid text w = callback uid text w

abbrev pub update_of : ℤ → Request → Update
update_of uid q = update_by q.is_message uid q.text q.world

module _ (works : ℕ → Bool) (lib : Library) (strings : Strings) (cfg : Settings) where
  abbrev pub key_of : ℤ → List ℕ
  key_of uid = strings.format_int uid

  -- Does the request pass both guards, so that it is dispatched?
  abbrev pub is_served : ℤ → Request → Bot → Bool
  is_served uid q b =
      if b.stuck
      then false
      else if admin_allowed cfg.admin_ids uid
      then (allow b.limiter (key_of uid) q.world.now).1
      else false

  -- What is dispatched.
  abbrev handler : Bool → ℤ → World → List ℕ → Bot → Bot
  handler true uid w text b = dispatch works lib strings cfg uid w text b
  handler false uid w text b = run_callback works lib strings cfg uid w text b

  handler-Does :
      (typed : Bool) (uid : ℤ) (w : World) (text : List ℕ) (b : Bot)
      → Does works lib strings cfg uid b (handler typed uid w text b)
  handler-Does true uid w text b = dispatch-Does works lib strings cfg uid w text b
  handler-Does false uid w text b = run_callback-Does works lib strings cfg uid w text b

  unless_stuck :
      (typed : Bool) (uid : ℤ) (w : World) (text : List ℕ) (b : Bot)
      → handle_update works lib strings cfg (update_by typed uid text w) b
        ≡ (if b.stuck then b else guarded works lib strings cfg uid w (handler typed uid w text) b)
  unfolding handle_update
  unless_stuck true uid w text b = refl
  unless_stuck false uid w text b = refl

  abbrev pub handle : ℤ → Request → Bot → Bot
  handle uid q b = handle_update works lib strings cfg (update_of uid q) b

  -- What is left of a request that is not dispatched, and what one that is does.
  abbrev pub Outcome : ℤ → Request → Bot → Bot → Type 0
  Outcome uid q b b' =
      let r = allow b.limiter (key_of uid) q.world.now in
      ((is_served uid q b ≡ true)
        × (r.1 ≡ true)
        × Did works lib strings cfg uid (lasting b) (lasting b')
        × (b'.limiter ≡ r.0))
      ⊎ ((is_served uid q b ≡ false) × (lasting b' ≡ lasting b) × (b'.limiter ≡ r.0))
      ⊎ ((is_served uid q b ≡ false)
          × (lasting b' ≡ lasting b)
          × (b'.limiter ≡ b.limiter)
          × ((b.stuck ≡ true) × (b' ≡ b) ⊎ (admin_allowed cfg.admin_ids uid ≡ false)))

  guarded-Outcome :
      (uid : ℤ) (q : Request) (b : Bot)
      → b.stuck ≡ false
      → Screened works lib strings cfg uid q.world (handler q.is_message uid q.world q.text) b
      → Outcome uid q b
          (guarded works lib strings cfg uid q.world (handler q.is_message uid q.world q.text) b)
  guarded-Outcome uid q b free (inl (admin, passed, did, l)) =
      inl (simp (free, admin) passed, passed, did, l)
  guarded-Outcome uid q b free (inr (inl (admin, denied, same, l))) =
      inr (inl (simp (free, admin) denied, same, l))
  guarded-Outcome uid q b free (inr (inr (stranger, same, l))) =
      inr (inr (simp (free, stranger), same, l, inr stranger))

  pub handle-Outcome : (uid : ℤ) (q : Request) (b : Bot) → Outcome uid q b (handle uid q b)
  handle-Outcome uid q b =
      let f = handler q.is_message uid q.world q.text in
      let g = guarded works lib strings cfg uid q.world f b in
      subst (Outcome uid q b) (sym (unless_stuck q.is_message uid q.world q.text b)) (
        if_elim (Outcome uid q b) b.stuck b g
          (λ stuck. inr (inr (simp stuck, refl, refl, inl (stuck, refl))))
          (λ free. guarded-Outcome uid q b free (
            guarded-Screened works lib strings cfg uid q.world f b
              (handler-Does q.is_message uid q.world q.text))))

  -- A message or a button of someone who is no admin, or whom the limiter refuses, or while the bot is
  -- stuck, changes neither the manager with its store nor the bans.
  pub handle-unserved :
      (uid : ℤ) (q : Request) (b : Bot)
      → is_served uid q b ≡ false
      → ((handle uid q b).manager ≡ b.manager) × ((handle uid q b).bans ≡ b.bans)
  handle-unserved uid q b unserved = elim (handle-Outcome uid q b) [
    | inl (is_through, passed, did, l) ↦ absurd (cc (sym is_through ∙ unserved))
    | inr (inl (stays, same, l)) ↦ (ap (λ x. x.0) same, ap (λ x. x.1) same)
    | inr (inr (stays, same, l, why)) ↦ (ap (λ x. x.0) same, ap (λ x. x.1) same)
  ]

  -- ---------- how often

  -- Requests of any senders, one after the other; how many of those of one sender are dispatched.
  unfoldable pub served : ℤ → List (ℤ × Request) → Bot → ℕ
  served uid [] b = 0
  served uid ((sender, q) ∷ qs) b =
      (if eq_ℤ sender uid && is_served sender q b then 1 else 0) + served uid qs (handle sender q b)

  abbrev pub AllWithin : ℕ → ℕ → List (ℤ × Request) → Type 0
  AllWithin start len qs = All (λ r. Within start len r.1.world.now) qs

  -- Calls of the limiter in the stretch of time that grant the sender at least what is dispatched.
  abbrev Granting : ℤ → ℕ → ℕ → List (ℤ × Request) → Bot → Type 0
  Granting uid start len qs b =
      (cs : List (List ℕ × ℕ)) × All (λ c. Within start len c.1) cs
      × (served uid qs b ≤ granted_to b.limiter (key_of uid) cs)
