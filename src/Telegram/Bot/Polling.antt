-- ===== src/Telegram/Bot/Polling.antt =====
-- Start of internal/telegram/bot.go: what it needs to begin, and the loop over the updates. Parsing the
-- proxy's address and the login at the API are calls of libraries.
use proxygo.Base.{ℕ, ◌≡◌, refl, Bool, true, false, List, [], ◌∷◌, if◌then◌else◌, is_empty, not}
use proxygo.Proxy.Manager.{Library}
use proxygo.Telegram.Bot.{Bot, Settings, Strings, Update}
use proxygo.Telegram.Bot.Updates.{handle_update, handle_updates}

-- What Start comes to before it polls: an error, or that it polls.
pub data Begun : Type 0 where
  no_token bad_proxy login_failed polling : Begun

abbrev pub login : Bool → Begun
login true = polling
login false = login_failed

unfoldable pub begin : (List ℕ → List ℕ) → (token proxy : List ℕ) → (parses logs_in : Bool) → Begun
begin trim token proxy parses logs_in =
    if not (is_empty (trim token))
    then (if not (is_empty (trim proxy))
        then (if parses then login logs_in else bad_proxy)
        else login logs_in)
    else no_token

-- What the select of the loop takes: an update, that the context is done, or that the channel is
-- closed.
pub data Polled : Type 0 where
  update : Update → Polled
  context_done channel_closed : Polled

-- The updates that come before the loop ends.
abbrev pub received : List Polled → List Update
received [] = []
received (update u ∷ rest) = u ∷ received rest
received (context_done ∷ rest) = []
received (channel_closed ∷ rest) = []

module _ (works : ℕ → Bool) (lib : Library) (strings : Strings) (cfg : Settings) where
  unfoldable pub poll : List Polled → Bot → Bot
  poll [] b = b
  poll (update u ∷ rest) b = poll rest (handle_update works lib strings cfg u b)
  poll (context_done ∷ rest) b = b
  poll (channel_closed ∷ rest) b = b

  -- The loop handles the updates that come before it ends, in their order, and none after.
  pub poll-received :
      (ps : List Polled) (b : Bot)
      → poll ps b ≡ handle_updates works lib strings cfg (received ps) b
  unfolding poll handle_updates
  poll-received [] b = refl
  poll-received (update u ∷ rest) b = poll-received rest (handle_update works lib strings cfg u b)
  poll-received (context_done ∷ rest) b = refl
  poll-received (channel_closed ∷ rest) b = refl
