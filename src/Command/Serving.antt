-- ===== src/Command/Serving.antt =====
-- serve of cmd/proxygo/main.go: the start of the program, its goroutines, and how it ends. The group of
-- goroutines is golang.org/x/sync/errgroup, a parameter.
use proxygo.Base.{
  ℕ, ◌≡◌, ◌≢◌, refl, sym, ◌∙◌, ap, Bool, true, false, ◌&&◌, not, Option, none, some, Result, ok,
  err, List, [], ◌∷◌, ◌++◌, if◌then◌else◌, is_empty,
}
use proxygo.Base.Assoc.{bytes_eq, lookup}
use proxygo.Base.Text.{codes}
use proxygo.Config.{Config}
use proxygo.Proxy.Backend.Lifecycle.{Service}
use proxygo.Proxy.Manager.{Row, Storage, Manager, Library, Listening}
use proxygo.Proxy.Manager.Operations.{start}
use proxygo.Proxy.Manager.Calls.{Call}
use proxygo.Proxy.Manager.Removal.{key_of, locked_frozen}
use proxygo.Proxy.Manager.Shutdown.{Fleet, Answer, done, timed_out, blocked, shutdown_all}
pub mod Stuck
pub mod Ending
mod Tests

abbrev pub Text : Type 0
Text = List ℕ

pub data Error : Type 0 where
  config_failed logging_failed storage_failed manager_failed : Error
  bot_failed canceled : Error

-- errgroup.Group over a state `G`: `report` is the end of a goroutine with an error or none, `cancel`
-- that of the outer context, `first` what Wait returns.
pub record Group (G : Type 0) : Type 0 where
  pub is_cancelled : G → Bool
  pub report : Option Error → G → G
  pub cancel : G → G
  pub first : G → Option Error

-- The goroutine that waits for a signal.
pub data Phase : Type 0 where
  waiting stopping over : Phase

pub record Serving (S G : Type 0) : Type 0 where
  pub manager : Manager S
  pub fleet : Fleet
  pub group : G
  pub phase : Phase
  pub bot_runs : Bool
  pub drain_runs : Bool
  -- What was handed to the notifier, the latest last.
  pub notified : List Text

-- The wording of the message is left out.
abbrev pub stopped_text : Text
stopped_text = codes "proxygo: graceful stop"

-- `!cfg.Telegram.Disabled && cfg.Telegram.BotToken != ""`
abbrev pub with_bot : Config → Bool
with_bot cfg = not cfg.telegram.disabled && not (is_empty cfg.telegram.bot_token)

module _ {S G : Type 0} (lib : Library) (s : Storage S) (g : Group G) where
  -- The manager is started with the mutex free, so that it answers.
  abbrev pub booted :
      Config → Fleet → G → Manager S × proxygo.Proxy.Manager.Answer → Result Error (Serving S G)
  booted cfg fleet fresh (m, proxygo.Proxy.Manager.done) = ok (record {
    manager = m;
    fleet = fleet;
    group = fresh;
    phase = waiting;
    bot_runs = with_bot cfg;
    drain_runs = true;
    notified = [];
  })
  booted cfg fleet fresh (m, proxygo.Proxy.Manager.failed e) = err manager_failed
  booted cfg fleet fresh (m, proxygo.Proxy.Manager.blocked) = err manager_failed

  abbrev pub boot_with :
      Bool
      → Bool
      → (Row → Listening)
      → Fleet
      → G
      → Manager S
      → Option Config
      → Result Error (Serving S G)
  boot_with log_opens store_opens listening fleet fresh m none = err config_failed
  boot_with log_opens store_opens listening fleet fresh m (some cfg) =
      if log_opens
      then (if store_opens
          then booted cfg fleet fresh (start lib s listening m)
          else err storage_failed)
      else err logging_failed

  -- serve up to Wait, with the answers of config.Load, logging.New and storage.New; `fleet` is
  -- the backends that the manager starts.
  unfoldable pub boot :
      Option Config → Bool → Bool → (Row → Listening) → Fleet → G → S → Result Error (Serving S G)
  boot loaded log_opens store_opens listening fleet fresh store =
      boot_with log_opens store_opens listening fleet fresh
        (record { backends = []; locked = false; store = store }) loaded

  -- An event of the log goes to the notifier.
  abbrev pub drain_event : Text → Serving S G → Serving S G
  drain_event text v = record v { notified = v.notified ++ (text ∷ []) }

  abbrev pub drain_end : Serving S G → Serving S G
  drain_end v = record v { group = g.report none v.group; drain_runs = false }

  abbrev pub bot_end : Option Error → Serving S G → Serving S G
  bot_end e v = record v { group = g.report e v.group; bot_runs = false }

  abbrev pub receive_signal : Serving S G → Serving S G
  receive_signal v = record v { group = g.cancel v.group; phase = stopping }

  -- Shutdown has returned, with an error that is only logged: the notifier is told, and the goroutine
  -- ends with `ctx.Err()`.
  abbrev pub signal_end : Serving S G → Fleet → Serving S G
  signal_end v fleet = record v {
    fleet = fleet;
    group = g.report (some canceled) v.group;
    phase = over;
    notified = v.notified ++ (stopped_text ∷ []);
  }

  abbrev pub after_shutdown : Serving S G → Fleet × Answer → Serving S G
  after_shutdown v (fleet, done) = signal_end v fleet
  after_shutdown v (fleet, timed_out) = signal_end v fleet
  after_shutdown v (fleet, blocked) = v

  abbrev pub shut_down : (Service → Bool) → Serving S G → Serving S G
  shut_down in_time v = after_shutdown v (shutdown_all in_time v.manager.locked v.fleet)

  -- What serve returns after Wait.
  abbrev pub outcome : Option Error → Option Error
  outcome none = none
  outcome (some canceled) = none
  outcome (some e) = some e

  -- One step of one goroutine: `calls` is a call of the manager by the bot, and `traffic` whatever the
  -- backends do.
  pub data Step : Serving S G → Serving S G → Type 0 where
    logs : (text : Text) (v : Serving S G) → v.drain_runs ≡ true → Step v (drain_event text v)
    drain_ends :
        (v : Serving S G)
        → v.drain_runs ≡ true
        → g.is_cancelled v.group ≡ true
        → Step v (drain_end v)
    bot_fails : (v : Serving S G) → v.bot_runs ≡ true → Step v (bot_end (some bot_failed) v)
    bot_ends :
        (v : Serving S G)
        → v.bot_runs ≡ true
        → g.is_cancelled v.group ≡ true
        → Step v (bot_end none v)
    calls :
        (v : Serving S G) (r : Manager S × proxygo.Proxy.Manager.Answer)
        → v.bot_runs ≡ true
        → Call lib s v.manager r
        → Step v (record v { manager = r.0 })
    traffic : (v : Serving S G) (fleet : Fleet) → Step v (record v { fleet = fleet })
    signalled : (v : Serving S G) → v.phase ≡ waiting → Step v (receive_signal v)
    shuts_down :
        (in_time : Service → Bool) (v : Serving S G)
        → v.phase ≡ stopping
        → Step v (shut_down in_time v)

  pub data Run : Serving S G → Serving S G → Type 0 where
    stay : {v : Serving S G} → Run v v
    step : {u v w : Serving S G} → Run u v → Step v w → Run u w

  -- Wait returns once every goroutine has ended.
  abbrev pub HasEnded : Serving S G → Type 0
  HasEnded v = (v.phase ≡ over) × (v.bot_runs ≡ false) × (v.drain_runs ≡ false)
