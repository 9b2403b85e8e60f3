-- ===== src/Telegram/Bot.antt =====
-- Bot of internal/telegram/bot.go: handleUpdate, dispatch, the commands and the callbacks, over the
-- manager and its store. A handler whose call of the manager never returns leaves the bot stuck.
pub mod Commands
pub mod Updates
pub mod Effects
pub mod Steps
pub mod Guards
pub mod Noting
pub mod Trail
pub mod Polling
mod Tests
use proxygo.Base.{
  ℕ, Bool, true, false, Option, none, some, List, [], ◌∷◌, if◌then◌else◌, ◌==◌, ◌&&◌, Result,
}
use proxygo.Base.Int.{ℤ, pos}
use proxygo.Proxy.Manager.{Row, Error, Manager, Answer, done, blocked, failed, Library, Listening}
use proxygo.Storage.{Store}
use proxygo.Storage.Audit.{record_audit}
use proxygo.Security.Bans.{Bans}
use proxygo.Security.Limiter.{Limiter}
use proxygo.Telegram.Figures.{Traffic, Figures}
use proxygo.Telegram.Backends.{Counters, BackendFigures}

-- What the bot says, without its wording, where `panics` in the figures of a backend is a panic of the
-- handler: to the sender of a message or a callback.
pub data Reply : Type 0 where
  access_denied rate_limited help unknown_command port_expected no_log not_found nothing : Reply
  cancelled confirm_removal ban_refused bans_failed log_unreadable : Reply
  usage : List ℕ → Reply
  refused : Error → Reply
  accepted : List ℕ → List ℕ → Reply
  backends : List Row → Reply
  backend_stats : Result (Unit {0}) BackendFigures → Reply
  figures : Figures → Reply
  bans_listed : List (List ℕ) → Reply
  log_lines : List ℕ → Reply

-- The latest reply comes first.
pub record Bot : Type 0 where
  pub manager : Manager Store
  pub bans : Bans
  pub limiter : Limiter
  pub replies : List Reply
  pub stuck : Bool

-- The configuration that the bot reads.
pub record Settings : Type 0 where
  pub admin_ids : List ℤ
  pub whitelist : List (List ℕ)
  pub log_file : List ℕ

-- strconv.FormatInt in base 10, strconv.Atoi, where `none` is an error, and strings.Join with spaces.
pub record Strings : Type 0 where
  pub format_int : ℤ → List ℕ
  pub atoi : List ℕ → Option ℤ

-- What a handler meets while it runs: the time in nanoseconds and in unix seconds, whether listeners
-- come up, whether the storage of bans and iptables work, the counters of all backends and of each by its name,
-- and the log file.
pub record World : Type 0 where
  pub now : ℕ
  pub unix : ℕ
  pub listening : Listening
  pub banning : Bool
  pub iptables : Bool
  pub traffic : List Traffic
  pub counters : List ℕ → Counters
  pub log_text : Option (List ℕ)

pub data Update : Type 0 where
  message : ℤ → List ℕ → World → Update
  callback : ℤ → List ℕ → World → Update
  -- The button of a message that Telegram does not send along.
  callback_without_message : ℤ → World → Update
  other_update : Update

-- A panic of a handler ends the process: no update is read any more.
abbrev pub crash : Bot → Bot
crash b = record b { stuck = true }

abbrev pub say : Reply → Bot → Bot
say r b = record b { replies = r ∷ b.replies }

module _ (works : ℕ → Bool) where
  -- RecordAudit, whose error is ignored.
  abbrev pub audit : World → ℤ → List ℕ → List ℕ → Bot → Bot
  audit w uid action detail b = record b {
    manager = record b.manager {
      store = (record_audit works w.unix uid action detail b.manager.store).1;
    };
  }

  -- What a command does with the answer of the manager.
  abbrev pub settle_call : World → ℤ → List ℕ → List ℕ → Reply → Bot → Manager Store × Answer → Bot
  settle_call w uid action detail r b (m, done) =
      say r (audit w uid action detail (record b { manager = m }))
  settle_call w uid action detail r b (m, failed e) = say (refused e) (record b { manager = m })
  settle_call w uid action detail r b (m, blocked) = record b { manager = m; stuck = true }
