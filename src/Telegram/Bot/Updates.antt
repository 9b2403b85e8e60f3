-- ===== src/Telegram/Bot/Updates.antt =====
-- handleUpdate, dispatch and handleCallback of the bot.
use proxygo.Base.{
  ℕ, Bool, true, false, ◌||◌, Option, none, some, List, [], ◌∷◌, if◌then◌else◌, bytes_beq, is_empty,
}
use proxygo.Base.Int.{ℤ}
use proxygo.Base.Text.{codes}
use proxygo.Proxy.Manager.{Library, Running}
use proxygo.Proxy.Manager.Operations.{remove, get}
use proxygo.Security.Limiter.{Limiter, allow}
use proxygo.Config.{admin_allowed}
use proxygo.Telegram.Words.{parse_command}
use proxygo.Telegram.Backends.{backend_figures}
use proxygo.Telegram.Figures.{global_stats}
use proxygo.Telegram.Bot.{
  Bot, Settings, Strings, World, Update, message, callback, callback_without_message, crash,
  other_update, access_denied, rate_limited, help, unknown_command, nothing, cancelled, accepted,
  backend_stats, figures, say, settle_call,
}
use proxygo.Telegram.Bot.Commands.{
  strip_prefix, reading, store, cmd_list, cmd_add, cmd_remove, cmd_restart, cmd_add_udp,
  cmd_remove_udp, cmd_forward, cmd_stats, cmd_ban, cmd_unban, cmd_bans, cmd_log,
}

module _ (works : ℕ → Bool) (lib : Library) (strings : Strings) (cfg : Settings) where
  -- The switch over the commands, in three parts.
  unfoldable pub run_ban_command : ℤ → World → List ℕ → List (List ℕ) → Bot → Bot
  run_ban_command uid w cmd args b =
      if bytes_beq cmd (codes "/ban")
      then cmd_ban works lib strings cfg uid w args b
      else if bytes_beq cmd (codes "/unban")
      then cmd_unban works lib strings cfg uid w args b
      else if bytes_beq cmd (codes "/bans")
      then cmd_bans works lib strings cfg w b
      else if bytes_beq cmd (codes "/log")
      then cmd_log works lib strings cfg w args b
      else say unknown_command b

  unfoldable pub run_udp_command : ℤ → World → List ℕ → List (List ℕ) → Bot → Bot
  run_udp_command uid w cmd args b =
      if bytes_beq cmd (codes "/add-udp")
      then cmd_add_udp works lib strings cfg uid w args b
      else if bytes_beq cmd (codes "/remove-udp")
      then cmd_remove_udp works lib strings cfg uid w args b
      else if bytes_beq cmd (codes "/forward")
      then cmd_forward works lib strings cfg uid w args b
      else if bytes_beq cmd (codes "/stats")
      then cmd_stats works lib strings cfg w args b
      else run_ban_command uid w cmd args b

  unfoldable pub run_command : ℤ → World → List ℕ → List (List ℕ) → Bot → Bot
  run_command uid w cmd args b =
      if bytes_beq cmd (codes "/start") || bytes_beq cmd (codes "/help")
      then say help b
      else if bytes_beq cmd (codes "/list") || bytes_beq cmd (codes "/backends")
      then cmd_list works lib strings cfg b
      else if bytes_beq cmd (codes "/add")
      then cmd_add works lib strings cfg uid w args b
      else if bytes_beq cmd (codes "/remove")
      then cmd_remove works lib strings cfg args b
      else if bytes_beq cmd (codes "/restart")
      then cmd_restart works lib strings cfg uid w args b
      else run_udp_command uid w cmd args b

  unfoldable pub dispatch : ℤ → World → List ℕ → Bot → Bot
  dispatch uid w text b =
      let trimmed = lib.trim_space text in
      let parsed = parse_command lib.to_lower trimmed in
      if is_empty trimmed then b else run_command uid w parsed.0 parsed.1 b

  -- ---------- the callbacks

  -- What is shown of one backend, with an empty answer to the button.
  abbrev pub refreshed : World → Option Running → Bot → Bot
  refreshed w none b = say nothing b
  refreshed w (some r) b =
      say nothing (say (backend_stats (backend_figures r.row (w.counters r.row.name))) b)

  abbrev pub refresh : World → List ℕ → Bot → Bot
  refresh w target b =
      if bytes_beq target (codes "all")
      then say nothing (say (figures (global_stats w.traffic)) b)
      else refreshed w (get lib (store works lib strings cfg) target b.manager) b

  abbrev pub if_refresh : World → Option (List ℕ) → Bot → Bot
  if_refresh w none b = say nothing b
  if_refresh w (some target) b = reading works lib strings cfg b (refresh w target b)

  abbrev pub if_delete : ℤ → World → List ℕ → Option (List ℕ) → Bot → Bot
  if_delete uid w data_text none b = if_refresh w (strip_prefix (codes "refresh:") data_text) b
  if_delete uid w data_text (some ref) b =
      settle_call works w uid (codes "/remove") ref (accepted (codes "/remove") ref) b
        (remove lib (store works lib strings cfg) ref b.manager)

  unfoldable pub run_callback : ℤ → World → List ℕ → Bot → Bot
  run_callback uid w data_text b =
      if bytes_beq data_text (codes "cancel")
      then say cancelled b
      else if_delete uid w data_text (strip_prefix (codes "del:") data_text) b

  -- ---------- the guards

  abbrev pub limited : (Bot → Bot) → Bot → Limiter × Bool → Bot
  limited f b (l, true) = f (record b { limiter = l })
  limited f b (l, false) = say rate_limited (record b { limiter = l })

  abbrev pub guarded : ℤ → World → (Bot → Bot) → Bot → Bot
  guarded uid w f b =
      if admin_allowed cfg.admin_ids uid
      then limited f b (allow b.limiter (strings.format_int uid) w.now)
      else say access_denied b

  -- A bot that is stuck reads no update any more. A callback without its message passes the guards,
  -- and panics on `q.Message.Chat`.
  unfoldable pub handle_update : Update → Bot → Bot
  handle_update other_update b = b
  handle_update (message uid text w) b =
      if b.stuck then b else guarded uid w (dispatch uid w text) b
  handle_update (callback uid text w) b =
      if b.stuck then b else guarded uid w (run_callback uid w text) b
  handle_update (callback_without_message uid w) b = if b.stuck then b else guarded uid w crash b

  unfoldable pub handle_updates : List Update → Bot → Bot
  handle_updates [] b = b
  handle_updates (u ∷ us) b = handle_updates us (handle_update u b)
