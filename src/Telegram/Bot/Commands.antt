-- ===== src/Telegram/Bot/Commands.antt =====
-- The commands of the bot, their dispatch and the guards before it.
use proxygo.Base.{
  ℕ, Bool, true, Option, none, some, List, [], ◌∷◌, ◌++◌, if◌then◌else◌, bytes_beq, is_empty,
}
use proxygo.Base.Int.{ℤ, pos}
use proxygo.Base.Text.{codes}
use proxygo.Proxy.Manager.{Name, Manager, Answer, Library, Running}
use proxygo.Proxy.Manager.Operations.{add, restart, set_forward_mode, add_udp, remove_udp, get}
use proxygo.Proxy.Manager.Listing.{list}
use proxygo.Storage.{Store, store_persist}
use proxygo.Security.Bans.Summary.{described}
use proxygo.Security.Bans.{Bans, Ban, Table, ban, unban, list_bans}
use proxygo.Telegram.Html.{escape_html}
use proxygo.Telegram.Tail.{tail_text}
use proxygo.Telegram.Backends.{backend_figures}
use proxygo.Telegram.Figures.{global_stats}
use proxygo.Telegram.Bot.{
  Reply, Bot, Settings, Strings, World, port_expected, no_log, not_found, confirm_removal,
  ban_refused, bans_failed, usage, accepted, backends, backend_stats, figures, bans_listed,
  log_lines, log_unreadable, say, audit, settle_call,
}

abbrev pub join_words : List (List ℕ) → List ℕ
join_words [] = []
join_words (w ∷ []) = w
join_words (w ∷ v ∷ ws) = w ++ (b' ' ∷ join_words (v ∷ ws))

abbrev pub int_or : ℤ → Option ℤ → ℤ
int_or n none = n
int_or n (some m) = m

-- strings.HasPrefix and strings.TrimPrefix
abbrev pub strip_prefix : List ℕ → List ℕ → Option (List ℕ)
strip_prefix [] s = some s
strip_prefix (p ∷ ps) [] = none
strip_prefix (p ∷ ps) (b ∷ s) = if bytes_beq (p ∷ []) (b ∷ []) then strip_prefix ps s else none

abbrev pub addresses : Table → List (List ℕ)
addresses [] = []
addresses ((ip, b) ∷ t) = ip ∷ addresses t

module _ (works : ℕ → Bool) (lib : Library) (strings : Strings) (cfg : Settings) where
  abbrev pub store : proxygo.Proxy.Manager.Storage Store
  store = store_persist works

  -- findPortFrom: 0 where there is no port or it is no number.
  abbrev pub port_from : Option (List ℕ × List ℕ) → ℤ
  port_from none = pos 0
  port_from (some (host, port)) = int_or (pos 0) (strings.atoi port)

  abbrev pub find_port_from : List ℕ → ℤ
  find_port_from addr = port_from (lib.split_host_port addr)

  -- The mutex of the manager is taken for reading.
  abbrev pub reading : Bot → Bot → Bot
  reading b after = if b.manager.locked then record b { stuck = true } else after

  -- /list
  unfoldable pub cmd_list : Bot → Bot
  cmd_list b = reading b (say (backends (list b.manager.backends)) b)

  -- /add
  abbrev pub udp_port_of : List ℕ → ℤ
  udp_port_of [] = pos 0
  udp_port_of (b ∷ bs) = find_port_from (b ∷ bs)

  abbrev pub add_parsed : ℤ → World → Bot → List ℕ → List ℕ → List ℕ → Option ℤ → Bot
  add_parsed uid w b name tcp udp none = say port_expected b
  add_parsed uid w b name tcp udp (some port) =
      settle_call works w uid (codes "/add") name (accepted (codes "/add") name) b
        (add lib store cfg.whitelist w.listening name port tcp udp (udp_port_of udp) b.manager)

  unfoldable pub cmd_add : ℤ → World → List (List ℕ) → Bot → Bot
  cmd_add uid w [] b = say (usage (codes "/add")) b
  cmd_add uid w (name ∷ []) b = say (usage (codes "/add")) b
  cmd_add uid w (name ∷ port ∷ []) b = say (usage (codes "/add")) b
  cmd_add uid w (name ∷ port ∷ tcp ∷ []) b = add_parsed uid w b name tcp [] (strings.atoi port)
  cmd_add uid w (name ∷ port ∷ tcp ∷ udp ∷ []) b =
      add_parsed uid w b name tcp udp (strings.atoi port)
  cmd_add uid w (name ∷ port ∷ tcp ∷ udp ∷ x ∷ xs) b = say (usage (codes "/add")) b

  -- A command with one argument, or with two.
  abbrev pub with_one : List ℕ → List (List ℕ) → Bot → (List ℕ → Bot) → Bot
  with_one command (x ∷ []) b f = f x
  with_one command [] b f = say (usage command) b
  with_one command (x ∷ y ∷ xs) b f = say (usage command) b

  abbrev pub with_two : List ℕ → List (List ℕ) → Bot → (List ℕ → List ℕ → Bot) → Bot
  with_two command (x ∷ y ∷ []) b f = f x y
  with_two command [] b f = say (usage command) b
  with_two command (x ∷ []) b f = say (usage command) b
  with_two command (x ∷ y ∷ z ∷ xs) b f = say (usage command) b

  -- /remove only asks; the callback removes.
  unfoldable pub cmd_remove : List (List ℕ) → Bot → Bot
  cmd_remove args b = with_one (codes "/remove") args b (λ ref. say confirm_removal b)

  unfoldable pub cmd_restart : ℤ → World → List (List ℕ) → Bot → Bot
  cmd_restart uid w args b = with_one (codes "/restart") args b (λ name.
      settle_call works w uid (codes "/restart") name (accepted (codes "/restart") name) b
        (restart lib store w.listening name b.manager))

  unfoldable pub cmd_add_udp : ℤ → World → List (List ℕ) → Bot → Bot
  cmd_add_udp uid w args b = with_two (codes "/add-udp") args b (λ name udp.
      settle_call works w uid (codes "/add-udp") name (accepted (codes "/add-udp") name) b
        (add_udp lib store w.listening.udp name udp (find_port_from udp) b.manager))

  unfoldable pub cmd_remove_udp : ℤ → World → List (List ℕ) → Bot → Bot
  cmd_remove_udp uid w args b = with_one (codes "/remove-udp") args b (λ name.
      settle_call works w uid (codes "/remove-udp") name (accepted (codes "/remove-udp") name) b
        (remove_udp lib store name b.manager))

  unfoldable pub cmd_forward : ℤ → World → List (List ℕ) → Bot → Bot
  cmd_forward uid w args b = with_two (codes "/forward") args b (λ name mode.
      settle_call works w uid (codes "/forward") (name ++ (b' ' ∷ mode))
        (accepted (codes "/forward") name) b (set_forward_mode lib store name mode b.manager))

  -- /stats of one backend, or of all.
  abbrev pub stats_of : World → Option Running → Bot → Bot
  stats_of w none b = say not_found b
  stats_of w (some r) b = say (backend_stats (backend_figures r.row (w.counters r.row.name))) b

  unfoldable pub cmd_stats : World → List (List ℕ) → Bot → Bot
  cmd_stats w (name ∷ []) b = reading b (stats_of w (get lib store name b.manager) b)
  cmd_stats w [] b = reading b (say (figures (global_stats w.traffic)) b)
  cmd_stats w (x ∷ y ∷ xs) b = reading b (say (figures (global_stats w.traffic)) b)

  -- /ban, /unban and /bans
  abbrev pub settle_ban :
      World → ℤ → List ℕ → List ℕ → List ℕ → Bot → Bans × proxygo.Security.Bans.Answer → Bot
  settle_ban w uid action ip detail b (s, proxygo.Security.Bans.done) =
      say (accepted action ip) (audit works w uid action detail (record b { bans = s }))
  settle_ban w uid action ip detail b (s, proxygo.Security.Bans.empty_ip) =
      say ban_refused (record b { bans = s })
  settle_ban w uid action ip detail b (s, proxygo.Security.Bans.storage_failed) =
      say ban_refused (record b { bans = s })

  unfoldable pub cmd_ban : ℤ → World → List (List ℕ) → Bot → Bot
  cmd_ban uid w [] b = say (usage (codes "/ban")) b
  cmd_ban uid w (ip ∷ words) b =
      let reason = join_words words in
      settle_ban w uid (codes "/ban") ip (ip ++ (b' ' ∷ reason)) b (
        ban w.banning w.iptables ip
          (record { reason = reason; created_by = strings.format_int uid; created_at = w.unix })
          b.bans)

  unfoldable pub cmd_unban : ℤ → World → List (List ℕ) → Bot → Bot
  cmd_unban uid w args b =
      with_one (codes "/unban") args b
        (λ ip. settle_ban w uid (codes "/unban") ip ip b (unban w.banning w.iptables ip b.bans))

  unfoldable pub cmd_bans : World → Bot → Bot
  cmd_bans w b =
      if w.banning
      then say (bans_listed (addresses (described (pos 30) (list_bans b.bans.table)))) b
      else say bans_failed b

  -- /log: 30 lines, or as many as a number says.
  abbrev pub lines_wanted : List (List ℕ) → ℤ
  lines_wanted (n ∷ []) = int_or (pos 30) (strings.atoi n)
  lines_wanted [] = pos 30
  lines_wanted (x ∷ y ∷ xs) = pos 30

  abbrev pub log_reply : ℤ → Option (List ℕ) → Reply
  log_reply n none = log_unreadable
  log_reply n (some text) = log_lines (escape_html (tail_text n text))

  unfoldable pub cmd_log : World → List (List ℕ) → Bot → Bot
  cmd_log w args b =
      if is_empty cfg.log_file
      then say no_log b
      else say (log_reply (lines_wanted args) w.log_text) b
