-- ===== src/Telegram/Bot/Steps.antt =====
-- Every update does nothing that lasts, or one call, or one ban or unban.
use proxygo.Base.{
  ℕ, ◌≡◌, refl, ◌⊎◌, inl, inr, Bool, true, false, ◌||◌, Option, none, some, List, [], ◌∷◌, ◌++◌,
  if◌then◌else◌, bytes_beq, is_empty,
}
use proxygo.Base.Int.{ℤ}
use proxygo.Base.Text.{codes}
use proxygo.Proxy.Manager.{Library, Running}
use proxygo.Proxy.Manager.Calls.{removes, restarts, sets_mode, adds_udp, removes_udp}
use proxygo.Security.Limiter.{Limiter, allow}
use proxygo.Config.{admin_allowed}
use proxygo.Telegram.Bot.{access_denied, Bot, Settings, Strings, World, say}
use proxygo.Telegram.Bot.Commands.{
  cmd_list, cmd_remove, cmd_restart, cmd_add_udp, cmd_remove_udp, cmd_forward, stats_of, cmd_stats,
  cmd_unban, cmd_bans, cmd_log, strip_prefix, find_port_from,
}
use proxygo.Telegram.Bot.Updates.{
  run_ban_command, run_udp_command, run_command, dispatch, refreshed, if_refresh, if_delete,
  run_callback, limited,
}
use proxygo.Telegram.Bot.Effects.{
  lasting, Did, Does, idle, unbans_ip, settle_call-Does, reading-Does, with_one-Does, with_two-Does,
  cmd_add-Does, settle_ban-Does, cmd_ban-Does,
}

module _ (works : ℕ → Bool) (lib : Library) (strings : Strings) (cfg : Settings) where
  module _ (uid : ℤ) (w : World) where
    cmd_restart-Does :
        (args : List (List ℕ)) (b : Bot)
        → Does works lib strings cfg uid b (cmd_restart works lib strings cfg uid w args b)
    unfolding cmd_restart
    cmd_restart-Does args b =
        with_one-Does works lib strings cfg uid w (codes "/restart") args b _ (λ name.
          settle_call-Does works lib strings cfg uid w (codes "/restart") name _ b _
            (restarts w.listening name b.manager))

    cmd_add_udp-Does :
        (args : List (List ℕ)) (b : Bot)
        → Does works lib strings cfg uid b (cmd_add_udp works lib strings cfg uid w args b)
    unfolding cmd_add_udp
    cmd_add_udp-Does args b =
        with_two-Does works lib strings cfg uid w (codes "/add-udp") args b _ (λ name udp.
          settle_call-Does works lib strings cfg uid w (codes "/add-udp") name _ b _ (
            adds_udp w.listening.udp name udp (find_port_from works lib strings cfg udp) b.manager))

    cmd_remove_udp-Does :
        (args : List (List ℕ)) (b : Bot)
        → Does works lib strings cfg uid b (cmd_remove_udp works lib strings cfg uid w args b)
    unfolding cmd_remove_udp
    cmd_remove_udp-Does args b =
        with_one-Does works lib strings cfg uid w (codes "/remove-udp") args b _ (λ name.
          settle_call-Does works lib strings cfg uid w (codes "/remove-udp") name _ b _
            (removes_udp name b.manager))

    cmd_forward-Does :
        (args : List (List ℕ)) (b : Bot)
        → Does works lib strings cfg uid b (cmd_forward works lib strings cfg uid w args b)
    unfolding cmd_forward
    cmd_forward-Does args b =
        with_two-Does works lib strings cfg uid w (codes "/forward") args b _ (λ name mode.
          settle_call-Does works lib strings cfg uid w (codes "/forward") (name ++ (b' ' ∷ mode)) _
            b _ (sets_mode name mode b.manager))

    stats_of-Does :
        (b : Bot) (r : Option Running)
        → Does works lib strings cfg uid b (stats_of works lib strings cfg w r b)
    stats_of-Does b none = (idle (lasting b), refl)
    stats_of-Does b (some r) = (idle (lasting b), refl)

    cmd_stats-Does :
        (args : List (List ℕ)) (b : Bot)
        → Does works lib strings cfg uid b (cmd_stats works lib strings cfg w args b)
    unfolding cmd_stats
    cmd_stats-Does [] b = reading-Does works lib strings cfg uid w b _ (idle (lasting b), refl)
    cmd_stats-Does (name ∷ []) b = reading-Does works lib strings cfg uid w b _ (stats_of-Does b _)
    cmd_stats-Does (x ∷ y ∷ xs) b =
        reading-Does works lib strings cfg uid w b _ (idle (lasting b), refl)

    cmd_unban-Does :
        (args : List (List ℕ)) (b : Bot)
        → Does works lib strings cfg uid b (cmd_unban works lib strings cfg uid w args b)
    unfolding cmd_unban
    cmd_unban-Does args b =
        with_one-Does works lib strings cfg uid w (codes "/unban") args b _ (λ ip.
          settle_ban-Does works lib strings cfg uid w (codes "/unban") ip ip b _
            (unbans_ip w.unix w.banning w.iptables ip (codes "/unban") ip b.manager b.bans))

    if_Does :
        (c : Bool) (x y b : Bot)
        → Does works lib strings cfg uid b x
        → Does works lib strings cfg uid b y
        → Does works lib strings cfg uid b (if c then x else y)
    if_Does true x y b hx hy = hx
    if_Does false x y b hx hy = hy

    run_ban_command-Does :
        (cmd : List ℕ) (args : List (List ℕ)) (b : Bot)
        → Does works lib strings cfg uid b (run_ban_command works lib strings cfg uid w cmd args b)
    unfolding run_ban_command cmd_bans cmd_log
    run_ban_command-Does cmd args b =
        if_Does (bytes_beq cmd (codes "/ban")) _ _ b
          (cmd_ban-Does works lib strings cfg uid w args b)
          (if_Does (bytes_beq cmd (codes "/unban")) _ _ b (cmd_unban-Does args b) (
            if_Does (bytes_beq cmd (codes "/bans")) _ _ b
              (if_Does w.banning _ _ b (idle (lasting b), refl) (idle (lasting b), refl))
              (if_Does (bytes_beq cmd (codes "/log")) _ _ b
                (if_Does (is_empty cfg.log_file) _ _ b (idle (lasting b), refl)
                  (idle (lasting b), refl))
                (idle (lasting b), refl))))

    run_udp_command-Does :
        (cmd : List ℕ) (args : List (List ℕ)) (b : Bot)
        → Does works lib strings cfg uid b (run_udp_command works lib strings cfg uid w cmd args b)
    unfolding run_udp_command
    run_udp_command-Does cmd args b =
        if_Does (bytes_beq cmd (codes "/add-udp")) _ _ b (cmd_add_udp-Does args b) (
          if_Does (bytes_beq cmd (codes "/remove-udp")) _ _ b (cmd_remove_udp-Does args b) (
            if_Does (bytes_beq cmd (codes "/forward")) _ _ b (cmd_forward-Does args b) (
              if_Does (bytes_beq cmd (codes "/stats")) _ _ b (cmd_stats-Does args b)
                (run_ban_command-Does cmd args b))))

    run_command-Does :
        (cmd : List ℕ) (args : List (List ℕ)) (b : Bot)
        → Does works lib strings cfg uid b (run_command works lib strings cfg uid w cmd args b)
    unfolding run_command cmd_list cmd_remove
    run_command-Does cmd args b =
        if_Does (bytes_beq cmd (codes "/start") || bytes_beq cmd (codes "/help")) _ _ b
          (idle (lasting b), refl)
          (if_Does (bytes_beq cmd (codes "/list") || bytes_beq cmd (codes "/backends")) _ _ b
            (reading-Does works lib strings cfg uid w b _ (idle (lasting b), refl))
            (if_Does (bytes_beq cmd (codes "/add")) _ _ b
              (cmd_add-Does works lib strings cfg uid w args b)
              (if_Does (bytes_beq cmd (codes "/remove")) _ _ b
                (with_one-Does works lib strings cfg uid w (codes "/remove") args b _
                  (λ ref. (idle (lasting b), refl)))
                (if_Does (bytes_beq cmd (codes "/restart")) _ _ b (cmd_restart-Does args b)
                  (run_udp_command-Does cmd args b)))))

    pub dispatch-Does :
        (text : List ℕ) (b : Bot)
        → Does works lib strings cfg uid b (dispatch works lib strings cfg uid w text b)
    unfolding dispatch
    dispatch-Does text b =
        if_Does (is_empty (lib.trim_space text)) b _ b (idle (lasting b), refl)
          (run_command-Does _ _ b)

    refreshed-Does :
        (b : Bot) (r : Option Running)
        → Does works lib strings cfg uid b (refreshed works lib strings cfg w r b)
    refreshed-Does b none = (idle (lasting b), refl)
    refreshed-Does b (some r) = (idle (lasting b), refl)

    if_refresh-Does :
        (b : Bot) (target : Option (List ℕ))
        → Does works lib strings cfg uid b (if_refresh works lib strings cfg w target b)
    if_refresh-Does b none = (idle (lasting b), refl)
    if_refresh-Does b (some target) = reading-Does works lib strings cfg uid w b _ (
        if_Does (bytes_beq target (codes "all")) _ _ b (idle (lasting b), refl)
          (refreshed-Does b _))

    if_delete-Does :
        (b : Bot) (data_text : List ℕ) (ref : Option (List ℕ))
        → Does works lib strings cfg uid b (if_delete works lib strings cfg uid w data_text ref b)
    if_delete-Does b data_text none = if_refresh-Does b (strip_prefix (codes "refresh:") data_text)
    if_delete-Does b data_text (some ref) =
        settle_call-Does works lib strings cfg uid w (codes "/remove") ref _ b _
          (removes ref b.manager)

    pub run_callback-Does :
        (data_text : List ℕ) (b : Bot)
        → Does works lib strings cfg uid b (run_callback works lib strings cfg uid w data_text b)
    unfolding run_callback
    run_callback-Does data_text b =
        if_Does (bytes_beq data_text (codes "cancel")) _ _ b (idle (lasting b), refl)
          (if_delete-Does b data_text _)

    -- What the guards do with an update: `admin` and `r` are the answers of the two guards.
    abbrev pub behind : Bool → Limiter × Bool → (Bot → Bot) → Bot → Bot
    behind admin r f b = if admin then limited works lib strings cfg f b r else say access_denied b

    abbrev pub ScreenedBy : Bool → Limiter × Bool → (Bot → Bot) → Bot → Type 0
    ScreenedBy admin r f b =
        let b' = behind admin r f b in
        ((admin ≡ true)
          × (r.1 ≡ true)
          × Did works lib strings cfg uid (lasting b) (lasting b')
          × (b'.limiter ≡ r.0))
        ⊎ ((admin ≡ true) × (r.1 ≡ false) × (lasting b' ≡ lasting b) × (b'.limiter ≡ r.0))
        ⊎ ((admin ≡ false) × (lasting b' ≡ lasting b) × (b'.limiter ≡ b.limiter))

    abbrev pub Screened : (Bot → Bot) → Bot → Type 0
    Screened f b =
        ScreenedBy (admin_allowed cfg.admin_ids uid)
          (allow b.limiter (strings.format_int uid) w.now) f b

    behind-ScreenedBy :
        (admin : Bool) (r : Limiter × Bool) (f : Bot → Bot) (b : Bot)
        → ((b' : Bot) → Does works lib strings cfg uid b' (f b'))
        → ScreenedBy admin r f b
    behind-ScreenedBy false r f b each = inr (inr (refl, refl, refl))
    behind-ScreenedBy true (l, false) f b each = inr (inl (refl, refl, refl, refl))
    behind-ScreenedBy true (l, true) f b each =
        let does = each (record b { limiter = l }) in inl (refl, refl, does.0, does.1)

    pub guarded-Screened :
        (f : Bot → Bot) (b : Bot)
        → ((b' : Bot) → Does works lib strings cfg uid b' (f b'))
        → Screened f b
    guarded-Screened f b each = behind-ScreenedBy _ _ f b each
