-- ===== src/Telegram/Bot/Tests.antt =====
-- A bot with one admin, and the theorems at concrete inputs.
use proxygo.Base.{List, ℕ, ◌≡◌, refl, Bool, true, false, ◌⊎◌, none, some, [], ◌∷◌}
use proxygo.Base.Int.{ℤ, pos}
use proxygo.Base.Assoc.{bytes_eq, lookup, assign}
use proxygo.Base.Text.{codes}
use proxygo.Proxy.Manager.{Library}
use proxygo.Storage.{Store}
use proxygo.Storage.Audit.{record_audit, insert_audit}
use proxygo.Security.Bans.{ban, ban_ip}
use proxygo.Security.Limiter.{allow}
use proxygo.Config.{admin_allowed}
use proxygo.Telegram.Words.{parse_command, tokenize, scan}
use proxygo.Telegram.Bot.{Bot, Settings, Strings, World, message}
use proxygo.Telegram.Bot.Commands.{cmd_ban}
use proxygo.Telegram.Bot.Updates.{
  handle_updates, handle_update, dispatch, run_command, run_udp_command, run_ban_command,
}
use proxygo.Telegram.Bot.Trail.{trail, OfAdmins, handle_updates-OfAdmins}
use proxygo.Telegram.Bot.Guards.{Request, handle, handle-unserved}
use proxygo.Telegram.Bot.Noting.{Noted, handle-Noted}

abbrev plain : Library
plain = record {
  trim_space = λ s. s;
  to_lower = λ s. s;
  split_host_port = λ s. some (s, s);
  parse_id = λ s. none;
  cidr_contains = λ entry host. false;
}

abbrev strings : Strings
strings = record { format_int = λ n. codes "42"; atoi = λ s. none }

abbrev cfg : Settings
cfg = record { admin_ids = pos 42 ∷ []; whitelist = []; log_file = [] }

abbrev always : ℕ → Bool
always n = true

abbrev store : Store
store = record {
  db = record { backends = []; sequence = 0; stats = []; audit = []; foreign_keys = false };
  issued = 0;
}

abbrev bot : Bot
bot = record {
  manager = record { backends = []; locked = false; store = store };
  bans = record { table = []; chain = []; enforce = false };
  limiter = record { capacity = 1; refill = 60; buckets = [] };
  replies = [];
  stuck = false;
}

abbrev world : ℕ → World
world now = record {
  now = now;
  unix = 9;
  listening = record { tcp = true; udp = true };
  banning = true;
  iptables = true;
  traffic = [];
  counters = λ name. record {
    tcp_in = 0;
    tcp_out = 0;
    udp_bytes = 0;
    udp_pkts = 0;
    conns = 0;
    active = 0;
    age = 0;
  };
  log_text = none;
}

abbrev bans_it : Request
bans_it = record { is_message = true; text = codes "/ban 1.2.3.4"; world = world 5 }

-- An admin bans an address, and a stranger does not.
ban_run : trail (handle always plain strings cfg (pos 42) bans_it bot) ≡ (
    record {
      id = 1;
      actor_id = pos 42;
      action = codes "/ban";
      detail = codes "1.2.3.4 ";
      created_at = 9;
    }
    ∷ [])
unfolding handle_update admin_allowed allow lookup assign dispatch parse_command tokenize scan
    run_command run_udp_command run_ban_command cmd_ban ban ban_ip record_audit insert_audit
ban_run = refl

handle_updates-OfAdmins_example : OfAdmins always plain strings cfg (
    trail (
      handle_updates always plain strings cfg
        (message (pos 42) (codes "/ban 1.2.3.4") (world 5)
          ∷ message (pos 7) (codes "/ban 1.2.3.4") (world 6)
          ∷ [])
        bot))
handle_updates-OfAdmins_example =
    handle_updates-OfAdmins always plain strings cfg
      (message (pos 42) (codes "/ban 1.2.3.4") (world 5)
        ∷ message (pos 7) (codes "/ban 1.2.3.4") (world 6)
        ∷ [])
      bot tt

handle-unserved_example :
    ((handle always plain strings cfg (pos 7) bans_it bot).manager ≡ bot.manager)
    × ((handle always plain strings cfg (pos 7) bans_it bot).bans ≡ bot.bans)
unfolding admin_allowed
handle-unserved_example = handle-unserved always plain strings cfg (pos 7) bans_it bot refl

-- Another sender's request comes between those of the admin.
abbrev three : List (ℤ × Request)
three = (pos 42, bans_it) ∷ (pos 7, bans_it) ∷ (pos 42, bans_it) ∷ []

handle-Noted_example :
    let b' = handle always plain strings cfg (pos 42) bans_it bot in
    (b'.bans ≡ bot.bans) ⊎ Noted (pos 42) (trail bot) (trail b')
handle-Noted_example = handle-Noted plain strings cfg (pos 42) bans_it bot
