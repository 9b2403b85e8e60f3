-- ===== src/Command/Serving/Tests.antt =====
-- The theorems on serve at concrete inputs.
use proxygo.Base.{ℕ, ◌≡◌, refl, Bool, true, false, Option, none, some, [], ok}
use proxygo.Base.Assoc.{bytes_eq, lookup}
use proxygo.Base.Text.{codes}
use proxygo.Config.{default}
use proxygo.Proxy.Manager.{Storage, Library}
use proxygo.Proxy.Manager.Operations.{start, remove}
use proxygo.Proxy.Manager.Shutdown.{Fleet}
use proxygo.Command.Serving.{
  Error, bot_failed, Serving, Group, waiting, signalled, stay, step, HasEnded, boot, bot_end,
  receive_signal,
}
use proxygo.Command.Serving.Stuck.{remove-unended}

abbrev plain : Library
plain = record {
  trim_space = λ s. s;
  to_lower = λ s. s;
  split_host_port = λ s. some (s, s);
  parse_id = λ s. none;
  cidr_contains = λ entry host. false;
}

-- A storage with no rows.
abbrev no_rows : Storage ℕ
no_rows = record {
  get_backends = λ n. some [];
  add_backend = λ row n. (some 1, n);
  delete_backend = λ id n. (true, n);
  update_backend_udp = λ id port addr n. (true, n);
  update_backend_forward_mode = λ id mode n. (true, n);
  clear_backend_udp = λ id n. (true, n);
}

-- A group as errgroup documents it: whether it is cancelled, and the first error.
abbrev Outcome : Type 0
Outcome = Bool × Option Error

abbrev reported : Option Error → Outcome → Outcome
reported none x = x
reported (some e) (gone, first) = (true, some (elim first [ none ↦ e | some d ↦ d ]))

abbrev plain_group : Group Outcome
plain_group = record {
  is_cancelled = λ x. x.0;
  report = reported;
  cancel = λ x. (true, x.1);
  first = λ x. x.1;
}

abbrev no_backends : Fleet
no_backends = record { tracker = []; services = [] }

abbrev serving : Serving ℕ Outcome
serving = record {
  manager = record { backends = []; locked = false; store = 0 };
  fleet = no_backends;
  group = (false, none);
  phase = waiting;
  bot_runs = false;
  drain_runs = true;
  notified = [];
}

-- The defaults have no token, and so no bot.
default_boots :
    boot plain no_rows plain_group
      (some default)
      true
      true
      (λ row. record { tcp = true; udp = true })
      no_backends
      (false, none)
      0
    ≡ ok serving
unfolding boot start
default_boots = refl

-- The login of the bot has failed, and the signal ends serve with that error.
abbrev without_bot : Serving ℕ Outcome
without_bot =
    bot_end plain no_rows plain_group (some bot_failed) (record serving { bot_runs = true })

abbrev after_remove : Serving ℕ Outcome
after_remove = record serving { manager = (remove plain no_rows (codes "lobby") serving.manager).0 }

remove-unended_example :
    ¬ HasEnded plain no_rows plain_group (receive_signal plain no_rows plain_group after_remove)
unfolding lookup
remove-unended_example =
    remove-unended plain no_rows plain_group (codes "lobby") serving
      (receive_signal plain no_rows plain_group after_remove) refl (λ e. cc) refl refl
      (step stay (signalled after_remove refl))
