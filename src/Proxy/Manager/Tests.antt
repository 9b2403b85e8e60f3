-- ===== src/Proxy/Manager/Tests.antt =====
-- Concrete runs, and the theorems at concrete inputs.
use proxygo.Base.{
  Bool, ℕ, ◌+◌, ◌≡◌, refl, true, false, Option, none, some, List, [], ◌∷◌, if◌then◌else◌, leb, ltb,
  map, ◌-◌, arith, All,
}
use proxygo.Base.Int.{pos}
use proxygo.Base.Assoc.{nat_eq, bytes_eq, lookup, assign, delete}
use proxygo.Base.Text.{codes}
use proxygo.Proxy.Manager.{
  Name, Row, Running, Backends, Storage, Manager, Answer, done, blocked, failed, not_found, Library,
  Listening, port_free, with_id, backend_allowed, validate_udp_addr,
}
use proxygo.Proxy.Manager.Operations.{add, remove}
use proxygo.Proxy.Manager.Registry.{Registered}
use proxygo.Proxy.Manager.Calls.{Call, adds, Call-Registered}
use proxygo.Metrics.{empty_metrics}
use proxygo.Proxy.Conn.{count, dec}
use proxygo.Proxy.Backend.{close_both, force_close_conns}
use proxygo.Proxy.Backend.Lifecycle.{Service, shutdown, end_all}
use proxygo.Proxy.Manager.Shutdown.{
  Fleet, CountsAll, IsClosed, IsDown, stop_all, shutdown_all, shutdown_all-IsClosed,
}
use proxygo.Proxy.Manager.Removal.{remove_not_found_freezes, remove_numeric_stays}

-- A storage that only counts its rows.
abbrev counting : Storage ℕ
counting = record {
  get_backends = λ n. some [];
  add_backend = λ row n. (some (n + 1), n + 1);
  delete_backend = λ id n. (true, n - 1);
  update_backend_udp = λ id port addr n. (true, n);
  update_backend_forward_mode = λ id mode n. (true, n);
  clear_backend_udp = λ id n. (true, n);
}

abbrev lower : ℕ → ℕ
lower c = if ltb 64 c then if ltb c 91 then c + 32 else c else c

abbrev one_digit : List ℕ → Option ℕ
one_digit [] = none
one_digit (d ∷ ds) = if leb b'0' d then if leb d b'9' then some (d - b'0') else none else none

abbrev plain : Library
plain = record {
  trim_space = λ s. s;
  to_lower = λ s. map lower s;
  split_host_port = λ s. some (s, s);
  parse_id = one_digit;
  cidr_contains = λ entry host. false;
}

abbrev up : Listening
up = record { tcp = true; udp = true }

abbrev empty_manager : Manager ℕ
empty_manager = record { backends = []; locked = false; store = 0 }

abbrev with_lobby : Manager ℕ
with_lobby =
    (add plain counting [] up (codes "Lobby") (pos 25565) (codes "host:1") [] (pos 0)
      empty_manager).0

lobby_added :
    (add plain counting [] up (codes "LOBBY") (pos 25566) (codes "host:1") [] (pos 0) with_lobby).1
    ≡ failed proxygo.Proxy.Manager.already_exists
unfolding add port_free backend_allowed validate_udp_addr lookup assign
lobby_added = refl

Call-Registered_example : Registered plain with_lobby.backends
Call-Registered_example =
    Call-Registered plain counting
      (adds [] up (codes "Lobby") (pos 25565) (codes "host:1") [] (pos 0) empty_manager) tt

abbrev row : Row
row = record {
  id = 1;
  name = codes "Lobby";
  listen_port = 25565;
  backend_tcp = codes "host:1";
  forward_mode = codes "raw";
  udp_enabled = false;
  udp_port = 0;
  backend_udp = [];
  enabled = true;
}

abbrev lobby : Running
lobby = record { row = row; udp_fwd = false }

abbrev running : Manager ℕ
running = record { backends = (codes "lobby", lobby) ∷ []; locked = false; store = 1 }

added_is_running : with_lobby ≡ running
unfolding add port_free backend_allowed validate_udp_addr lookup assign
added_is_running = refl

remove_not_found_freezes_example :
    ((remove plain counting (codes "hub") running).1 ≡ failed not_found)
    × ((r : Manager ℕ × Answer)
        → Call plain counting (remove plain counting (codes "hub") running).0 r
        → r.0 ≡ (remove plain counting (codes "hub") running).0)
unfolding lookup with_id
remove_not_found_freezes_example =
    remove_not_found_freezes plain counting (codes "hub") running refl refl refl

remove_numeric_stays_example :
    ((remove plain counting (codes "1") running).0.backends ≡ running.backends)
    × ((remove plain counting (codes "1") running).0.store ≡ 0)
unfolding lookup with_id
remove_numeric_stays_example =
    remove_numeric_stays plain counting (codes "1") running lobby refl refl refl

-- A backend with a connection from the address `[10]`, in time for the deadline where it has UDP.
abbrev busy : Bool → ℕ → Service
busy udp socket = record {
  world = record {
    state = record {
      metrics = empty_metrics;
      tracker = [];
      active = 1;
      conn_total = 1;
      dial_fail = 0;
      last_ddos = 0;
      conns = (socket, tt) ∷ (socket + 1, tt) ∷ [];
      alerts = [];
    };
    serving = record { ip = 10 ∷ []; client = socket; backend = socket + 1 } ∷ [];
    elsewhere = [];
  };
  udp_enabled = udp;
  listening = true;
  udp_open = udp;
  flushers = 1;
}

-- The first backend goes down in time, the second is cut off; both share the tracker.
abbrev two_backends : Fleet
two_backends = record { tracker = (10 ∷ [], 2) ∷ []; services = busy true 1 ∷ busy false 3 ∷ [] }

two_backends-CountsAll : CountsAll two_backends
unfolding count lookup
two_backends-CountsAll ip = ground arith

one_left :
    let r = shutdown_all (λ s. s.udp_enabled) false two_backends in
    (r.0.tracker ≡ (10 ∷ [], 1) ∷ []) × (r.1 ≡ proxygo.Proxy.Manager.Shutdown.timed_out)
unfolding shutdown_all stop_all shutdown end_all close_both force_close_conns dec lookup assign
    delete
one_left = (refl, refl)

shutdown_all-IsClosed_example :
    let r = shutdown_all (λ s. s.udp_enabled) false two_backends in
    All IsClosed r.0.services
    × CountsAll r.0
    × (r.1 ≡ proxygo.Proxy.Manager.Shutdown.done → All IsDown r.0.services)
shutdown_all-IsClosed_example =
    shutdown_all-IsClosed (λ s. s.udp_enabled) two_backends (refl, (refl, tt))
      two_backends-CountsAll
