-- ===== src/Persistence/Tests.antt =====
-- A concrete store under the manager, and the theorems at concrete inputs.
use proxygo.Base.{ℕ, ◌+◌, ◌≡◌, refl, true, false, none, some, [], if◌then◌else◌, ltb, map}
use proxygo.Base.Int.{pos}
use proxygo.Base.Assoc.{bytes_eq, nat_eq, lookup, assign}
use proxygo.Base.Text.{codes}
use proxygo.Proxy.Manager.{
  Manager, Answer, done, Library, Listening, port_free, backend_allowed, validate_udp_addr,
}
use proxygo.Proxy.Manager.Operations.{add, set_forward_mode}
use proxygo.Proxy.Manager.Calls.{adds, sets_mode}
use proxygo.Storage.{Store, insert_backend, add_backend}
use proxygo.Persistence.{reliable, row_at, Agree}
use proxygo.Persistence.Calls.{Call-Agree}
use proxygo.Persistence.Recovery.{no_call, then_call, after_restart, row_at-restart}

abbrev lower : ℕ → ℕ
lower c = if ltb 64 c then if ltb c 91 then c + 32 else c else c

abbrev plain : Library
plain = record {
  trim_space = λ s. s;
  to_lower = λ s. map lower s;
  split_host_port = λ s. some (s, s);
  parse_id = λ s. none;
  cidr_contains = λ entry host. false;
}

abbrev up : Listening
up = record { tcp = true; udp = true }

abbrev empty_store : Store
empty_store = record {
  db = record { backends = []; sequence = 4; stats = []; audit = []; foreign_keys = false };
  issued = 0;
}

abbrev empty_manager : Manager Store
empty_manager = record { backends = []; locked = false; store = empty_store }

abbrev with_lobby : Manager Store × Answer
with_lobby =
    add plain reliable [] up (codes "Lobby") (pos 25565) (codes "host:1") [] (pos 0) empty_manager

abbrev with_mode : Manager Store × Answer
with_mode = set_forward_mode plain reliable (codes "LOBBY") (codes "ppv2") with_lobby.0

lobby_added : with_lobby.1 ≡ done
unfolding add port_free backend_allowed validate_udp_addr lookup assign add_backend insert_backend
lobby_added = refl

empty-Agree : Agree plain empty_manager
unfolding lookup
empty-Agree = ((λ key row found. cc, λ id row found. cc), tt)

Call-Agree_example : Agree plain with_lobby.0
Call-Agree_example =
    Call-Agree plain
      (adds [] up (codes "Lobby") (pos 25565) (codes "host:1") [] (pos 0) empty_manager) tt
      empty-Agree

row_at-restart_example :
    row_at (codes "lobby") (after_restart plain with_mode.0.store).backends
    ≡ row_at (codes "lobby") with_mode.0.backends
row_at-restart_example =
    row_at-restart plain
      (then_call
        (then_call (no_call empty_manager)
          (adds [] up (codes "Lobby") (pos 25565) (codes "host:1") [] (pos 0) empty_manager) tt)
        (sets_mode (codes "LOBBY") (codes "ppv2") with_lobby.0) tt)
      empty-Agree (codes "lobby")
