-- ===== src/Proxy/Manager.antt =====
-- Manager of internal/proxy/manager.go: the running backends, by lowercase name.
-- `locked` is the mutex `mu`: an operation that finds it locked waits for ever.
pub mod Operations
pub mod Registry
pub mod Additions
pub mod Calls
pub mod Removal
pub mod Listing
pub mod Stored
pub mod Shutdown
mod Tests
use proxygo.Base.{
  ℕ, zero, suc, ◌+◌, Bool, true, false, ◌&&◌, ◌||◌, Option, none, some, List, [], ◌∷◌, ltb, leb,
  ◌==◌, if◌then◌else◌, Result, ok, err, panics, ◌>>=◌, bytes_beq, is_empty,
}
use proxygo.Base.Int.{ℤ, pos, negsuc}
use proxygo.Base.Assoc.{MapKey, bytes_eq, lookup, assign, delete}
use proxygo.Base.Text.{codes}

abbrev pub Name : Type 0
Name = List ℕ

-- model.Backend without its time stamps.
pub record Row : Type 0 where
  pub id : ℕ
  pub name : Name
  pub listen_port : ℕ
  pub backend_tcp : List ℕ
  pub forward_mode : List ℕ
  pub udp_enabled : Bool
  pub udp_port : ℕ
  pub backend_udp : List ℕ
  pub enabled : Bool

-- A running Backend: its row, and whether a UDP forwarder is attached.
pub record Running : Type 0 where
  pub row : Row
  pub udp_fwd : Bool

abbrev pub Backends : Type 0
Backends = List (Name × Running)

pub data Error : Type 0 where
  name_required invalid_listen_port not_whitelisted bad_address empty_host : Error
  already_exists port_in_use invalid_udp_port unknown_mode udp_already udp_not_enabled : Error
  not_found storage_failed start_failed : Error

-- StoragePersist over a state `S`; a flag is `true` where the operation succeeded.
pub record Storage (S : Type 0) : Type 0 where
  pub get_backends : S → Option (List Row)
  pub add_backend : Row → S → Option ℕ × S
  pub delete_backend : ℕ → S → Bool × S
  pub update_backend_udp : ℕ → ℕ → List ℕ → S → Bool × S
  pub update_backend_forward_mode : ℕ → List ℕ → S → Bool × S
  pub clear_backend_udp : ℕ → S → Bool × S

pub record Manager (S : Type 0) : Type 0 where
  pub backends : Backends
  pub locked : Bool
  pub store : S

-- What a call returns, or that it never does.
pub data Answer : Type 0 where
  done blocked : Answer
  failed : Error → Answer

-- The functions of the packages strings, net and fmt that the manager calls: `parse_id` is
-- Sscanf with "%d", and `cidr_contains` is ParseCIDR and Contains.
pub record Library : Type 0 where
  pub trim_space : List ℕ → List ℕ
  pub to_lower : List ℕ → List ℕ
  pub split_host_port : List ℕ → Option (List ℕ × List ℕ)
  pub parse_id : List ℕ → Option ℕ
  pub cidr_contains : List ℕ → List ℕ → Bool

-- Whether the listeners of a backend come up.
pub record Listening : Type 0 where
  pub tcp : Bool
  pub udp : Bool

-- `p <= 0 || p > 65535` is `none`.
abbrev pub port_of : ℤ → Option ℕ
port_of (pos n) = if n == 0 || ltb 65535 n then none else some n
port_of (negsuc n) = none

abbrev pub valid_forward_mode : List ℕ → Bool
valid_forward_mode s =
    bytes_beq s (codes "raw") || bytes_beq s (codes "bungee") || bytes_beq s (codes "ppv2")

-- `rt, ok := m.backends[key]` with a write to the object that `rt` points to.
unfoldable pub adjust : Name → (Running → Running) → Backends → Backends
adjust key change [] = []
adjust key change ((k, r) ∷ m) = (k, if bytes_beq k key then change r else r) ∷ adjust key change m

-- Is the port the TCP port of no backend, and the UDP port of none that has UDP?
unfoldable pub port_free : ℕ → Backends → Bool
port_free port [] = true
port_free port ((k, r) ∷ m) =
    if r.row.listen_port == port
    then false
    else if r.row.udp_enabled && r.row.udp_port == port
    then false
    else port_free port m

unfoldable pub with_id : ℕ → Backends → Option Running
with_id id [] = none
with_id id ((k, r) ∷ m) = if r.row.id == id then some r else with_id id m

-- (*Backend).start: TCP must come up; UDP that does not is only logged.
abbrev pub start_backend : Listening → Row → Option Running
start_backend l row =
    if l.tcp then some (record { row = row; udp_fwd = row.udp_enabled && l.udp }) else none

module _ (lib : Library) where
  -- Security.BackendAllowed
  abbrev pub entry_allows : List ℕ → List (List ℕ) → Bool
  entry_allows host [] = false
  entry_allows host (e ∷ es) = bytes_beq e host || lib.cidr_contains e host || entry_allows host es

  abbrev pub host_of : List ℕ → Option (List ℕ × List ℕ) → List ℕ
  host_of hostport none = hostport
  host_of hostport (some (host, port)) = host

  unfoldable pub backend_allowed : List (List ℕ) → List ℕ → Bool
  backend_allowed [] hostport = true
  backend_allowed (e ∷ es) hostport =
      entry_allows (host_of hostport (lib.split_host_port hostport)) (e ∷ es)

  abbrev pub checked_udp_addr : Option (List ℕ × List ℕ) → Result Error (Unit {0})
  checked_udp_addr none = err bad_address
  checked_udp_addr (some (host, port)) =
      if is_empty host || is_empty port then err empty_host else ok tt

  unfoldable pub validate_udp_addr : List ℕ → Result Error (Unit {0})
  validate_udp_addr addr = checked_udp_addr (lib.split_host_port addr)

  abbrev pub or_error {ℓ} : {A : Type ℓ} → Error → Option A → Result Error A
  or_error e none = err e
  or_error e (some a) = ok a

  abbrev pub require : Error → Bool → Result Error (Unit {0})
  require e true = ok tt
  require e false = err e

  -- What Add checks before it takes the lock; the result is the port.
  abbrev pub check_arguments : List (List ℕ) → Name → ℤ → List ℕ → Result Error ℕ
  check_arguments whitelist name listen_port backend_tcp = do
    _ ← require name_required (if is_empty name then false else true)
    port ← or_error invalid_listen_port (port_of listen_port)
    _ ← require not_whitelisted (backend_allowed whitelist backend_tcp)
    address ← or_error bad_address (lib.split_host_port backend_tcp)
    _ ← require empty_host (if is_empty address.0 then false else true)
    ok port

  abbrev pub exists_locked : Name → Backends → Bool
  exists_locked name m = elim (lookup (lib.to_lower name) m) [ none ↦ false | some r ↦ true ]

  abbrev pub with_udp : Row → List ℕ → ℤ → Result Error Row
  with_udp row [] udp_port = ok row
  with_udp row (b ∷ bs) udp_port = do
    _ ← validate_udp_addr (b ∷ bs)
    port ← or_error invalid_udp_port (port_of udp_port)
    ok (record row { udp_enabled = true; udp_port = port; backend_udp = b ∷ bs })

  -- The row that Add persists, or the error of a check.
  abbrev pub candidate :
      List (List ℕ) → Backends → Name → ℤ → List ℕ → List ℕ → ℤ → Result Error Row
  candidate whitelist m name listen_port backend_tcp backend_udp udp_port = do
    port ← check_arguments whitelist name listen_port backend_tcp
    _ ← require already_exists (if exists_locked name m then false else true)
    _ ← require port_in_use (port_free port m)
    with_udp
        (record {
          id = 0;
          name = name;
          listen_port = port;
          backend_tcp = backend_tcp;
          forward_mode = codes "raw";
          udp_enabled = false;
          udp_port = 0;
          backend_udp = [];
          enabled = true;
        })
        backend_udp udp_port
