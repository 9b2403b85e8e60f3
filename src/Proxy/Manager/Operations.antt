-- ===== src/Proxy/Manager/Operations.antt =====
-- The operations of the manager over its storage. `Storage` is what the manager takes from it.
use proxygo.Base.{
  ℕ, Bool, true, false, ◌&&◌, ◌||◌, Option, none, some, List, [], ◌∷◌, if◌then◌else◌, Result, ok,
  err, panics, ◌>>=◌,
}
use proxygo.Base.Int.{ℤ}
use proxygo.Base.Assoc.{bytes_eq, lookup, assign, delete}
use proxygo.Proxy.Manager.{
  Name, Row, Running, Backends, Error, Storage, Manager, Answer, Library, Listening, port_of,
  valid_forward_mode, adjust, port_free, with_id, start_backend, done, blocked, failed, port_in_use,
  invalid_udp_port, unknown_mode, udp_already, udp_not_enabled, not_found, storage_failed,
  start_failed, validate_udp_addr, or_error, check_arguments, candidate,
}

module _ (lib : Library) {S : Type 0} (s : Storage S) where
  -- Start
  abbrev pub start_rows : (Row → Listening) → List Row → Backends → Backends
  start_rows listening [] m = m
  start_rows listening (row ∷ rows) m = start_rows listening rows (
      if row.enabled
      then (elim (start_backend (listening row) row) [
        | none ↦ m
        | some r ↦ assign (lib.to_lower row.name) r m
      ])
      else m)

  abbrev pub started : (Row → Listening) → Manager S → Option (List Row) → Manager S × Answer
  started listening m none = (m, failed storage_failed)
  started listening m (some rows) =
      (record m { backends = start_rows listening rows m.backends }, done)

  unfoldable pub start : (Row → Listening) → Manager S → Manager S × Answer
  start listening m =
      if m.locked then (m, blocked) else started listening m (s.get_backends m.store)

  -- Add: the listeners answer `l`.
  abbrev pub launch : Listening → Row → Manager S → Manager S × Answer
  launch l row m = elim (start_backend l row) [
    | none ↦ (record m { store = (s.delete_backend row.id m.store).1 }, failed start_failed)
    | some r ↦ (record m { backends = assign (lib.to_lower row.name) r m.backends }, done)
  ]

  abbrev pub persisted : Listening → Row → Manager S → Option ℕ × S → Manager S × Answer
  persisted l row m (none, st) = (record m { store = st }, failed storage_failed)
  persisted l row m (some id, st) = launch l (record row { id = id }) (record m { store = st })

  abbrev pub add_row : Listening → Manager S → Result Error Row → Manager S × Answer
  add_row l m (ok row) = persisted l row m (s.add_backend row m.store)
  add_row l m (err e) = (m, failed e)
  add_row l m panics = (m, blocked)

  abbrev pub add_checked :
      List (List ℕ)
      → Listening
      → Name
      → ℤ
      → List ℕ
      → List ℕ
      → ℤ
      → Manager S
      → Result Error ℕ
      → Manager S × Answer
  add_checked whitelist l name listen_port backend_tcp backend_udp udp_port m (err e) =
      (m, failed e)
  add_checked whitelist l name listen_port backend_tcp backend_udp udp_port m panics = (m, blocked)
  add_checked whitelist l name listen_port backend_tcp backend_udp udp_port m (ok port) =
      if m.locked
      then (m, blocked)
      else add_row l m
          (candidate lib whitelist m.backends name listen_port backend_tcp backend_udp udp_port)

  -- A failed check of the arguments alone does not touch the lock.
  unfoldable pub add :
      List (List ℕ) → Listening → Name → ℤ → List ℕ → List ℕ → ℤ → Manager S → Manager S × Answer
  add whitelist l name listen_port backend_tcp backend_udp udp_port m =
      let trimmed = lib.trim_space name in
      add_checked whitelist l trimmed listen_port backend_tcp backend_udp udp_port m
        (check_arguments lib whitelist trimmed listen_port backend_tcp)

  -- Remove
  abbrev pub drop_backend : Name → Running → Manager S → Manager S × Answer
  drop_backend key r m =
      let deleted = s.delete_backend r.row.id m.store in
      (
        record m { backends = delete key m.backends; store = deleted.1 },
        if deleted.0 then done else failed storage_failed,
      )

  abbrev pub by_id : List ℕ → Backends → Option Running
  by_id ref m = elim (lib.parse_id ref) [ none ↦ none | some id ↦ with_id id m ]

  -- ErrNotFound is returned with the mutex still locked.
  abbrev pub remove_found : Name → Option Running → Manager S → Manager S × Answer
  remove_found key none m = (record m { locked = true }, failed not_found)
  remove_found key (some r) m = drop_backend key r m

  abbrev pub or_else : Option Running → Option Running → Option Running
  or_else none other = other
  or_else (some r) other = some r

  unfoldable pub remove : List ℕ → Manager S → Manager S × Answer
  remove ref m =
      let key = lib.to_lower (lib.trim_space ref) in
      if m.locked
      then (m, blocked)
      else remove_found key (or_else (lookup key m.backends) (by_id ref m.backends)) m

  -- Get, with `blocked` as no answer.
  abbrev pub get : Name → Manager S → Option Running
  get name m = lookup (lib.to_lower name) m.backends

  abbrev pub found_or_not :
      Manager S → (Running → Manager S × Answer) → Option Running → Manager S × Answer
  found_or_not m f none = (m, failed not_found)
  found_or_not m f (some r) = f r

  abbrev pub with_backend : Name → Manager S → (Running → Manager S × Answer) → Manager S × Answer
  with_backend name m f = if m.locked then (m, blocked) else found_or_not m f (get name m)

  abbrev pub change : Name → (Running → Running) → Manager S → Manager S
  change name f m = record m { backends = adjust (lib.to_lower name) f m.backends }

  abbrev pub if_stored :
      Bool × S → Manager S → (Manager S → Manager S × Answer) → Manager S × Answer
  if_stored (true, st) m f = f (record m { store = st })
  if_stored (false, st) m f = (record m { store = st }, failed storage_failed)

  abbrev pub put_mode : List ℕ → Running → Running
  put_mode mode r = record r { row = record r.row { forward_mode = mode } }

  abbrev pub store_mode : Name → List ℕ → Manager S → Running → Manager S × Answer
  store_mode name mode m r =
      if_stored (s.update_backend_forward_mode r.row.id mode m.store) m
        (λ m. (change name (put_mode mode) m, done))

  unfoldable pub set_forward_mode : Name → List ℕ → Manager S → Manager S × Answer
  set_forward_mode name mode m =
      if valid_forward_mode mode
      then with_backend name m (store_mode name mode m)
      else (m, failed unknown_mode)

  -- AddUDP: the row says that UDP is on before the listener is opened.
  abbrev pub put_udp : Bool → ℕ → List ℕ → Running → Running
  put_udp listens port addr r = record {
    row = record r.row { udp_enabled = true; udp_port = port; backend_udp = addr };
    udp_fwd = listens || r.udp_fwd;
  }

  abbrev pub attach_udp : Bool → Name → ℕ → List ℕ → Manager S → Manager S × Answer
  attach_udp listens name port addr m =
      (change name (put_udp listens port addr) m, if listens then done else failed start_failed)

  abbrev pub store_udp : Bool → Name → ℕ → List ℕ → Manager S → Running → Manager S × Answer
  store_udp listens name port addr m r =
      if r.row.udp_enabled
      then (m, failed udp_already)
      else if port_free port m.backends
      then if_stored (s.update_backend_udp r.row.id port addr m.store) m
          (attach_udp listens name port addr)
      else (m, failed port_in_use)

  abbrev pub add_udp_checked :
      Bool → Name → List ℕ → Manager S → Result Error ℕ → Manager S × Answer
  add_udp_checked listens name addr m (err e) = (m, failed e)
  add_udp_checked listens name addr m panics = (m, blocked)
  add_udp_checked listens name addr m (ok port) =
      with_backend name m (store_udp listens name port addr m)

  unfoldable pub add_udp : Bool → Name → List ℕ → ℤ → Manager S → Manager S × Answer
  add_udp listens name addr udp_port m =
      add_udp_checked listens name addr m
        (do _ ← validate_udp_addr lib addr; or_error lib invalid_udp_port (port_of udp_port))

  -- RemoveUDP: the row is cleared in memory whatever the storage says.
  abbrev pub detach_udp : Running → Running
  detach_udp r = record {
    row = record r.row { udp_enabled = false; udp_port = 0; backend_udp = [] };
    udp_fwd = false;
  }

  abbrev pub clear_udp : Name → Manager S → Running → Manager S × Answer
  clear_udp name m r =
      if r.row.udp_enabled
      then if_stored (s.clear_backend_udp r.row.id m.store) (change name detach_udp m)
          (λ m. (m, done))
      else (m, failed udp_not_enabled)

  unfoldable pub remove_udp : Name → Manager S → Manager S × Answer
  remove_udp name m = with_backend name m (clear_udp name m)

  -- Restart: the old listeners are closed, whether or not the new ones come up.
  abbrev pub put_fwd : Bool → Running → Running
  put_fwd up r = record r { udp_fwd = up }

  abbrev pub reopen : Listening → Name → Manager S → Running → Manager S × Answer
  reopen l name m r =
      if l.tcp
      then (change name (put_fwd (r.row.udp_enabled && l.udp)) m, done)
      else (change name (put_fwd false) m, failed start_failed)

  unfoldable pub restart : Listening → Name → Manager S → Manager S × Answer
  restart l name m = with_backend name m (reopen l name m)
