-- ===== src/Persistence/Calls.antt =====
-- Every call of the manager, but a Remove by a number, keeps the registry and the table the same.
use proxygo.Base.{
  ℕ, ◌≡◌, refl, Bool, false, ◌&&◌, none, some, List, if◌then◌else◌, Option-cases, inl, inr, Result,
  ok, err, panics, if_elim,
}
use proxygo.Base.Assoc.{nat_eq, bytes_eq, lookup}
use proxygo.Proxy.Manager.{
  Name, Running, Error, Manager, Answer, done, blocked, failed, Library, Listening, port_free,
  valid_forward_mode,
}
use proxygo.Proxy.Manager.Operations.{
  add, remove, remove_found, drop_backend, or_else, by_id, get, found_or_not, with_backend, change,
  if_stored, put_mode, store_mode, set_forward_mode, put_udp, attach_udp, store_udp,
  add_udp_checked, add_udp, detach_udp, clear_udp, remove_udp, put_fwd, reopen, restart,
}
use proxygo.Storage.{
  Store, update_backend, delete_row, set_mode, set_udp, unset_udp, update_backend_forward_mode,
  update_backend_udp, clear_backend_udp, delete_backend,
}
use proxygo.Persistence.{reliable, Agree}
use proxygo.Proxy.Manager.Calls.{Call, adds, removes, restarts, sets_mode, adds_udp, removes_udp}
use proxygo.Proxy.Manager.Removal.{key_of}
use proxygo.Persistence.Maps.{removed, changed, steady}
use proxygo.Persistence.Additions.{Agreed, add_checked-Agree}

module _ (lib : Library) where
  with_backend-Agree :
      (name : Name) (m : Manager Store) (f : Running → Manager Store × Answer)
      → Agree lib m
      → ((r : Running) → lookup (lib.to_lower name) m.backends ≡ some r → Agreed lib (f r))
      → Agreed lib (with_backend lib reliable name m f)
  with_backend-Agree name m f agree each =
      if_elim (Agreed lib) m.locked (m, blocked)
        (found_or_not lib reliable m f (get lib reliable name m)) (λ held. agree)
        (λ free. elim (Option-cases (lookup (lib.to_lower name) m.backends)) [
          | inl missing ↦ rw missing agree
          | inr (r, found) ↦ rw found (each r found)
        ])

  store_mode-Agree :
      (name : Name) (mode : List ℕ) (m : Manager Store) (r : Running)
      → lookup (lib.to_lower name) m.backends ≡ some r
      → Agree lib m
      → Agreed lib (store_mode lib reliable name mode m r)
  unfolding update_backend_forward_mode update_backend
  store_mode-Agree name mode m r found agree =
      changed lib (lib.to_lower name) (put_mode lib reliable mode) (set_mode mode) r m.backends
        m.store.db.backends m.store.db.sequence (λ r. refl) (λ row. (refl, refl, refl)) found agree

  store_udp-Agree :
      (listens : Bool) (name : Name) (port : ℕ) (addr : List ℕ) (m : Manager Store) (r : Running)
      → lookup (lib.to_lower name) m.backends ≡ some r
      → Agree lib m
      → Agreed lib (store_udp lib reliable listens name port addr m r)
  unfolding update_backend_udp update_backend
  store_udp-Agree listens name port addr m r found agree =
      let stored =
        if_stored lib reliable (reliable.update_backend_udp r.row.id port addr m.store) m
          (attach_udp lib reliable listens name port addr) in
      if_elim (Agreed lib) r.row.udp_enabled (m, failed Error.udp_already)
        (if port_free port m.backends then stored else (m, failed Error.port_in_use)) (λ on. agree)
        (λ off.
          if_elim (Agreed lib) (port_free port m.backends) stored (m, failed Error.port_in_use)
            (λ free.
              changed lib (lib.to_lower name) (put_udp lib reliable listens port addr)
                (set_udp port addr) r m.backends m.store.db.backends m.store.db.sequence (λ r. refl)
                (λ row. (refl, refl, refl)) found agree)
            (λ used. agree))

  add_udp_checked-Agree :
      (listens : Bool) (name : Name) (addr : List ℕ) (m : Manager Store) (c : Result Error ℕ)
      → Agree lib m
      → Agreed lib (add_udp_checked lib reliable listens name addr m c)
  add_udp_checked-Agree listens name addr m (err e) agree = agree
  add_udp_checked-Agree listens name addr m panics agree = agree
  add_udp_checked-Agree listens name addr m (ok port) agree =
      with_backend-Agree name m (store_udp lib reliable listens name port addr m) agree
        (λ r found. store_udp-Agree listens name port addr m r found agree)

  clear_udp-Agree :
      (name : Name) (m : Manager Store) (r : Running)
      → lookup (lib.to_lower name) m.backends ≡ some r
      → Agree lib m
      → Agreed lib (clear_udp lib reliable name m r)
  unfolding clear_backend_udp update_backend
  clear_udp-Agree name m r found agree =
      if_elim (Agreed lib) r.row.udp_enabled
        (if_stored lib reliable (reliable.clear_backend_udp r.row.id m.store)
          (change lib reliable name (detach_udp lib reliable) m) (λ m. (m, done)))
        (m, failed Error.udp_not_enabled)
        (λ on.
          changed lib (lib.to_lower name) (detach_udp lib reliable) unset_udp r m.backends
            m.store.db.backends m.store.db.sequence (λ r. refl) (λ row. (refl, refl, refl)) found
            agree)
        (λ off. agree)

  reopen-Agree :
      (l : Listening) (name : Name) (m : Manager Store) (r : Running)
      → Agree lib m
      → Agreed lib (reopen lib reliable l name m r)
  reopen-Agree l name m r agree =
      let closed = λ (up : Bool).
        steady lib (lib.to_lower name) (put_fwd lib reliable up) m.backends m.store.db.backends
          m.store.db.sequence (λ r. refl) agree in
      if_elim (Agreed lib) l.tcp
        (change lib reliable name (put_fwd lib reliable (r.row.udp_enabled && l.udp)) m, done)
        (change lib reliable name (put_fwd lib reliable false) m, failed Error.start_failed)
        (λ up. closed (r.row.udp_enabled && l.udp)) (λ down. closed false)

  drop_backend-Agree :
      (key : Name) (r : Running) (m : Manager Store)
      → lookup key m.backends ≡ some r
      → Agree lib m
      → Agreed lib (drop_backend lib reliable key r m)
  unfolding delete_backend delete_row
  drop_backend-Agree key r m found agree =
      removed lib key r m.backends m.store.db.backends m.store.db.sequence found agree

  -- A Remove is not by a number: a text that is no name is no id either.
  abbrev pub IsByName :
      {m : Manager Store} {r : Manager Store × Answer} → Call lib reliable m r → Type 0
  IsByName (removes ref m) =
      lookup (key_of lib reliable ref) m.backends ≡ none → by_id lib reliable ref m.backends ≡ none
  IsByName (adds whitelist l name port tcp udp udp_port m) = Unit {0}
  IsByName (restarts l name m) = Unit {0}
  IsByName (sets_mode name mode m) = Unit {0}
  IsByName (adds_udp listens name addr port m) = Unit {0}
  IsByName (removes_udp name m) = Unit {0}

  -- Over a store whose driver executes every statement, every call of Add, Restart, SetForwardMode,
  -- AddUDP, RemoveUDP and of Remove by a name keeps what runs and what is stored the same, whatever
  -- it answers and whether or not the listeners come up: the rows of the running backends are
  -- exactly the rows of the table, each under its id.
  pub Call-Agree :
      {m : Manager Store} {r : Manager Store × Answer} (call : Call lib reliable m r)
      → IsByName call
      → Agree lib m
      → Agree lib r.0
  unfolding add remove restart set_forward_mode add_udp remove_udp
  Call-Agree (adds whitelist l name port tcp udp udp_port m) by_name agree =
      add_checked-Agree lib whitelist l (lib.trim_space name) port tcp udp udp_port m _ agree
  Call-Agree (removes ref m) by_name agree =
      let key = key_of lib reliable ref in
      if_elim (Agreed lib) m.locked (m, blocked)
        (remove_found lib reliable key
          (or_else lib reliable (lookup key m.backends) (by_id lib reliable ref m.backends)) m)
        (λ held. agree)
        (λ free. elim (Option-cases (lookup key m.backends)) [
          | inl missing ↦ rw missing (rw (by_name missing) agree)
          | inr (r, found) ↦ rw found (drop_backend-Agree key r m found agree)
        ])
  Call-Agree (restarts l name m) by_name agree =
      with_backend-Agree name m (reopen lib reliable l name m) agree
        (λ r found. reopen-Agree l name m r agree)
  Call-Agree (sets_mode name mode m) by_name agree =
      if_elim (Agreed lib) (valid_forward_mode mode)
        (with_backend lib reliable name m (store_mode lib reliable name mode m))
        (m, failed Error.unknown_mode)
        (λ known.
          with_backend-Agree name m (store_mode lib reliable name mode m) agree
            (λ r found. store_mode-Agree name mode m r found agree))
        (λ unknown. agree)
  Call-Agree (adds_udp listens name addr port m) by_name agree =
      add_udp_checked-Agree listens name addr m _ agree
  Call-Agree (removes_udp name m) by_name agree =
      with_backend-Agree name m (clear_udp lib reliable name m) agree
        (λ r found. clear_udp-Agree name m r found agree)
