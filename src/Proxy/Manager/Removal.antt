-- ===== src/Proxy/Manager/Removal.antt =====
-- Remove: what is left of the registry, and of the mutex.
use proxygo.Base.{
  ℕ, ◌≡◌, refl, ap, arith, Bool, true, false, none, some, List, [], ◌∷◌, bytes_beq, if◌then◌else◌,
  Result, ok, err, panics,
}
use proxygo.Base.Int.{ℤ}
use proxygo.Base.Assoc.{bytes_eq, lookup, delete, lookup-delete}
use proxygo.Proxy.Manager.{
  Name, Running, Backends, Error, not_found, Storage, Manager, Answer, failed, Library, Listening,
  valid_forward_mode,
}
use proxygo.Proxy.Manager.Operations.{
  add, add_checked, remove, by_id, with_backend, restart, set_forward_mode, add_udp,
  add_udp_checked, remove_udp,
}
use proxygo.Proxy.Manager.Calls.{Call, adds, removes, restarts, sets_mode, adds_udp, removes_udp}

delete-missing : (key : Name) (m : Backends) → lookup key m ≡ none → delete key m ≡ m
unfolding lookup delete
delete-missing key [] missing = refl
delete-missing key ((k, r) ∷ m) missing = ground (arith, delete-missing key m)

module _ (lib : Library) {S : Type 0} (s : Storage S) where
  abbrev pub key_of : List ℕ → Name
  key_of ref = lib.to_lower (lib.trim_space ref)

  add_checked_locked :
      (whitelist : List (List ℕ)) (l : Listening) (name : Name) (listen_port : ℤ)
      (backend_tcp backend_udp : List ℕ) (udp_port : ℤ) (m : Manager S) (c : Result Error ℕ)
      → m.locked ≡ true
      → (add_checked lib s whitelist l name listen_port backend_tcp backend_udp udp_port m c).0 ≡ m
  add_checked_locked whitelist l name port tcp udp udp_port m (err e) locked = refl
  add_checked_locked whitelist l name port tcp udp udp_port m panics locked = refl
  add_checked_locked whitelist l name port tcp udp udp_port m (ok p) locked = simp locked

  with_backend_locked :
      (name : Name) (m : Manager S) (f : Running → Manager S × Answer)
      → m.locked ≡ true
      → (with_backend lib s name m f).0 ≡ m
  with_backend_locked name m f locked = simp locked

  add_udp_checked_locked :
      (listens : Bool) (name : Name) (addr : List ℕ) (m : Manager S) (c : Result Error ℕ)
      → m.locked ≡ true
      → (add_udp_checked lib s listens name addr m c).0 ≡ m
  add_udp_checked_locked listens name addr m (err e) locked = refl
  add_udp_checked_locked listens name addr m panics locked = refl
  add_udp_checked_locked listens name addr m (ok p) locked = with_backend_locked name m _ locked

  if_known :
      (b : Bool) (x y : Manager S × Answer) (m : Manager S)
      → x.0 ≡ m
      → y.0 ≡ m
      → (if b then x else y).0 ≡ m
  if_known true x y m hx hy = hx
  if_known false x y m hx hy = hy

  -- Once the mutex stays locked, no call changes anything.
  pub locked_frozen :
      {m : Manager S} {r : Manager S × Answer} → Call lib s m r → m.locked ≡ true → r.0 ≡ m
  unfolding add remove restart set_forward_mode add_udp remove_udp
  locked_frozen (adds whitelist l name port tcp udp udp_port m) locked =
      add_checked_locked whitelist l (lib.trim_space name) port tcp udp udp_port m _ locked
  locked_frozen (removes ref m) locked = simp locked
  locked_frozen (restarts l name m) locked = with_backend_locked name m _ locked
  locked_frozen (sets_mode name mode m) locked =
      if_known (valid_forward_mode mode) _ _ m (with_backend_locked name m _ locked) refl
  locked_frozen (adds_udp listens name addr port m) locked =
      add_udp_checked_locked listens name addr m _ locked
  locked_frozen (removes_udp name m) locked = with_backend_locked name m _ locked

  pub remove_missing :
      (ref : List ℕ) (m : Manager S)
      → m.locked ≡ false
      → lookup (key_of ref) m.backends ≡ none
      → by_id lib s ref m.backends ≡ none
      → remove lib s ref m ≡ (record m { locked = true }, failed not_found)
  unfolding remove
  remove_missing ref m free no_name no_id = simp (free, no_name, no_id)

  -- A Remove with a text that is neither the name nor the id of a backend, while the mutex is
  -- free, reports ErrNotFound with the mutex still locked: no later call of Add, Remove, Restart,
  -- SetForwardMode, AddUDP or RemoveUDP changes anything any more.
  pub remove_not_found_freezes :
      (ref : List ℕ) (m : Manager S)
      → m.locked ≡ false
      → lookup (key_of ref) m.backends ≡ none
      → by_id lib s ref m.backends ≡ none
      → ((remove lib s ref m).1 ≡ failed not_found)
        × ((r : Manager S × Answer)
            → Call lib s (remove lib s ref m).0 r
            → r.0 ≡ (remove lib s ref m).0)
  remove_not_found_freezes ref m free no_name no_id =
      let gone = remove_missing ref m free no_name no_id in
      (ap (λ r. r.1) gone, λ r call. locked_frozen call (ap (λ r. r.0.locked) gone))

  -- A Remove by the numeric id of a backend, while the mutex is free and no backend has that text
  -- as its name, deletes the backend's row from the storage and leaves the backend in the
  -- registry.
  pub remove_numeric_stays :
      (ref : List ℕ) (m : Manager S) (r : Running)
      → m.locked ≡ false
      → lookup (key_of ref) m.backends ≡ none
      → by_id lib s ref m.backends ≡ some r
      → ((remove lib s ref m).0.backends ≡ m.backends)
        × ((remove lib s ref m).0.store ≡ (s.delete_backend r.row.id m.store).1)
  unfolding remove
  remove_numeric_stays ref m r free no_name has_id = (
    simp (free, no_name, has_id) (delete-missing (key_of ref) m.backends no_name),
    simp (free, no_name, has_id),
  )

  -- A Remove by the name of a backend, while the mutex is free, takes exactly the backend of that
  -- name out of the registry, deletes its row and leaves the mutex free.
  pub lookup-remove :
      (ref : List ℕ) (m : Manager S) (r : Running) (other : Name)
      → m.locked ≡ false
      → lookup (key_of ref) m.backends ≡ some r
      → let left = (remove lib s ref m).0 in
        (lookup other left.backends
          ≡ (if bytes_beq (key_of ref) other then none else lookup other m.backends))
        × (left.store ≡ (s.delete_backend r.row.id m.store).1)
        × (left.locked ≡ false)
  unfolding remove
  lookup-remove ref m r other free found = (
    simp (free, found) (lookup-delete (key_of ref) other m.backends),
    simp (free, found),
    simp (free, found),
  )
