-- ===== src/Proxy/Manager/Stored.antt =====
-- What the calls of the manager leave alone in its storage.
use proxygo.Base.{
  ℕ, ◌≡◌, refl, ap, ◌∙◌, Bool, true, false, ◌&&◌, Option, none, some, List, if◌then◌else◌, if_elim,
  Result, ok, err, panics, Bool-cases, inl, inr,
}
use proxygo.Base.Int.{ℤ}
use proxygo.Base.Assoc.{bytes_eq, lookup}
use proxygo.Proxy.Manager.{
  Name, Row, Running, Error, Storage, Manager, Answer, done, blocked, failed, Library, Listening,
  port_free, valid_forward_mode, candidate,
}
use proxygo.Proxy.Manager.Operations.{
  add, launch, persisted, add_row, add_checked, remove, remove_found, or_else, by_id, with_backend,
  change, if_stored, set_forward_mode, add_udp, add_udp_checked, attach_udp, found_or_not, put_mode,
  store_mode, store_udp, clear_udp, put_fwd, reopen, detach_udp, remove_udp, restart, get,
}
use proxygo.Proxy.Manager.Calls.{Call, adds, removes, restarts, sets_mode, adds_udp, removes_udp}

module _ {S X : Type 0} (f : S → X) (s : Storage S) where
  -- No method of the storage changes `f`.
  abbrev pub Preserves : Type 0
  Preserves =
      ((row : Row) (st : S) → f (s.add_backend row st).1 ≡ f st)
      × ((id : ℕ) (st : S) → f (s.delete_backend id st).1 ≡ f st)
      × ((id port : ℕ) (addr : List ℕ) (st : S) → f (s.update_backend_udp id port addr st).1 ≡ f st)
      × ((id : ℕ) (mode : List ℕ) (st : S) → f (s.update_backend_forward_mode id mode st).1 ≡ f st)
      × ((id : ℕ) (st : S) → f (s.clear_backend_udp id st).1 ≡ f st)

  module _ (lib : Library) (kept : Preserves) where
    abbrev Same : Manager S → Manager S × Answer → Type 0
    Same m r = f r.0.store ≡ f m.store

    if_stored-Same :
        (r : Bool × S) (m : Manager S) (g : Manager S → Manager S × Answer) (o : Manager S)
        → f r.1 ≡ f o.store
        → ((st : S) → (g (record m { store = st })).0.store ≡ st)
        → Same o (if_stored lib s r m g)
    if_stored-Same (true, st) m g o same after = ap f (after st) ∙ same
    if_stored-Same (false, st) m g o same after = same

    with_backend-Same :
        (name : Name) (m : Manager S) (g : Running → Manager S × Answer)
        → ((r : Running) → Same m (g r))
        → Same m (with_backend lib s name m g)
    with_backend-Same name m g each =
        if_elim (Same m) m.locked (m, blocked) (found_or_not lib s m g (get lib s name m))
          (λ held. refl) (λ free. found (get lib s name m))
      where
        found : (r : Option Running) → Same m (found_or_not lib s m g r)
        found none = refl
        found (some r) = each r

    launch-Same : (l : Listening) (row : Row) (m : Manager S) → Same m (launch lib s l row m)
    launch-Same l row m = elim (Bool-cases l.tcp) [
      | inl up ↦ rw up refl
      | inr down ↦ rw down (kept.1 row.id m.store)
    ]

    persisted-Same :
        (l : Listening) (row : Row) (m : Manager S) (r : Option ℕ × S)
        → f r.1 ≡ f m.store
        → Same m (persisted lib s l row m r)
    persisted-Same l row m (none, st) same = same
    persisted-Same l row m (some id, st) same =
        launch-Same l (record row { id = id }) (record m { store = st }) ∙ same

    add_row-Same :
        (l : Listening) (m : Manager S) (r : Result Error Row) → Same m (add_row lib s l m r)
    add_row-Same l m (ok row) =
        persisted-Same l row m (s.add_backend row m.store) (kept.0 row m.store)
    add_row-Same l m (err e) = refl
    add_row-Same l m panics = refl

    add_checked-Same :
        (whitelist : List (List ℕ)) (l : Listening) (name : Name) (listen_port : ℤ)
        (backend_tcp backend_udp : List ℕ) (udp_port : ℤ) (m : Manager S) (c : Result Error ℕ)
        → Same m
            (add_checked lib s whitelist l name listen_port backend_tcp backend_udp udp_port m c)
    add_checked-Same whitelist l name port tcp udp udp_port m (err e) = refl
    add_checked-Same whitelist l name port tcp udp udp_port m panics = refl
    add_checked-Same whitelist l name port tcp udp udp_port m (ok p) =
        let row = candidate lib whitelist m.backends name port tcp udp udp_port in
        if_elim (Same m) m.locked (m, blocked) (add_row lib s l m row) (λ held. refl)
          (λ free. add_row-Same l m row)

    store_udp-Same :
        (listens : Bool) (name : Name) (port : ℕ) (addr : List ℕ) (m : Manager S) (r : Running)
        → Same m (store_udp lib s listens name port addr m r)
    store_udp-Same listens name port addr m r =
        let stored =
          if_stored lib s (s.update_backend_udp r.row.id port addr m.store) m
            (attach_udp lib s listens name port addr) in
        if_elim (Same m) r.row.udp_enabled (m, failed Error.udp_already)
          (if port_free port m.backends then stored else (m, failed Error.port_in_use)) (λ on. refl)
          (λ off.
            if_elim (Same m) (port_free port m.backends) stored (m, failed Error.port_in_use)
              (λ free.
                if_stored-Same (s.update_backend_udp r.row.id port addr m.store) m
                  (attach_udp lib s listens name port addr) m (kept.2 r.row.id port addr m.store)
                  (λ st. refl))
              (λ used. refl))

    add_udp_checked-Same :
        (listens : Bool) (name : Name) (addr : List ℕ) (m : Manager S) (c : Result Error ℕ)
        → Same m (add_udp_checked lib s listens name addr m c)
    add_udp_checked-Same listens name addr m (err e) = refl
    add_udp_checked-Same listens name addr m panics = refl
    add_udp_checked-Same listens name addr m (ok port) =
        with_backend-Same name m (store_udp lib s listens name port addr m)
          (store_udp-Same listens name port addr m)

    remove_found-Same :
        (key : Name) (r : Option Running) (m : Manager S) → Same m (remove_found lib s key r m)
    remove_found-Same key none m = refl
    remove_found-Same key (some r) m = kept.1 r.row.id m.store

    reopen-Same :
        (l : Listening) (name : Name) (m : Manager S) (r : Running)
        → Same m (reopen lib s l name m r)
    reopen-Same l name m r =
        if_elim (Same m) l.tcp
          (change lib s name (put_fwd lib s (r.row.udp_enabled && l.udp)) m, done)
          (change lib s name (put_fwd lib s false) m, failed Error.start_failed) (λ up. refl)
          (λ down. refl)

    clear_udp-Same : (name : Name) (m : Manager S) (r : Running) → Same m (clear_udp lib s name m r)
    clear_udp-Same name m r =
        let off = change lib s name (detach_udp lib s) m in
        let answer = s.clear_backend_udp r.row.id m.store in
        if_elim (Same m) r.row.udp_enabled (if_stored lib s answer off (λ m. (m, done)))
          (m, failed Error.udp_not_enabled)
          (λ on.
            if_stored-Same answer off (λ m. (m, done)) m (kept.4 r.row.id m.store) (λ st. refl))
          (λ off. refl)

    pub Call-Preserves :
        {m : Manager S} {r : Manager S × Answer} → Call lib s m r → f r.0.store ≡ f m.store
    unfolding add remove restart set_forward_mode add_udp remove_udp
    Call-Preserves (adds whitelist l name port tcp udp udp_port m) =
        add_checked-Same whitelist l (lib.trim_space name) port tcp udp udp_port m _
    Call-Preserves (removes ref m) =
        let key = lib.to_lower (lib.trim_space ref) in
        let found = or_else lib s (lookup key m.backends) (by_id lib s ref m.backends) in
        if_elim (Same m) m.locked (m, blocked) (remove_found lib s key found m) (λ held. refl)
          (λ free. remove_found-Same key found m)
    Call-Preserves (restarts l name m) =
        with_backend-Same name m (reopen lib s l name m) (reopen-Same l name m)
    Call-Preserves (sets_mode name mode m) =
        if_elim (Same m) (valid_forward_mode mode)
          (with_backend lib s name m (store_mode lib s name mode m)) (m, failed Error.unknown_mode)
          (λ known. with_backend-Same name m (store_mode lib s name mode m) (λ r.
            if_stored-Same (s.update_backend_forward_mode r.row.id mode m.store) m
              (λ m. (change lib s name (put_mode lib s mode) m, done)) m
              (kept.3 r.row.id mode m.store) (λ st. refl)))
          (λ unknown. refl)
    Call-Preserves (adds_udp listens name addr port m) = add_udp_checked-Same listens name addr m _
    Call-Preserves (removes_udp name m) =
        with_backend-Same name m (clear_udp lib s name m) (clear_udp-Same name m)
