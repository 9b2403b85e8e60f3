-- ===== src/Proxy/Manager/Calls.antt =====
-- Every operation of the manager keeps the registry in order.
use proxygo.Base.{
  ℕ, refl, Bool, true, false, ◌&&◌, Option, none, some, List, if◌then◌else◌, Result, ok, err,
  panics,
}
use proxygo.Base.Int.{ℤ}
use proxygo.Base.Assoc.{bytes_eq, lookup}
use proxygo.Proxy.Manager.{
  Name, Running, Error, Storage, Manager, Answer, done, blocked, failed, Library, Listening,
  port_free, valid_forward_mode,
}
use proxygo.Proxy.Manager.Operations.{
  add, remove, remove_found, with_backend, change, if_stored, set_forward_mode, add_udp,
  add_udp_checked, attach_udp, found_or_not, put_mode, store_mode, put_udp, store_udp, clear_udp,
  put_fwd, reopen, detach_udp, remove_udp, restart, or_else, by_id, get,
}
use proxygo.Proxy.Manager.Registry.{Registered, Keeps, Registered-adjust, Registered-delete}
use proxygo.Proxy.Manager.Registry.{Kept, either}
use proxygo.Proxy.Manager.Additions.{add_checked-Registered}

module _ (lib : Library) where
  module _ {S : Type 0} (s : Storage S) where
    remove_found-Registered :
        (key : Name) (r : Option Running) (m : Manager S)
        → Registered lib m.backends
        → Kept lib (remove_found lib s key r m)
    remove_found-Registered key none m reg = reg
    remove_found-Registered key (some r) m reg = Registered-delete lib key m.backends reg

    with_backend-Registered :
        (name : Name) (m : Manager S) (f : Running → Manager S × Answer)
        → Registered lib m.backends
        → ((r : Running) → Kept lib (f r))
        → Kept lib (with_backend lib s name m f)
    with_backend-Registered name m f reg each =
        either lib m.locked (m, blocked) (found_or_not lib s m f (get lib s name m)) reg
          (found (get lib s name m))
      where
        found : (r : Option Running) → Kept lib (found_or_not lib s m f r)
        found none = reg
        found (some r) = each r

    if_stored-Registered :
        (r : Bool × S) (m : Manager S) (f : Manager S → Manager S × Answer)
        → Registered lib m.backends
        → ((st : S) → Kept lib (f (record m { store = st })))
        → Kept lib (if_stored lib s r m f)
    if_stored-Registered (true, st) m f reg each = each st
    if_stored-Registered (false, st) m f reg each = reg

    change-Registered :
        (name : Name) (f : Running → Running)
        → Keeps lib f
        → (m : Manager S) → Registered lib m.backends
        → Registered lib (change lib s name f m).backends
    change-Registered name f keeps m reg =
        Registered-adjust lib (lib.to_lower name) f keeps m.backends reg

    store_mode-Registered :
        (name : Name) (mode : List ℕ) (m : Manager S) (r : Running)
        → Registered lib m.backends
        → Kept lib (store_mode lib s name mode m r)
    store_mode-Registered name mode m r reg =
        if_stored-Registered (s.update_backend_forward_mode r.row.id mode m.store) m
          (λ m. (change lib s name (put_mode lib s mode) m, done)) reg
          (λ st.
            change-Registered name (put_mode lib s mode) (λ r. (refl, refl))
              (record m { store = st }) reg)

    store_udp-Registered :
        (listens : Bool) (name : Name) (port : ℕ) (addr : List ℕ) (m : Manager S) (r : Running)
        → Registered lib m.backends
        → Kept lib (store_udp lib s listens name port addr m r)
    store_udp-Registered listens name port addr m r reg =
        let stored =
          if_stored lib s (s.update_backend_udp r.row.id port addr m.store) m
            (attach_udp lib s listens name port addr) in
        either lib r.row.udp_enabled (m, failed Error.udp_already)
          (if port_free port m.backends then stored else (m, failed Error.port_in_use)) reg
          (either lib (port_free port m.backends) stored (m, failed Error.port_in_use)
            (if_stored-Registered (s.update_backend_udp r.row.id port addr m.store) m
              (attach_udp lib s listens name port addr) reg
              (λ st.
                change-Registered name (put_udp lib s listens port addr) (λ r. (refl, refl))
                  (record m { store = st }) reg))
            reg)

    add_udp_checked-Registered :
        (listens : Bool) (name : Name) (addr : List ℕ) (m : Manager S) (c : Result Error ℕ)
        → Registered lib m.backends
        → Kept lib (add_udp_checked lib s listens name addr m c)
    add_udp_checked-Registered listens name addr m (err e) reg = reg
    add_udp_checked-Registered listens name addr m panics reg = reg
    add_udp_checked-Registered listens name addr m (ok port) reg =
        with_backend-Registered name m (store_udp lib s listens name port addr m) reg
          (λ r. store_udp-Registered listens name port addr m r reg)

    clear_udp-Registered :
        (name : Name) (m : Manager S) (r : Running)
        → Registered lib m.backends
        → Kept lib (clear_udp lib s name m r)
    clear_udp-Registered name m r reg =
        let off = change lib s name (detach_udp lib s) m in
        let cleared = change-Registered name (detach_udp lib s) (λ r. (refl, refl)) m reg in
        let answer = s.clear_backend_udp r.row.id m.store in
        either lib r.row.udp_enabled (if_stored lib s answer off (λ m. (m, done)))
          (m, failed Error.udp_not_enabled)
          (if_stored-Registered answer off (λ m. (m, done)) cleared (λ st. cleared)) reg

    reopen-Registered :
        (l : Listening) (name : Name) (m : Manager S) (r : Running)
        → Registered lib m.backends
        → Kept lib (reopen lib s l name m r)
    reopen-Registered l name m r reg =
        let up = r.row.udp_enabled && l.udp in
        either lib l.tcp (change lib s name (put_fwd lib s up) m, done)
          (change lib s name (put_fwd lib s false) m, failed Error.start_failed)
          (change-Registered name (put_fwd lib s up) (λ r. (refl, refl)) m reg)
          (change-Registered name (put_fwd lib s false) (λ r. (refl, refl)) m reg)

    -- One call of an admin operation, with what it answers.
    pub data Call : Manager S → Manager S × Answer → Type 0 where
      adds :
          (whitelist : List (List ℕ)) (l : Listening) (name : Name) (listen_port : ℤ)
          (backend_tcp backend_udp : List ℕ) (udp_port : ℤ) (m : Manager S)
          → Call m (add lib s whitelist l name listen_port backend_tcp backend_udp udp_port m)
      removes : (ref : List ℕ) (m : Manager S) → Call m (remove lib s ref m)
      restarts : (l : Listening) (name : Name) (m : Manager S) → Call m (restart lib s l name m)
      sets_mode :
          (name : Name) (mode : List ℕ) (m : Manager S)
          → Call m (set_forward_mode lib s name mode m)
      adds_udp :
          (listens : Bool) (name : Name) (addr : List ℕ) (udp_port : ℤ) (m : Manager S)
          → Call m (add_udp lib s listens name addr udp_port m)
      removes_udp : (name : Name) (m : Manager S) → Call m (remove_udp lib s name m)

    -- Every call of Add, Remove, Restart, SetForwardMode, AddUDP and RemoveUDP keeps a registry
    -- that is in order in order: each key is the lowercase name of its backend and has one entry,
    -- and no two backends listen on the same TCP port, whatever the storage and the listeners
    -- answer.
    pub Call-Registered :
        {m : Manager S} {r : Manager S × Answer}
        → Call m r
        → Registered lib m.backends
        → Registered lib r.0.backends
    unfolding add remove restart set_forward_mode add_udp remove_udp
    Call-Registered (adds whitelist l name port tcp udp udp_port m) reg =
        add_checked-Registered lib s whitelist l (lib.trim_space name) port tcp udp udp_port m _ reg
    Call-Registered (removes ref m) reg =
        let key = lib.to_lower (lib.trim_space ref) in
        let found = or_else lib s (lookup key m.backends) (by_id lib s ref m.backends) in
        either lib m.locked (m, blocked) (remove_found lib s key found m) reg
          (remove_found-Registered key found m reg)
    Call-Registered (restarts l name m) reg =
        with_backend-Registered name m (reopen lib s l name m) reg
          (λ r. reopen-Registered l name m r reg)
    Call-Registered (sets_mode name mode m) reg =
        either lib (valid_forward_mode mode)
          (with_backend lib s name m (store_mode lib s name mode m)) (m, failed Error.unknown_mode)
          (with_backend-Registered name m (store_mode lib s name mode m) reg
            (λ r. store_mode-Registered name mode m r reg))
          reg
    Call-Registered (adds_udp listens name addr port m) reg =
        add_udp_checked-Registered listens name addr m _ reg
    Call-Registered (removes_udp name m) reg =
        with_backend-Registered name m (clear_udp lib s name m) reg
          (λ r. clear_udp-Registered name m r reg)
