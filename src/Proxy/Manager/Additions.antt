-- ===== src/Proxy/Manager/Additions.antt =====
-- Add keeps the registry in order: its checks find a new name and a free port.
use proxygo.Base.{
  ℕ, ◌≡◌, refl, ap, ◌∙◌, arith, Bool, true, false, ◌&&◌, Option, none, some, List, [], ◌∷◌,
  if◌then◌else◌, Bool-cases, inl, inr, Result, ok, err, panics, ◌>>=◌,
}
use proxygo.Base.Int.{ℤ}
use proxygo.Base.Assoc.{bytes_eq, lookup}
use proxygo.Proxy.Manager.{
  Name, Row, Running, Backends, Error, Storage, Manager, blocked, Library, Listening, port_free,
  check_arguments, exists_locked, with_udp, candidate, validate_udp_addr, or_error, require,
  port_of,
}
use proxygo.Proxy.Manager.Operations.{launch, persisted, add_row, add_checked}
use proxygo.Proxy.Manager.Registry.{port_free-Avoids, Registered, Registered-assign}
use proxygo.Proxy.Manager.Registry.{Kept, either}

module _ (lib : Library) where
  bind-ok :
      {A B : Type 0} (r : Result Error A) (f : A → Result Error B) {b : B}
      → (r >>= f) ≡ ok b
      → (a : A) × (r ≡ ok a) × (f a ≡ ok b)
  bind-ok (ok a) f h = (a, refl, h)
  bind-ok (err e) f h = cc
  bind-ok panics f h = cc

  require-ok : (e : Error) (b : Bool) {u : Unit {0}} → require lib e b ≡ ok u → b ≡ true
  require-ok e true h = refl
  require-ok e false h = cc

  missing_name :
      (found : Option Running)
      → (if (elim found [ none ↦ false | some r ↦ true ]) then false else true) ≡ true
      → found ≡ none
  missing_name none h = refl
  missing_name (some r) h = cc

  abbrev SameSite : Row → Row → Type 0
  SameSite row row' =
      (row'.name ≡ row.name) × (row'.listen_port ≡ row.listen_port) × (row'.enabled ≡ row.enabled)

  with_udp-SameSite :
      (row row' : Row) (addr : List ℕ) (port : ℤ)
      → with_udp lib row addr port ≡ ok row'
      → SameSite row row'
  with_udp-SameSite row row' [] port h = ground arith
  with_udp-SameSite row row' (b ∷ bs) port h =
      let (_, checked, more) = bind-ok (validate_udp_addr lib (b ∷ bs)) _ h in
      let (p, ranged, last) = bind-ok (or_error lib Error.invalid_udp_port (port_of port)) _ more in
      ground arith

  abbrev pub Fresh : Row → Backends → Type 0
  Fresh row m =
      (lookup (lib.to_lower row.name) m ≡ none)
      × (port_free row.listen_port m ≡ true)
      × (row.enabled ≡ true)

  pub candidate-Fresh :
      (whitelist : List (List ℕ)) (m : Backends) (name : Name) (listen_port : ℤ)
      (backend_tcp backend_udp : List ℕ) (udp_port : ℤ) (row : Row)
      → candidate lib whitelist m name listen_port backend_tcp backend_udp udp_port ≡ ok row
      → Fresh row m
  candidate-Fresh whitelist m name listen_port backend_tcp backend_udp udp_port row h =
      let (port, _, h) = bind-ok (check_arguments lib whitelist name listen_port backend_tcp) _ h in
      let (_, unused, h) =
        bind-ok
          (require lib Error.already_exists (if exists_locked lib name m then false else true)) _
          h in
      let (_, free, h) = bind-ok (require lib Error.port_in_use (port_free port m)) _ h in
      let site = with_udp-SameSite _ row backend_udp udp_port h in
      (
        ap (λ (n : Name). lookup (lib.to_lower n) m) site.0
            ∙ missing_name (lookup (lib.to_lower name) m)
                (require-ok Error.already_exists _ unused),
        ap (λ (p : ℕ). port_free p m) site.1 ∙ require-ok Error.port_in_use (port_free port m) free,
        site.2,
      )

  module _ {S : Type 0} (s : Storage S) where
    launch-Registered :
        (l : Listening) (row : Row) (m : Manager S)
        → Fresh row m.backends
        → Registered lib m.backends
        → Registered lib (launch lib s l row m).0.backends
    launch-Registered l row m (missing, free, on) reg = elim (Bool-cases l.tcp) [
      | inl up ↦ rw up (
          Registered-assign lib (record { row = row; udp_fwd = row.udp_enabled && l.udp })
            m.backends missing (port_free-Avoids row.listen_port m.backends free) reg)
      | inr down ↦ rw down reg
    ]

    persisted-Registered :
        (l : Listening) (row : Row) (m : Manager S) (r : Option ℕ × S)
        → Fresh row m.backends
        → Registered lib m.backends
        → Registered lib (persisted lib s l row m r).0.backends
    persisted-Registered l row m (none, st) fresh reg = reg
    persisted-Registered l row m (some id, st) fresh reg =
        launch-Registered l (record row { id = id }) (record m { store = st }) fresh reg

    add_row-Registered :
        (l : Listening) (m : Manager S) (r : Result Error Row)
        → ((row : Row) → r ≡ ok row → Fresh row m.backends)
        → Registered lib m.backends
        → Registered lib (add_row lib s l m r).0.backends
    add_row-Registered l m (ok row) fresh reg =
        persisted-Registered l row m (s.add_backend row m.store) (fresh row refl) reg
    add_row-Registered l m (err e) fresh reg = reg
    add_row-Registered l m panics fresh reg = reg

    pub add_checked-Registered :
        (whitelist : List (List ℕ)) (l : Listening) (name : Name) (listen_port : ℤ)
        (backend_tcp backend_udp : List ℕ) (udp_port : ℤ) (m : Manager S) (c : Result Error ℕ)
        → Registered lib m.backends
        → Kept lib
            (add_checked lib s whitelist l name listen_port backend_tcp backend_udp udp_port m c)
    add_checked-Registered whitelist l name listen_port backend_tcp backend_udp udp_port m (err e)
          reg =
        reg
    add_checked-Registered whitelist l name listen_port backend_tcp backend_udp udp_port m panics
          reg =
        reg
    add_checked-Registered whitelist l name listen_port backend_tcp backend_udp udp_port m (ok port)
          reg =
        let row =
          candidate lib whitelist m.backends name listen_port backend_tcp backend_udp udp_port in
        either lib m.locked (m, blocked) (add_row lib s l m row) reg
          (add_row-Registered l m row
            (candidate-Fresh whitelist m.backends name listen_port backend_tcp backend_udp udp_port)
            reg)
