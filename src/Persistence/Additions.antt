-- ===== src/Persistence/Additions.antt =====
-- Add keeps the registry and the table the same.
use proxygo.Base.{
  ℕ, ◌+◌, ◌≡◌, refl, ◌&&◌, List, Bool-cases, Option-cases, inl, inr, Result, ok, err, panics,
  if_elim,
}
use proxygo.Base.Int.{ℤ}
use proxygo.Base.Assoc.{nat_eq, bytes_eq, assign}
use proxygo.Proxy.Manager.{
  Name, Row, Error, Manager, Answer, blocked, Library, Listening, candidate,
}
use proxygo.Proxy.Manager.Operations.{launch, add_row, add_checked}
use proxygo.Proxy.Manager.Additions.{Fresh, candidate-Fresh}
use proxygo.Storage.{Store, with_name, insert_backend, delete_row, add_backend, delete_backend}
use proxygo.Persistence.{reliable, Agree}
use proxygo.Persistence.Maps.{added, undone}

module _ (lib : Library) where
  abbrev pub Agreed : Manager Store × Answer → Type 0
  Agreed r = Agree lib r.0

  launch-Agree :
      (l : Listening) (row : Row) (m : Manager Store) (st : Store)
      → st.db.backends
        ≡ assign
            (m.store.db.sequence + 1)
            (record row { id = m.store.db.sequence + 1 })
            m.store.db.backends
      → st.db.sequence ≡ m.store.db.sequence + 1
      → Fresh lib row m.backends
      → Agree lib m
      → Agreed (
          launch lib reliable l
            (record row { id = m.store.db.sequence + 1 })
            (record m { store = st }))
  unfolding delete_backend delete_row
  launch-Agree l row m st rows last (missing, free, on) agree =
      let new = record row { id = m.store.db.sequence + 1 } in
      elim (Bool-cases l.tcp) [
        | inl up ↦
            rw (up, rows, last)
              (added lib (record { row = new; udp_fwd = new.udp_enabled && l.udp }) m.backends
                m.store.db.backends m.store.db.sequence refl on missing agree)
        | inr down ↦
            rw (down, rows, last)
              (undone lib new m.backends m.store.db.backends m.store.db.sequence agree)
      ]

  add_row-Agree :
      (l : Listening) (m : Manager Store) (r : Result Error Row)
      → ((row : Row) → r ≡ ok row → Fresh lib row m.backends)
      → Agree lib m
      → Agreed (add_row lib reliable l m r)
  unfolding add_backend insert_backend
  add_row-Agree l m (err e) fresh agree = agree
  add_row-Agree l m panics fresh agree = agree
  add_row-Agree l m (ok row) fresh agree =
      elim (Option-cases (with_name row.name m.store.db.backends)) [
        | inl free ↦ rw free (launch-Agree l row m _ refl refl (fresh row refl) agree)
        | inr (other, taken) ↦ rw taken agree
      ]

  pub add_checked-Agree :
      (whitelist : List (List ℕ)) (l : Listening) (name : Name) (listen_port : ℤ)
      (backend_tcp backend_udp : List ℕ) (udp_port : ℤ) (m : Manager Store) (c : Result Error ℕ)
      → Agree lib m
      → Agreed (
          add_checked lib reliable whitelist l name listen_port backend_tcp backend_udp udp_port m
            c)
  add_checked-Agree whitelist l name listen_port tcp udp udp_port m (err e) agree = agree
  add_checked-Agree whitelist l name listen_port tcp udp udp_port m panics agree = agree
  add_checked-Agree whitelist l name listen_port tcp udp udp_port m (ok port) agree =
      let row = candidate lib whitelist m.backends name listen_port tcp udp udp_port in
      if_elim Agreed m.locked (m, blocked) (add_row lib reliable l m row) (λ held. agree)
        (λ free.
          add_row-Agree l m row
            (candidate-Fresh lib whitelist m.backends name listen_port tcp udp udp_port) agree)
