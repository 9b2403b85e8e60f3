-- ===== src/Proxy/Manager/Registry.antt =====
-- The registry of running backends: every operation keeps names and TCP ports apart.
use proxygo.Base.{
  ℕ, ◌≡◌, ◌≢◌, refl, sym, ap, ◌∙◌, arith, Bool, true, false, none, [], ◌∷◌, ==_iff, bytes_beq,
  bytes_beq_iff, if◌then◌else◌, Bool-cases, inl, inr,
}
use proxygo.Base.Assoc.{bytes_eq, lookup, assign, delete, lookup-delete, lookup-assign}
use proxygo.Proxy.Manager.{Manager, Answer, Name, Running, Backends, Library, adjust, port_free}

-- No backend listens on the port.
abbrev pub Avoids : ℕ → Backends → Type 0
Avoids port [] = Unit {0}
Avoids port ((k, r) ∷ m) = (r.row.listen_port ≢ port) × Avoids port m

pub port_free-Avoids : (port : ℕ) (m : Backends) → port_free port m ≡ true → Avoids port m
unfolding port_free
port_free-Avoids port [] free = tt
port_free-Avoids port ((k, r) ∷ m) free =
    ground (arith, ==_iff r.row.listen_port port, port_free-Avoids port m)

module _ (lib : Library) where
  -- Every key is the lowercase name of its backend and has one entry, and no two backends listen
  -- on the same port.
  abbrev pub Registered : Backends → Type 0
  Registered [] = Unit {0}
  Registered ((k, r) ∷ m) =
      (k ≡ lib.to_lower r.row.name)
      × (lookup k m ≡ none)
      × Avoids r.row.listen_port m
      × Registered m

  -- A change that leaves the name and the port alone.
  abbrev pub Keeps : (Running → Running) → Type 0
  Keeps f =
      (r : Running) → ((f r).row.name ≡ r.row.name) × ((f r).row.listen_port ≡ r.row.listen_port)

  adjusted : (f : Running → Running) → Keeps f → (b : Bool) → Keeps (λ r. if b then f r else r)
  adjusted f keeps true r = keeps r
  adjusted f keeps false r = (refl, refl)

  Avoids-adjust :
      (key : Name) (f : Running → Running)
      → Keeps f
      → (port : ℕ) (m : Backends) → Avoids port m
      → Avoids port (adjust key f m)
  unfolding adjust
  Avoids-adjust key f keeps port [] avoids = tt
  Avoids-adjust key f keeps port ((k, r) ∷ m) (other, avoids) = (
    λ same. other (sym (adjusted f keeps (bytes_beq k key) r).1 ∙ same),
    Avoids-adjust key f keeps port m avoids,
  )

  missing-adjust :
      (key k : Name) (f : Running → Running) (m : Backends)
      → lookup k m ≡ none
      → lookup k (adjust key f m) ≡ none
  unfolding adjust lookup
  missing-adjust key k f [] missing = refl
  missing-adjust key k f ((j, r) ∷ m) missing =
      ground (arith, bytes_beq_iff j k, missing-adjust key k f m)

  pub Registered-adjust :
      (key : Name) (f : Running → Running)
      → Keeps f
      → (m : Backends) → Registered m
      → Registered (adjust key f m)
  unfolding adjust
  Registered-adjust key f keeps [] reg = tt
  Registered-adjust key f keeps ((k, r) ∷ m) (named, fresh, avoids, reg) =
      let kept = adjusted f keeps (bytes_beq k key) r in
      (
        named ∙ ap lib.to_lower (sym kept.0),
        missing-adjust key k f m fresh,
        rw kept.1 (Avoids-adjust key f keeps r.row.listen_port m avoids),
        Registered-adjust key f keeps m reg,
      )

  Avoids-delete :
      (key : Name) (port : ℕ) (m : Backends) → Avoids port m → Avoids port (delete key m)
  unfolding delete
  Avoids-delete key port [] avoids = tt
  Avoids-delete key port ((k, r) ∷ m) (other, avoids) =
      ground (arith, other, Avoids-delete key port m avoids)

  pub Registered-delete : (key : Name) (m : Backends) → Registered m → Registered (delete key m)
  unfolding delete
  Registered-delete key [] reg = tt
  Registered-delete key ((k, r) ∷ m) (named, fresh, avoids, reg) =
      elim (Bool-cases (bytes_beq k key)) [
        | inl same ↦ rw same (Registered-delete key m reg)
        | inr other ↦ rw other (
          named,
          lookup-delete key k m ∙ ground (arith, fresh),
          Avoids-delete key r.row.listen_port m avoids,
          Registered-delete key m reg,
        )
      ]

  Avoids-assign :
      (key : Name) (new : Running) (port : ℕ) (m : Backends)
      → new.row.listen_port ≢ port
      → Avoids port m
      → Avoids port (assign key new m)
  unfolding assign
  Avoids-assign key new port [] other avoids = (other, tt)
  Avoids-assign key new port ((k, r) ∷ m) other (head, avoids) =
      ground (arith, other, head, avoids, Avoids-assign key new port m other avoids)

  missing-assign :
      (key k : Name) (new : Running) (m : Backends)
      → bytes_beq key k ≡ false
      → lookup k m ≡ none
      → lookup k (assign key new m) ≡ none
  missing-assign key k new m other missing = lookup-assign key k new m ∙ rw other missing

  -- A new name on a port that nobody listens on.
  pub Registered-assign :
      (new : Running) (m : Backends)
      → lookup (lib.to_lower new.row.name) m ≡ none
      → Avoids new.row.listen_port m
      → Registered m
      → Registered (assign (lib.to_lower new.row.name) new m)
  unfolding assign lookup
  Registered-assign new [] missing free reg = (refl, refl, tt, tt)
  Registered-assign new ((k, r) ∷ m) missing (other, free) (named, fresh, avoids, reg) =
      elim (Bool-cases (bytes_beq k (lib.to_lower new.row.name))) [
        | inl same ↦ absurd (cc (rw same at missing))
        | inr differs ↦ rw differs (
          named,
          missing-assign (lib.to_lower new.row.name) k new m
              (ground (
                arith,
                bytes_beq_iff k (lib.to_lower new.row.name),
                bytes_beq_iff (lib.to_lower new.row.name) k,
              ))
              fresh,
          Avoids-assign (lib.to_lower new.row.name) new r.row.listen_port m (λ e. other (sym e))
              avoids,
          Registered-assign new m (rw differs at missing) free reg,
        )
      ]

  -- What an operation leaves is in order.
  module _ {S : Type 0} where
    abbrev pub Kept : Manager S × Answer → Type 0
    Kept r = Registered r.0.backends

    pub either : (b : Bool) (x y : Manager S × Answer) → Kept x → Kept y → Kept (if b then x else y)
    either true x y kx ky = kx
    either false x y kx ky = ky
