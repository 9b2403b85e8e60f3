-- ===== src/Command/Serving/Ending.antt =====
-- serve of cmd/proxygo/main.go, and how a signal ends it.
use proxygo.Base.{◌≡◌, refl, Bool, true, false, Option, none, some, List, Result, ok, err, panics}
use proxygo.Config.{Config}
use proxygo.Proxy.Manager.{Manager, Storage, Library, Row, Listening}
use proxygo.Proxy.Manager.Operations.{start, started}
use proxygo.Proxy.Manager.Shutdown.{Fleet}
use proxygo.Command.Serving.{Error, Serving, Group, waiting, boot, booted}

abbrev pub or_first : Option Error → Error → Option Error
or_first none e = some e
or_first (some d) e = some d

-- What errgroup documents: a group that is cancelled stays so, cancelling the outer context cancels
-- it, and Wait returns the first error that was reported.
pub record Lawful {G : Type 0} (g : Group G) : Type 0 where
  pub cancel_cancels : (x : G) → g.is_cancelled (g.cancel x) ≡ true
  pub stays_cancelled :
      (e : Option Error) (x : G) → g.is_cancelled x ≡ true → g.is_cancelled (g.report e x) ≡ true
  pub first_cancel : (x : G) → g.first (g.cancel x) ≡ g.first x
  pub first_none : (x : G) → g.first (g.report none x) ≡ g.first x
  pub first_some : (e : Error) (x : G) → g.first (g.report (some e) x) ≡ or_first (g.first x) e

module _ {S G : Type 0} (lib : Library) (s : Storage S) (g : Group G) where
  -- What the end of a goroutine without an error leaves.
  abbrev Kept : Serving S G → Serving S G → Type 0
  Kept v w =
      (w.phase ≡ v.phase)
      × (w.fleet ≡ v.fleet)
      × (w.notified ≡ v.notified)
      × (g.first w.group ≡ g.first v.group)
      × (g.is_cancelled w.group ≡ true)

  abbrev IsReady : Result Error (Serving S G) → Type 0
  IsReady (ok v) = (v.phase ≡ waiting) × (v.manager.locked ≡ false)
  IsReady (err e) = Unit {0}
  IsReady panics = Unit {0}

  booted-IsReady :
      (cfg : Config) (fleet : Fleet) (fresh : G) (m : Manager S) (rows : Option (List Row))
      (listening : Row → Listening)
      → m.locked ≡ false
      → IsReady (booted lib s g cfg fleet fresh (started lib s listening m rows))
  booted-IsReady cfg fleet fresh m none listening free = tt
  booted-IsReady cfg fleet fresh m (some rows) listening free = (refl, free)

  -- Where the program starts, it begins to wait before any signal, with the mutex of the manager free.
  boot-IsReady :
      (loaded : Option Config) (log_opens store_opens : Bool) (listening : Row → Listening)
      (fleet : Fleet) (fresh : G) (store : S)
      → IsReady (boot lib s g loaded log_opens store_opens listening fleet fresh store)
  unfolding boot start
  boot-IsReady none log_opens store_opens listening fleet fresh store = tt
  boot-IsReady (some cfg) true true listening fleet fresh store =
      booted-IsReady cfg fleet fresh _ (s.get_backends store) listening refl
  boot-IsReady (some cfg) true false listening fleet fresh store = tt
  boot-IsReady (some cfg) false store_opens listening fleet fresh store = tt
