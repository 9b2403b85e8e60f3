-- ===== src/Command/Serving/Stuck.antt =====
-- serve of cmd/proxygo/main.go, where the mutex of the manager stays locked.
use proxygo.Base.{ℕ, ◌≡◌, ◌≢◌, refl, sym, ◌∙◌, ap, subst, Bool, true, false, none, List}
use proxygo.Base.Assoc.{bytes_eq, lookup}
use proxygo.Proxy.Backend.Lifecycle.{Service}
use proxygo.Proxy.Manager.{Manager, Storage, Library, Answer}
use proxygo.Proxy.Manager.Operations.{remove, by_id}
use proxygo.Proxy.Manager.Removal.{key_of, locked_frozen, remove_missing}
use proxygo.Proxy.Manager.Shutdown.{shutdown_all}
use proxygo.Command.Serving.{
  Serving, Group, over, Step, logs, drain_ends, bot_fails, bot_ends, calls, traffic, signalled,
  shuts_down, Run, stay, step, HasEnded, after_shutdown,
}

module _ {S G : Type 0} (lib : Library) (s : Storage S) (g : Group G) where
  -- The mutex of the manager is locked, and the signal's goroutine has not ended.
  abbrev IsStuck : Serving S G → Type 0
  IsStuck v = (v.manager.locked ≡ true) × (v.phase ≢ over)

  shut_down_stuck :
      (in_time : Service → Bool) (v : Serving S G) (locked : Bool)
      → locked ≡ true
      → after_shutdown lib s g v (shutdown_all in_time locked v.fleet) ≡ v
  unfolding shutdown_all
  shut_down_stuck in_time v true locked = refl
  shut_down_stuck in_time v false locked = cc

  Step-IsStuck : {v w : Serving S G} → Step lib s g v w → IsStuck v → IsStuck w
  Step-IsStuck (logs text v runs) stuck = stuck
  Step-IsStuck (drain_ends v runs gone) stuck = stuck
  Step-IsStuck (bot_fails v runs) stuck = stuck
  Step-IsStuck (bot_ends v runs gone) stuck = stuck
  Step-IsStuck (calls v r runs call) (locked, running) =
      (ap (λ (m : Manager S). m.locked) (locked_frozen lib s call locked) ∙ locked, running)
  Step-IsStuck (traffic v fleet) stuck = stuck
  Step-IsStuck (signalled v idle) (locked, running) = (locked, λ e. cc)
  Step-IsStuck (shuts_down in_time v ready) stuck =
      subst IsStuck (sym (shut_down_stuck in_time v v.manager.locked stuck.0)) stuck

  Run-IsStuck : {v w : Serving S G} → Run lib s g v w → IsStuck v → IsStuck w
  Run-IsStuck stay stuck = stuck
  Run-IsStuck (step run last) stuck = Step-IsStuck last (Run-IsStuck run stuck)

  -- A Remove by the bot with a text that is neither the name nor the id of a backend, while the mutex
  -- is free and the goroutine of the signal has not ended: whatever happens afterwards, a signal or
  -- several among it, serve does not end.
  pub remove-unended :
      (ref : List ℕ) (v w : Serving S G)
      → v.manager.locked ≡ false
      → v.phase ≢ over
      → lookup (key_of lib s ref) v.manager.backends ≡ none
      → by_id lib s ref v.manager.backends ≡ none
      → Run lib s g (record v { manager = (remove lib s ref v.manager).0 }) w
      → ¬ HasEnded lib s g w
  remove-unended ref v w free running no_name no_id run ended =
      let locked =
        ap (λ (r : Manager S × Answer). r.0.locked)
          (remove_missing lib s ref v.manager free no_name no_id) in
      (Run-IsStuck run (locked, running)).1 ended.0
