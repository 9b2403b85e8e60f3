-- ===== src/Proxy/Manager/Shutdown.antt =====
-- Shutdown of internal/proxy/manager.go over the services of the backends, which share one tracker.
use proxygo.Base.{
  ℕ, ◌+◌, ◌≡◌, ◌≢◌, refl, sym, ◌∙◌, ap, arith, Bool, true, false, ◌&&◌, some, List, [], ◌∷◌,
  if◌then◌else◌, if_elim, All, length,
}
use proxygo.Base.Assoc.{nat_eq, lookup, delete}
use proxygo.Base.Sort.{total}
use proxygo.Proxy.Conn.{Key, Tracker, count}
use proxygo.Proxy.Conn.Tracker.{count-dec}
use proxygo.Proxy.Backend.{Socket, Backend, close_both, force_close_conns, untrack_conn}
use proxygo.Proxy.Backend.Served.{Live, from}
use proxygo.Proxy.Backend.Lifecycle.{Service, shutdown, end_all}

-- What Shutdown returns: nothing, `ctx.Err()`, or that it never does, where the mutex is locked.
pub data Answer : Type 0 where
  done timed_out blocked : Answer

-- The backends of the manager. The tracker of the process stands here; what a service holds of it is
-- replaced before the service works.
pub record Fleet : Type 0 where
  pub tracker : Tracker
  pub services : List Service

abbrev pub with_tracker : Tracker → Service → Service
with_tracker t s = record s {
  world = record s.world { state = record s.world.state { tracker = t } };
}

-- A backend that is not down at the deadline: its listeners are closed, and its sockets by force. Its
-- connections have not ended yet.
abbrev pub cut_off : Service → Service
cut_off s = record s {
  world = record s.world { state = force_close_conns s.world.state };
  listening = false;
  udp_open = false;
}

abbrev pub stop_one : Bool → Service → Service
stop_one in_time s = if in_time then shutdown s else cut_off s

-- The shutdowns run at the same time; each only lowers counts of the tracker, in any order.
unfoldable pub stop_all : (Service → Bool) → Fleet → List Service → Fleet
stop_all in_time f [] = record f { services = [] }
stop_all in_time f (s ∷ rest) =
    let stopped = stop_one (in_time s) (with_tracker f.tracker s) in
    let others = stop_all in_time (record f { tracker = stopped.world.state.tracker }) rest in
    record others { services = stopped ∷ others.services }

abbrev pub all_in_time : (Service → Bool) → List Service → Bool
all_in_time in_time [] = true
all_in_time in_time (s ∷ rest) = in_time s && all_in_time in_time rest

-- `in_time` says of a backend whether its shutdown is over before the deadline.
unfoldable pub shutdown_all : (Service → Bool) → Bool → Fleet → Fleet × Answer
shutdown_all in_time locked f =
    if locked
    then (f, blocked)
    else (stop_all in_time f f.services, if all_in_time in_time f.services then done else timed_out)

-- ---------- the connections of the backends

-- How many connections from an address a backend serves.
abbrev pub serving_from : Key → Service → ℕ
serving_from ip s = from ip s.world.serving

-- `active` is the number of the connections.
abbrev pub IsCounted : Service → Type 0
IsCounted s = s.world.state.active ≡ length s.world.serving

-- The tracker counts the connections of all backends together.
abbrev pub CountsAll : Fleet → Type 0
CountsAll f = (ip : Key) → count ip f.tracker ≡ total (serving_from ip) f.services

-- No listener is open, and no socket is left for a forced close.
abbrev pub IsClosed : Service → Type 0
IsClosed s =
    (s.listening ≡ false)
    × (s.udp_open ≡ false)
    × ((t : Socket) → lookup t s.world.state.conns ≢ some tt)

abbrev pub IsDown : Service → Type 0
IsDown s = (s.world.state.active ≡ 0) × (s.world.serving ≡ []) × (s.flushers ≡ 0)

-- Each connection that ends is taken out of the tracker once.
end_all-count :
    (ip : Key) (n : ℕ) (ls : List Live) (b : Backend)
    → count ip b.tracker ≡ from ip ls + n
    → count ip (end_all ls b).tracker ≡ n
unfolding end_all close_both
end_all-count ip n [] b h = omega (arith, h)
end_all-count ip n (l ∷ ls) b h =
    end_all-count ip n ls (close_both l.ip l.client l.backend b)
      (omega (arith, count-dec l.ip ip b.tracker, h))

end_all-active : (ls : List Live) (b : Backend) → b.active ≡ length ls → (end_all ls b).active ≡ 0
unfolding end_all close_both
end_all-active [] b h = h
end_all-active (l ∷ ls) b h =
    end_all-active ls (close_both l.ip l.client l.backend b) (omega (arith, h))

end_all-conns : (ls : List Live) (b : Backend) → b.conns ≡ [] → (end_all ls b).conns ≡ []
unfolding end_all close_both delete
end_all-conns [] b h = h
end_all-conns (l ∷ ls) b h =
    end_all-conns ls (close_both l.ip l.client l.backend b)
      (ap (λ (c : List (Socket × Unit {0})). untrack_conn l.backend (untrack_conn l.client c)) h)

-- What one backend leaves in the tracker: what it serves still, and what the others serve.
stop_one-count :
    (ip : Key) (n : ℕ) (in_time : Bool) (s : Service)
    → count ip s.world.state.tracker ≡ serving_from ip s + n
    → count ip (stop_one in_time s).world.state.tracker ≡ serving_from ip (stop_one in_time s) + n
unfolding shutdown force_close_conns
stop_one-count ip n true s h =
    end_all-count ip n s.world.serving (force_close_conns s.world.state) h ∙ omega arith
stop_one-count ip n false s h = h

none_tracked : (t : Socket) (c : List (Socket × Unit {0})) → c ≡ [] → lookup t c ≢ some tt
unfolding lookup
none_tracked t [] empty h = cc
none_tracked t (x ∷ c) empty h = cc

stop_one-IsClosed : (in_time : Bool) (s : Service) → IsClosed (stop_one in_time s)
unfolding force_close_conns lookup shutdown
stop_one-IsClosed true s =
    let empty = end_all-conns s.world.serving (force_close_conns s.world.state) refl in
    (
      refl,
      refl,
      λ t. none_tracked t (end_all s.world.serving (force_close_conns s.world.state)).conns empty,
    )
stop_one-IsClosed false s = (refl, refl, λ t h. cc)

stop_one-IsDown : (s : Service) → IsCounted s → IsDown (stop_one true s)
unfolding shutdown force_close_conns
stop_one-IsDown s counted =
    (end_all-active s.world.serving (force_close_conns s.world.state) counted, refl, refl)

stop_all-count :
    (ip : Key) (n : ℕ) (in_time : Service → Bool) (f : Fleet) (services : List Service)
    → count ip f.tracker ≡ total (serving_from ip) services + n
    → let g = stop_all in_time f services in
      count ip g.tracker ≡ total (serving_from ip) g.services + n
unfolding stop_all
stop_all-count ip n in_time f [] h = h
stop_all-count ip n in_time f (s ∷ rest) h =
    let placed = with_tracker f.tracker s in
    let stopped = stop_one (in_time s) placed in
    let first =
      stop_one-count ip (total (serving_from ip) rest + n) (in_time s) placed (omega (arith, h)) in
    omega (
      arith,
      stop_all-count ip (serving_from ip stopped + n) in_time
          (record f { tracker = stopped.world.state.tracker }) rest (omega (arith, first)),
    )

stop_all-IsClosed :
    (in_time : Service → Bool) (f : Fleet) (services : List Service)
    → All IsClosed (stop_all in_time f services).services
unfolding stop_all
stop_all-IsClosed in_time f [] = tt
stop_all-IsClosed in_time f (s ∷ rest) =
    let stopped = stop_one (in_time s) (with_tracker f.tracker s) in
    (
      stop_one-IsClosed (in_time s) (with_tracker f.tracker s),
      stop_all-IsClosed in_time (record f { tracker = stopped.world.state.tracker }) rest,
    )

and_both : (a b : Bool) → a && b ≡ true → (a ≡ true) × (b ≡ true)
and_both true true both = (refl, refl)
and_both true false both = (refl, both)
and_both false b both = cc

stop_all-IsDown :
    (in_time : Service → Bool) (f : Fleet) (services : List Service)
    → All IsCounted services
    → all_in_time in_time services ≡ true
    → All IsDown (stop_all in_time f services).services
unfolding stop_all
stop_all-IsDown in_time f [] counted over = tt
stop_all-IsDown in_time f (s ∷ rest) (counted, all_counted) over =
    let (this, others) = and_both (in_time s) (all_in_time in_time rest) over in
    let placed = with_tracker f.tracker s in
    let stopped = stop_one (in_time s) placed in
    (
      if_elim IsDown (in_time s) (shutdown placed) (cut_off placed)
          (λ h. stop_one-IsDown placed counted) (λ late. absurd (cc (sym this ∙ late))),
      stop_all-IsDown in_time (record f { tracker = stopped.world.state.tracker }) rest all_counted
          others,
    )

done_in_time : (b : Bool) → (if b then Answer.done else timed_out) ≡ Answer.done → b ≡ true
done_in_time true h = refl
done_in_time false h = cc

-- With the mutex free, from backends whose counts are right and a tracker that counts the connections
-- of all of them together: after Shutdown no backend has an open listener or a socket left for a
-- forced close, and the tracker counts from each address exactly the connections that backends which
-- were not down in time still serve. Where Shutdown returns no error, every backend is idle, with no
-- connection and no flusher.
pub shutdown_all-IsClosed :
    (in_time : Service → Bool) (f : Fleet)
    → All IsCounted f.services
    → CountsAll f
    → let r = shutdown_all in_time false f in
      All IsClosed r.0.services × CountsAll r.0 × (r.1 ≡ done → All IsDown r.0.services)
unfolding shutdown_all
shutdown_all-IsClosed in_time f counted all = (
  stop_all-IsClosed in_time f f.services,
  λ ip. omega (arith, stop_all-count ip 0 in_time f f.services (omega (arith, all ip))),
  λ h.
      stop_all-IsDown in_time f f.services counted
        (done_in_time (all_in_time in_time f.services) h),
)
