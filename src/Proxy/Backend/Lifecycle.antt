-- ===== src/Proxy/Backend/Lifecycle.antt =====
-- start, startTCP, startUDP, acceptLoop, shutdown and restart of internal/proxy/proxy.go.
use proxygo.Base.{
  ℕ, suc, ◌+◌, ◌≡◌, ◌≢◌, refl, sym, ◌∙◌, ap, arith, Bool, true, false, some, List, [], ◌∷◌, ◌++◌,
  length, if◌then◌else◌, if_elim, Bool-cases, inl, inr,
}
use proxygo.Base.Assoc.{nat_eq, lookup}
use proxygo.Mcproto.{Digest}
use proxygo.Metrics.{Metrics}
use proxygo.Proxy.Conn.{Key, Tracker, count}
use proxygo.Proxy.Backend.{Socket, Backend, Config, Arrival, force_close_conns, close_both}
use proxygo.Proxy.Backend.Served.{Live, World, from, Uses, from}
use proxygo.Proxy.Backend.Connections.{arrive, arrives, finishes, forced, IsSound, Step-IsSound}
pub mod Lives

-- A backend with its goroutines: whether its listeners are open, and how many flushers run.
pub record Service : Type 0 where
  pub world : World
  pub udp_enabled : Bool
  pub listening : Bool
  pub udp_open : Bool
  pub flushers : ℕ

-- newBackend; the counters and the tracker are those of the process.
abbrev pub new_backend : Metrics → Tracker → Backend
new_backend metrics tracker = record {
  metrics = metrics;
  tracker = tracker;
  active = 0;
  conn_total = 0;
  dial_fail = 0;
  last_ddos = 0;
  conns = [];
  alerts = [];
}

abbrev pub new_service : Bool → List Live → Backend → Service
new_service udp_enabled elsewhere b = record {
  world = record { state = b; serving = []; elsewhere = elsewhere };
  udp_enabled = udp_enabled;
  listening = false;
  udp_open = false;
  flushers = 0;
}

-- Whether the two listeners can be opened.
pub record Opening : Type 0 where
  pub tcp : Bool
  pub udp : Bool

abbrev pub start_udp : Opening → Service → Service
start_udp o s = if s.udp_enabled then record s { udp_open = o.udp } else s

-- The flusher is started first, and goes on where the TCP listener cannot be opened; a UDP listener
-- that cannot be opened is only logged.
unfoldable pub start : Opening → Service → Service × Bool
start o s =
    let s' = record s { flushers = s.flushers + 1 } in
    if o.tcp then (start_udp o (record s' { listening = true }), true) else (s', false)

-- The pumps of the connections that are left end, one after the other.
unfoldable pub end_all : List Live → Backend → Backend
end_all [] b = b
end_all (l ∷ ls) b = end_all ls (close_both l.ip l.client l.backend b)

-- From the end of the drain on: the sockets that are left are closed, and every goroutine is waited
-- for, those of the pumps among them. A handleConn that is still under way at the forced close, and
-- registers its connection after it, is left out: its connection is not closed, and the wait lasts
-- until it ends by itself.
unfoldable pub shutdown : Service → Service
shutdown s = record {
  world = record s.world {
    state = end_all s.world.serving (force_close_conns s.world.state);
    serving = [];
  };
  udp_enabled = s.udp_enabled;
  listening = false;
  udp_open = false;
  flushers = 0;
}

abbrev pub renewed : Service → Service
renewed s = record s {
  world = record s.world { state = record s.world.state { dial_fail = 0 } };
  udp_open = false;
}

unfoldable pub restart : Opening → Service → Service × Bool
restart o s = start o (renewed (shutdown s))

-- ---------- acceptLoop

-- What Accept answers: a connection, an error, or that the listener is closed.
pub data Accepted : Type 0 where
  conn : Arrival → Accepted
  accept_failed listener_closed : Accepted

abbrev pub count_error : World → World
count_error w =
    let m = w.state.metrics in
    record w { state = record w.state { metrics = record m { errors_total = m.errors_total + 1 } } }

-- What a start leaves of a service that does not listen.
abbrev Started : Opening → Service → Service × Bool → Type 0
Started o s r =
    (r.0.world ≡ s.world)
    × (r.0.flushers ≡ s.flushers + 1)
    × (r.0.listening ≡ o.tcp)
    × (r.1 ≡ o.tcp)

start-Started : (o : Opening) (s : Service) → s.listening ≡ false → Started o s (start o s)
unfolding start
start-Started o s silent =
    if_elim (Started o s) o.tcp _ _
      (λ up.
        if_elim (λ (r : Service). Started o s (r, true)) s.udp_enabled _ _
          (λ on. (refl, refl, sym up, sym up)) (λ off. (refl, refl, sym up, sym up)))
      (λ down. (refl, refl, silent ∙ sym down, sym down))

-- Nothing of a connection of the backend is left, and the tracker counts those of the others.
abbrev pub IsIdle : List Live → Backend → Type 0
IsIdle elsewhere b =
    (b.active ≡ 0)
    × ((ip : Key) → count ip b.tracker ≡ from ip elsewhere)
    × ((t : Socket) → lookup t b.conns ≢ some tt)

module _ (md5 : List ℕ → Digest) (ip_string : List ℕ → List ℕ) (c : Config) where
  unfoldable pub accept_loop : List Accepted → World → World
  accept_loop [] w = w
  accept_loop (conn a ∷ rest) w = accept_loop rest (arrive md5 ip_string c a w)
  accept_loop (accept_failed ∷ rest) w = accept_loop rest (count_error w)
  accept_loop (listener_closed ∷ rest) w = w

  -- A new backend is sound where the tracker counts the connections of the others.
  new_backend-IsSound :
      (metrics : Metrics) (tracker : Tracker) (udp_enabled : Bool) (elsewhere : List Live)
      → ((ip : Key) → count ip tracker ≡ from ip elsewhere)
      → IsSound md5 ip_string c
          (new_service udp_enabled elsewhere (new_backend metrics tracker)).world
  unfolding lookup
  new_backend-IsSound metrics tracker udp_enabled elsewhere others = record {
    active_counts = refl;
    tracker_counts = λ ip. omega (arith, others ip);
    within_limit = λ ip m max_eq. omega arith;
    tracked_in_use = λ s h. cc;
  }

  -- Whatever the listener answers, the accept loop keeps the connections of the backend sound, and
  -- the address limit with them.
  pub accept_loop-IsSound :
      (answers : List Accepted) (w : World)
      → IsSound md5 ip_string c w
      → IsSound md5 ip_string c (accept_loop answers w)
  unfolding accept_loop
  accept_loop-IsSound [] w sound = sound
  accept_loop-IsSound (conn a ∷ rest) w sound =
      accept_loop-IsSound rest (arrive md5 ip_string c a w)
        (Step-IsSound md5 ip_string c (arrives a w) sound)
  accept_loop-IsSound (accept_failed ∷ rest) w sound =
      accept_loop-IsSound rest (count_error w) (record {
        active_counts = sound.active_counts;
        tracker_counts = sound.tracker_counts;
        within_limit = sound.within_limit;
        tracked_in_use = sound.tracked_in_use;
      })
  accept_loop-IsSound (listener_closed ∷ rest) w sound = sound

  end_all-IsSound :
      (ls : List Live) (w : World)
      → IsSound md5 ip_string c (record w { serving = ls })
      → IsSound md5 ip_string c (record w { state = end_all ls w.state; serving = [] })
  unfolding end_all
  end_all-IsSound [] w sound = sound
  end_all-IsSound (l ∷ ls) w sound =
      end_all-IsSound ls (record w { state = close_both l.ip l.client l.backend w.state })
        (Step-IsSound md5 ip_string c (finishes [] ls l w) sound)

  pub shutdown-IsIdle :
      (s : Service)
      → IsSound md5 ip_string c s.world
      → IsIdle s.world.elsewhere (shutdown s).world.state
  unfolding shutdown
  shutdown-IsIdle s sound =
      let closed = record s.world { state = force_close_conns s.world.state } in
      let ended =
        end_all-IsSound s.world.serving closed
          (Step-IsSound md5 ip_string c (forced s.world) sound) in
      (ended.active_counts, λ ip. omega (arith, ended.tracker_counts ip), ended.tracked_in_use)

  -- From a sound backend, with any connections left after the drain, a restart leaves none of its own:
  -- `active` is zero, no socket is tracked, and the tracker that it shares with the other backends
  -- counts from each address exactly their connections, which go on. One flusher runs, whether the
  -- listeners can be opened or not, the backend listens exactly where the TCP listener can be opened,
  -- and only there the restart is a success.
  pub restart-IsIdle :
      (o : Opening) (s : Service)
      → IsSound md5 ip_string c s.world
      → let r = restart o s in
        IsIdle s.world.elsewhere r.0.world.state
        × (r.0.world.serving ≡ [])
        × (r.0.world.elsewhere ≡ s.world.elsewhere)
        × (r.0.flushers ≡ 1)
        × (r.0.listening ≡ o.tcp)
        × (r.1 ≡ o.tcp)
  unfolding restart shutdown
  restart-IsIdle o s sound =
      let (world, flushers, listening, success) = start-Started o (renewed (shutdown s)) refl in
      let (idle, counted, closed) = shutdown-IsIdle s sound in
      (
        (
          ap (λ (w : World). w.state.active) world ∙ idle,
          λ ip. ap (λ (w : World). count ip w.state.tracker) world ∙ counted ip,
          λ t h. closed t (sym (ap (λ (w : World). lookup t w.state.conns) world) ∙ h),
        ),
        ap (λ (w : World). w.serving) world,
        ap (λ (w : World). w.elsewhere) world,
        flushers,
        listening,
        success,
      )
