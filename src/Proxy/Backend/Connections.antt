-- ===== src/Proxy/Backend/Connections.antt =====
-- The connections of a backend over all sequences of arrivals and ends.
use proxygo.Base.{
  ℕ, suc, ◌+◌, ◌≤◌, ◌≡◌, sym, ap, ◌∙◌, arith, Bool, true, false, Option, none, some, List, [], ◌∷◌,
  ◌++◌, length, length-append, bytes_beq, bytes_beq_iff,
}
use proxygo.Base.Int.{ℤ, pos, negsuc}
use proxygo.Base.Assoc.{nat_eq, bytes_eq, lookup}
use proxygo.Mcproto.{Digest}
use proxygo.Proxy.Conn.{Key, Tracker, count, inc, dec}
use proxygo.Proxy.Conn.Tracker.{one_if, count-inc, count-dec}
use proxygo.Proxy.Forward.{TcpAddr}
use proxygo.Proxy.Backend.{
  Socket, Backend, Config, Arrival, Outcome, rejected, piping, at_limit, close_both,
  force_close_conns, handle_remote, handle_conn,
}
use proxygo.Proxy.Backend.Handled.{Same, Counted, Below, screen-Counted}
use proxygo.Proxy.Backend.Served.{
  Live, World, live_of, from, Uses, newly_in_use, untracked, still_in_use,
}

-- The new connection, where handleConn ends in the pumps.
abbrev pub enroll : Live → Backend × Outcome → World → World
enroll l (b, piping s) w = record w { state = b; serving = l ∷ w.serving }
enroll l (b, rejected) w = record w { state = b }
enroll l (b, Outcome.dial_error) w = record w { state = b }
enroll l (b, Outcome.preamble_error) w = record w { state = b }
enroll l (b, Outcome.crashed) w = record w { state = b }

-- Another backend raises or lowers the count of an address in the shared tracker.
abbrev pub tracked : Tracker → List Live → World → World
tracked t elsewhere w = record w { state = record w.state { tracker = t }; elsewhere = elsewhere }

abbrev pub AtMost : ℤ → ℕ → Type 0
AtMost max n = (m : ℕ) → max ≡ pos (suc m) → n ≤ suc m

module _ (md5 : List ℕ → Digest) (ip_string : List ℕ → List ℕ) (c : Config) where
  abbrev pub ip_of : Option TcpAddr → Key
  ip_of none = []
  ip_of (some raddr) = ip_string raddr.ip

  abbrev pub arrive : Arrival → World → World
  arrive a w = enroll (live_of (ip_of a.remote) a) (handle_conn md5 ip_string c a w.state) w

  -- A socket is accepted, a connection ends, the sockets are closed by force, or another backend of
  -- the process begins or ends to serve a connection.
  pub data Step : World → World → Type 0 where
    arrives : (a : Arrival) (w : World) → Step w (arrive a w)
    finishes :
        (before after : List Live) (l : Live) (w : World)
        → Step
            (record w { serving = before ++ (l ∷ after) })
            (record w {
              state = close_both l.ip l.client l.backend w.state;
              serving = before ++ after;
            })
    forced : (w : World) → Step w (record w { state = force_close_conns w.state })
    others_serve :
        (l : Live) (w : World) → Step w (tracked (inc l.ip w.state.tracker) (l ∷ w.elsewhere) w)
    others_end :
        (before after : List Live) (l : Live) (w : World)
        → Step
            (record w { elsewhere = before ++ (l ∷ after) })
            (tracked (dec l.ip w.state.tracker) (before ++ after) w)

  pub data Run : World → World → Type 0 where
    stay : {w : World} → Run w w
    step : {v w x : World} → Run v w → Step w x → Run v x

  -- Consistent, no address above the limit, and no socket tracked for longer than its connection.
  pub record IsSound (w : World) : Type 0 where
    pub active_counts : w.state.active ≡ length w.serving
    pub tracker_counts :
        (ip : Key) → count ip w.state.tracker ≡ from ip w.serving + from ip w.elsewhere
    pub within_limit : (ip : Key) → AtMost c.max_conns_per_ip (from ip w.serving)
    pub tracked_in_use : (s : Socket) → lookup s w.state.conns ≡ some tt → Uses s w.serving

  limit_after :
      (max : ℤ) (same : Bool) (n old : ℕ)
      → at_limit max n ≡ false
      → AtMost max old
      → (same ≡ true → old ≤ n)
      → AtMost max (one_if same + old)
  limit_after max false n old free h e m max_eq = omega (arith, h m max_eq)
  limit_after (negsuc x) true n old free h e m max_eq = cc
  limit_after (pos x) true n old free h e m max_eq = ground arith

  pub Same-IsSound :
      (b' : Backend) (w : World) → Same w.state b' → IsSound w → IsSound (record w { state = b' })
  Same-IsSound b' w (x, y, z) sound = record {
    active_counts = x ∙ sound.active_counts;
    tracker_counts = λ k. ap (count k) y ∙ sound.tracker_counts k;
    within_limit = sound.within_limit;
    tracked_in_use = λ s h. sound.tracked_in_use s (sym (ap (lookup s) z) ∙ h);
  }

  enroll-IsSound :
      (ip : Key) (a : Arrival) (w : World) (r : Backend × Outcome)
      → Counted ip a w.state r
      → Below md5 ip_string c ip w.state r.1
      → IsSound w
      → IsSound (enroll (live_of ip a) r w)
  enroll-IsSound ip a w (b', piping s) (x, y, z) below sound = record {
    active_counts = x ∙ ap (λ n. n + 1) sound.active_counts ∙ omega arith;
    tracker_counts = λ k.
        ap (count k) y ∙ count-inc ip k w.state.tracker ∙ omega (arith, sound.tracker_counts k);
    within_limit = λ k.
        limit_after c.max_conns_per_ip (bytes_beq ip k) (count ip w.state.tracker)
          (from k w.serving) below (sound.within_limit k)
          (λ same. omega (
            arith,
            sound.tracker_counts k,
            ap (λ (j : Key). count j w.state.tracker) (sym ((bytes_beq_iff ip k).0 same)),
          ));
    tracked_in_use = λ s h.
        newly_in_use (live_of ip a) s w.state.conns w.serving (sound.tracked_in_use s)
          (sym (ap (lookup s) z) ∙ h);
  }
  enroll-IsSound ip a w (b', rejected) same below sound = Same-IsSound b' w same sound
  enroll-IsSound ip a w (b', Outcome.dial_error) same below sound = Same-IsSound b' w same sound
  enroll-IsSound ip a w (b', Outcome.preamble_error) same below sound = Same-IsSound b' w same sound
  enroll-IsSound ip a w (b', Outcome.crashed) same below sound = Same-IsSound b' w same sound

  arrive_remote :
      (a : Arrival) (w : World) (remote : Option TcpAddr)
      → IsSound w
      → IsSound
          (enroll (live_of (ip_of remote) a) (handle_remote md5 ip_string c a w.state remote) w)
  arrive_remote a w none sound = sound
  arrive_remote a w (some raddr) sound =
      let ip = ip_string raddr.ip in
      let known = screen-Counted md5 ip_string c raddr ip a w.state in
      enroll-IsSound ip a w _ known.0 known.1 sound

  from-append : (k : Key) (xs ys : List Live) → from k (xs ++ ys) ≡ from k xs + from k ys
  from-append k [] ys = omega arith
  from-append k (x ∷ xs) ys = omega (arith, from-append k xs ys)

  finish-IsSound :
      (before after : List Live) (l : Live) (w : World)
      → IsSound (record w { serving = before ++ (l ∷ after) })
      → IsSound (record w {
        state = close_both l.ip l.client l.backend w.state;
        serving = before ++ after;
      })
  unfolding close_both
  finish-IsSound before after l w sound = record {
    active_counts =
        omega (
          arith,
          sound.active_counts,
          length-append before (l ∷ after),
          length-append before after,
        );
    tracker_counts = λ k.
        count-dec l.ip k w.state.tracker
        ∙ omega (
          arith,
          sound.tracker_counts k,
          from-append k before (l ∷ after),
          from-append k before after,
        );
    within_limit = λ k m max_eq. omega (
      arith,
      sound.within_limit k m max_eq,
      from-append k before (l ∷ after),
      from-append k before after,
    );
    tracked_in_use = λ s h.
        let (client, backend, was) = untracked l s w.state.conns h in
        still_in_use s before after l client backend (sound.tracked_in_use s was);
  }

  forced-IsSound :
      (w : World) → IsSound w → IsSound (record w { state = force_close_conns w.state })
  unfolding force_close_conns lookup
  forced-IsSound w sound = record {
    active_counts = sound.active_counts;
    tracker_counts = sound.tracker_counts;
    within_limit = sound.within_limit;
    tracked_in_use = λ s h. cc;
  }

  others_serve-IsSound :
      (l : Live) (w : World)
      → IsSound w
      → IsSound (tracked (inc l.ip w.state.tracker) (l ∷ w.elsewhere) w)
  others_serve-IsSound l w sound = record {
    active_counts = sound.active_counts;
    tracker_counts = λ k. count-inc l.ip k w.state.tracker ∙ omega (arith, sound.tracker_counts k);
    within_limit = sound.within_limit;
    tracked_in_use = sound.tracked_in_use;
  }

  others_end-IsSound :
      (before after : List Live) (l : Live) (w : World)
      → IsSound (record w { elsewhere = before ++ (l ∷ after) })
      → IsSound (tracked (dec l.ip w.state.tracker) (before ++ after) w)
  others_end-IsSound before after l w sound = record {
    active_counts = sound.active_counts;
    tracker_counts = λ k.
        count-dec l.ip k w.state.tracker
        ∙ omega (
          arith,
          sound.tracker_counts k,
          from-append k before (l ∷ after),
          from-append k before after,
        );
    within_limit = sound.within_limit;
    tracked_in_use = sound.tracked_in_use;
  }

  pub Step-IsSound : {w x : World} → Step w x → IsSound w → IsSound x
  unfolding handle_conn
  Step-IsSound (arrives a w) sound = arrive_remote a w a.remote sound
  Step-IsSound (finishes before after l w) sound = finish-IsSound before after l w sound
  Step-IsSound (forced w) sound = forced-IsSound w sound
  Step-IsSound (others_serve l w) sound = others_serve-IsSound l w sound
  Step-IsSound (others_end before after l w) sound = others_end-IsSound before after l w sound

  -- Through every sequence of accepted sockets, ended connections and forced closes, with the other
  -- backends of the process beginning and ending connections in between, it stays true that `active`
  -- is the number of connections served, the count of each address in the shared tracker is the
  -- number of its connections here and on the other backends, no address has more connections here
  -- than the limit that is set, and every socket tracked for a forced close belongs to a connection
  -- that is served.
  pub Run-IsSound : {w x : World} → Run w x → IsSound w → IsSound x
  Run-IsSound stay sound = sound
  Run-IsSound (step run last) sound = Step-IsSound last (Run-IsSound run sound)
