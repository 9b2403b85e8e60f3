-- ===== src/Proxy/Conn/Tests.antt =====
-- Concrete runs, and the theorems at concrete inputs.
use proxygo.Base.{ℕ, ◌+◌, ◌≡◌, refl, false, none, some, List, [], ◌∷◌, ◌++◌, length}
use proxygo.Base.Text.{codes}
use proxygo.Proxy.Conn.{Key, Tracker, Read, Sink, write, pipe}
use proxygo.Proxy.Conn.Pipe.{arriving, pipe_prefix}

abbrev client : Key
client = codes "10.0.0.9"

abbrev twice : Tracker
twice = (client, 2) ∷ []

abbrev read : List ℕ → Read
read bs = record { bytes = bs; failed = false }

-- The second write takes one byte and fails.
abbrev failing : Sink
failing = record { delivered = []; counted = 0; writes = none ∷ some 1 ∷ [] }

abbrev reads : List Read
reads = read (1 ∷ 2 ∷ []) ∷ read [] ∷ read (3 ∷ 4 ∷ []) ∷ read (5 ∷ []) ∷ []

stops_at_failure :
    pipe reads failing ≡ record { delivered = 1 ∷ 2 ∷ 3 ∷ []; counted = 3; writes = [] }
unfolding pipe write
stops_at_failure = refl

pipe_prefix_example :
    (front : List ℕ) × (back : List ℕ) × (front ++ back ≡ arriving reads)
    × ((pipe reads failing).delivered ≡ [] ++ front)
    × ((pipe reads failing).counted ≡ 0 + length front)
pipe_prefix_example = pipe_prefix reads failing
