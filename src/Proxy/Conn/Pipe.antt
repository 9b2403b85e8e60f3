-- ===== src/Proxy/Conn/Pipe.antt =====
-- The pump passes on what it reads, in order, until one side fails.
use proxygo.Base.{
  ℕ, ◌+◌, ◌≡◌, refl, sym, ap, ◌∙◌, arith, Bool, true, false, Option, none, some, List, [], ◌∷◌,
  ◌++◌, append_assoc, append-nil, if◌then◌else◌, length, length-append, take, drop,
  take-append-drop,
}
use proxygo.Proxy.Conn.{Read, Sink, write_nonempty, write_next, write, pipe}

-- The bytes that the reads bring, up to and with the first read that fails.
pub arriving : List Read → List ℕ
arriving [] = []
arriving (r ∷ rs) = let rest = arriving rs in if r.failed then r.bytes else r.bytes ++ rest

-- What a write makes of a sink: it takes a front of the bytes, all of them unless it fails, and
-- counts what it took.
abbrev Took : List ℕ → Sink → Sink × Bool → Type 0
Took p k (k', failed) =
    (front : List ℕ) × (back : List ℕ) × (front ++ back ≡ p)
    × (k'.delivered ≡ k.delivered ++ front)
    × (k'.counted ≡ k.counted + length front)
    × (failed ≡ false → back ≡ [])

write_next-Took : (p : List ℕ) (k : Sink) (ws : List (Option ℕ)) → Took p k (write_next p k ws)
write_next-Took p k [] = (p, [], append-nil p, refl, refl, λ e. refl)
write_next-Took p k (none ∷ ws) = (p, [], append-nil p, refl, refl, λ e. refl)
write_next-Took p k (some n ∷ ws) = (take n p, drop n p, take-append-drop n p, refl, refl, λ e. cc)

write_nonempty-Took : (p : List ℕ) (k : Sink) → Took p k (write_nonempty p k)
unfolding write
write_nonempty-Took [] k = ([], [], refl, sym (append-nil k.delivered), omega arith, λ e. refl)
write_nonempty-Took (b ∷ bs) k = write_next-Took (b ∷ bs) k k.writes

-- A run of the pump that starts with the sink `k` and ends with `k'` when `expected` is arriving.
abbrev pub Got : List ℕ → Sink → Sink → Type 0
Got expected k k' =
    (front : List ℕ) × (back : List ℕ) × (front ++ back ≡ expected)
    × (k'.delivered ≡ k.delivered ++ front)
    × (k'.counted ≡ k.counted + length front)

pipe_step :
    (p rest : List ℕ) (k sent more : Sink) (write_failed read_failed : Bool)
    → Took p k (sent, write_failed)
    → Got rest sent more
    → Got
        (if read_failed then p else p ++ rest)
        k
        (if write_failed then sent else if read_failed then sent else more)
pipe_step p rest k sent more true true (f, b, split, d, c, whole) got = (f, b, split, d, c)
pipe_step p rest k sent more true false (f, b, split, d, c, whole) got =
    (f, b ++ rest, sym (append_assoc f b rest) ∙ ap (λ x. x ++ rest) split, d, c)
pipe_step p rest k sent more false true (f, b, split, d, c, whole) got = (f, b, split, d, c)
pipe_step p rest k sent more false false (f, b, split, d, c, whole) (f2, b2, split2, d2, c2) = (
  f ++ f2,
  b2,
  append_assoc f f2 b2
      ∙ rw (split2) (ap (λ x. x ++ rest) (sym (append-nil f) ∙ rw (sym (whole refl)) split)),
  d2 ∙ rw d (append_assoc k.delivered f f2),
  rw (length-append f f2) (omega arith),
)

-- The sink gets a front of what arrives, and counts exactly the bytes that it got.
pub pipe_prefix :
    (rs : List Read) (k : Sink)
    → (front : List ℕ) × (back : List ℕ) × (front ++ back ≡ arriving rs)
      × ((pipe rs k).delivered ≡ k.delivered ++ front)
      × ((pipe rs k).counted ≡ k.counted + length front)
unfolding pipe arriving
pipe_prefix [] k = ([], [], refl, sym (append-nil k.delivered), omega arith)
pipe_prefix (r ∷ rs) k =
    let sent = write_nonempty r.bytes k in
    pipe_step r.bytes (arriving rs) k sent.0 (pipe rs sent.0) sent.1 r.failed
      (write_nonempty-Took r.bytes k) (pipe_prefix rs sent.0)
