-- ===== src/Proxy/Conn/Tracker.antt =====
-- The tracker counts: its view is a number for each address.
use proxygo.Base.{
  ℕ, ◌+◌, ◌-◌, ◌≡◌, arith, Bool, if◌then◌else◌, Option-cases, inl, inr, bytes_beq, bytes_beq_iff,
}
use proxygo.Base.Assoc.{bytes_eq, lookup, lookup-assign, lookup-delete}
use proxygo.Proxy.Conn.{Key, Tracker, or_zero, count, inc, dec, dec_found}

abbrev pub one_if : Bool → ℕ
one_if b = if b then 1 else 0

pub count-inc :
    (ip asked : Key) (t : Tracker)
    → count asked (inc ip t) ≡ count asked t + one_if (bytes_beq ip asked)
unfolding count inc
count-inc ip asked t =
    ground (arith, lookup-assign ip asked (or_zero (lookup ip t) + 1) t, bytes_beq_iff ip asked)

pub count-dec :
    (ip asked : Key) (t : Tracker)
    → count asked (dec ip t) ≡ count asked t - one_if (bytes_beq ip asked)
unfolding count dec
count-dec ip asked t = elim (Option-cases (lookup ip t)) [
  | inl missing ↦ rw (missing, dec_found) (ground (arith, bytes_beq_iff ip asked, missing))
  | inr (n, found) ↦
      rw (found, dec_found)
        (ground (
          arith,
          bytes_beq_iff ip asked,
          found,
          lookup-assign ip asked (n - 1) t,
          lookup-delete ip asked t,
        ))
]
