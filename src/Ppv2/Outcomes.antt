-- ===== src/Ppv2/Outcomes.antt =====
-- Marshal on every kind of header: an error, a panic, or bytes of a known length.
use proxygo.Base.{
  ℕ, ◌+◌, ◌≡◌, sym, arith, subst, true, false, List, ◌++◌, length, length-append, ok, err, panics,
}
use proxygo.Base.Buffer.{be_bytes}
use proxygo.Ppv2.{Header, invalid, size, marshal, valid, family_inet, family_unspec}
use proxygo.Ppv2.Encode.{with_family, wire, marshal_inet, marshal_unspec, to4_four}
use proxygo.Ppv2.RoundTrip.{valid-inet}

abbrev like : Header → ℕ → Header
like h = with_family h.command h.protocol h.source_addr h.dest_addr h.source_port h.dest_port

-- Marshal refuses a header that is not valid, and panics on every valid header of the unspecified
-- family: there is no room for the two ports that it writes.
pub marshal_without_addresses :
    (h : Header)
    → ((valid h ≡ false → marshal h ≡ err invalid)
        × (valid h ≡ true → h.family ≡ family_unspec → marshal h ≡ panics))
unfolding marshal
marshal_without_addresses h = (λ v. rw v, λ v e. unspec v e)
  where
    unspec : valid h ≡ true → h.family ≡ family_unspec → marshal h ≡ panics
    unspec v e =
        subst (λ (k : ℕ). valid (like h k) ≡ true → marshal (like h k) ≡ panics) (sym e)
          (marshal_unspec h.command h.protocol h.source_addr h.dest_addr h.source_port h.dest_port)
          v

length-wire :
    (h : Header) (n : ℕ) (a b : List ℕ)
    → (length a ≡ 4) × (length b ≡ 4)
    → length (
        wire h.command h.protocol h.source_addr h.dest_addr h.source_port h.dest_port family_inet n
          a b)
      ≡ 28
length-wire h n a b l = omega (
  arith,
  l.0,
  l.1,
  length-append a (b ++ (be_bytes h.source_port ++ be_bytes h.dest_port)),
  length-append b (be_bytes h.source_port ++ be_bytes h.dest_port),
)

abbrev IsShortBy2 : Header → Type 0
IsShortBy2 h = (bs : List ℕ) × (marshal h ≡ ok bs) × (length bs ≡ size h + 2)

inet-IsShortBy2 : (h : Header) → valid (like h family_inet) ≡ true → IsShortBy2 (like h family_inet)
inet-IsShortBy2 h v =
    let (a, b, ea, eb) =
      valid-inet h.command h.protocol h.source_addr h.dest_addr h.source_port h.dest_port v in
    (
      wire h.command h.protocol h.source_addr h.dest_addr h.source_port h.dest_port family_inet 12 a
          b,
      marshal_inet h.command h.protocol h.source_addr h.dest_addr h.source_port h.dest_port a b v ea
          eb,
      unfold size in length-wire h 12 a b (to4_four _ a ea, to4_four _ b eb),
    )

-- Size is two less than the length of what Marshal writes for a valid IPv4 header.
pub length-marshal :
    (h : Header)
    → valid h ≡ true
    → h.family ≡ family_inet
    → (bs : List ℕ) × (marshal h ≡ ok bs) × (length bs ≡ size h + 2)
length-marshal h v e =
    subst (λ (k : ℕ). valid (like h k) ≡ true → IsShortBy2 (like h k)) (sym e) (inet-IsShortBy2 h) v
