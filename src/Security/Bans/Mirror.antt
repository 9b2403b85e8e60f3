-- ===== src/Security/Bans/Mirror.antt =====
-- Who is banned after Ban and Unban, in the table and in the chain.
use proxygo.Base.{
  ℕ, ◌+◌, ◌-◌, ◌≡◌, refl, ap, ◌∙◌, arith, Bool, true, false, not, ◌&&◌, List, [], ◌∷◌, ◌++◌,
  if◌then◌else◌, bytes_beq, bytes_beq_iff, Bool-cases, inl, inr, is_empty,
}
use proxygo.Base.Assoc.{bytes_eq, lookup-assign, lookup-delete}
use proxygo.Security.Bans.{
  Ip, Ban, Direction, source, destination, Rule, Bans, is_banned, ban_ip, unban_ip, is_rule,
  same_direction, append_rule, delete_rule, mirror_add, mirror_delete, ban, unban,
}

-- How many rules of a direction name the address.
abbrev pub one_if : Bool → ℕ
one_if true = 1
one_if false = 0

abbrev pub rules : Direction → Ip → List Rule → ℕ
rules d ip [] = 0
rules d ip (r ∷ chain) = one_if (is_rule d ip r) + rules d ip chain

-- A ban that succeeds bans its address and no other; an unban lifts it and leaves the others; a
-- call that fails changes nothing.
pub is_banned_after :
    (stored works : Bool) (ip asked : Ip) (b : Ban) (s : Bans)
    → let after = ban stored works ip b s in
      let lifted = unban stored works ip s in
      (is_banned asked after.0.table ≡ (
        if stored && not (is_empty ip) && bytes_beq ip asked
        then true
        else is_banned asked s.table))
      × (is_banned asked lifted.0.table
          ≡ (if stored && bytes_beq ip asked then false else is_banned asked s.table))
unfolding ban unban ban_ip unban_ip is_banned
is_banned_after stored works ip asked b s = (
  ground (arith, lookup-assign ip asked b s.table, bytes_beq_iff ip asked),
  ground (arith, lookup-delete ip asked s.table, bytes_beq_iff ip asked),
)

is_rule_self : (d : Direction) (ip : Ip) → is_rule d ip (record { direction = d; ip = ip }) ≡ true
is_rule_self source ip = ground (arith, bytes_beq_iff ip ip)
is_rule_self destination ip = ground (arith, bytes_beq_iff ip ip)

rules-append :
    (d : Direction) (ip : Ip) (xs ys : List Rule)
    → rules d ip (xs ++ ys) ≡ rules d ip xs + rules d ip ys
rules-append d ip [] ys = omega arith
rules-append d ip (x ∷ xs) ys = omega (arith, rules-append d ip xs ys)

-- Deleting takes away one rule, if there is one.
rules-delete_rule :
    (d : Direction) (ip : Ip) (chain : List Rule)
    → rules d ip (delete_rule d ip chain) ≡ rules d ip chain - 1
unfolding delete_rule
rules-delete_rule d ip [] = omega arith
rules-delete_rule d ip (r ∷ chain) = elim (Bool-cases (is_rule d ip r)) [
  | inl found ↦ rw found (omega arith)
  | inr other ↦ rw other (rw other (omega (arith, rules-delete_rule d ip chain)))
]

abbrev other : Direction → Direction
other source = destination
other destination = source

opposite :
    (d e : Direction) (same : Bool)
    → (same_direction e (other d) && same) ≡ true
    → (same_direction e d && same) ≡ false
opposite source source same h = cc
opposite source destination same h = refl
opposite destination source same h = refl
opposite destination destination same h = cc

-- The other direction keeps its rules.
rules-delete_other :
    (d : Direction) (ip : Ip) (chain : List Rule)
    → rules d ip (delete_rule (other d) ip chain) ≡ rules d ip chain
unfolding delete_rule
rules-delete_other d ip [] = refl
rules-delete_other d ip (r ∷ chain) = elim (Bool-cases (is_rule (other d) ip r)) [
  | inl found ↦ rw found (rw (opposite d r.direction (bytes_beq r.ip ip) found) (omega arith))
  | inr differs ↦ rw differs (omega (arith, rules-delete_other d ip chain))
]

rules-mirror_add :
    (d : Direction) (ip : Ip) (chain : List Rule)
    → rules d ip (mirror_add true ip chain) ≡ rules d ip chain + 1
rules-mirror_add d ip chain = omega (
  arith,
  rules-append d ip (append_rule source ip chain)
      (record { direction = destination; ip = ip } ∷ []),
  rules-append d ip chain (record { direction = source; ip = ip } ∷ []),
  one_of_two d,
)
  where
    one_of_two :
        (d : Direction)
        → rules d ip (record { direction = source; ip = ip } ∷ [])
            + rules d ip (record { direction = destination; ip = ip } ∷ [])
          ≡ 1
    one_of_two source = omega (arith, ap one_if (is_rule_self source ip))
    one_of_two destination = omega (arith, ap one_if (is_rule_self destination ip))

rules-mirror_delete :
    (d : Direction) (ip : Ip) (chain : List Rule)
    → rules d ip (mirror_delete true ip chain) ≡ rules d ip chain - 1
rules-mirror_delete source ip chain =
    rules-delete_other source ip (delete_rule source ip chain) ∙ rules-delete_rule source ip chain
rules-mirror_delete destination ip chain =
    rules-delete_rule destination ip (delete_rule source ip chain)
    ∙ ap (λ n. n - 1) (rules-delete_other destination ip chain)

module _ (ip : Ip) (b : Ban) (s : Bans) (named : is_empty ip ≡ false)
    (enforced : s.enforce ≡ true) where
  abbrev pub banned : Bans → Bans
  banned s = (ban true true ip b s).0

  abbrev pub lifted : Bans → Bans
  lifted s = (unban true true ip s).0

  chain-banned : (t : Bans) → t.enforce ≡ true → (banned t).chain ≡ mirror_add true ip t.chain
  unfolding ban
  chain-banned t on = ground arith

  enforce-banned : (t : Bans) → (banned t).enforce ≡ t.enforce
  unfolding ban
  enforce-banned t = ground arith

  chain-lifted : (t : Bans) → t.enforce ≡ true → (lifted t).chain ≡ mirror_delete true ip t.chain
  unfolding unban
  chain-lifted t on = ground arith

  -- With the chain enforced and commands that succeed, one unban takes back, in each direction, the
  -- rule of one ban of a non-empty address. An address that was banned twice is unbanned in the
  -- table and has, in each direction, one rule more in the chain than before the bans.
  pub rules-unban :
      (d : Direction)
      → (rules d ip (lifted (banned s)).chain ≡ rules d ip s.chain)
        × (rules d ip (lifted (banned (banned s))).chain ≡ rules d ip s.chain + 1)
        × (is_banned ip (lifted (banned (banned s))).table ≡ false)
  rules-unban d =
      let on = enforce-banned s ∙ enforced in
      let on2 = enforce-banned (banned s) ∙ on in
      (
        omega (
          arith,
          ap (rules d ip) (chain-lifted (banned s) on),
          rules-mirror_delete d ip (banned s).chain,
          ap (rules d ip) (chain-banned s enforced),
          rules-mirror_add d ip s.chain,
        ),
        omega (
          arith,
          ap (rules d ip) (chain-lifted (banned (banned s)) on2),
          rules-mirror_delete d ip (banned (banned s)).chain,
          ap (rules d ip) (chain-banned (banned s) on),
          rules-mirror_add d ip (banned s).chain,
          ap (rules d ip) (chain-banned s enforced),
          rules-mirror_add d ip s.chain,
        ),
        (is_banned_after true true ip ip b (banned (banned s))).1
            ∙ ground (arith, bytes_beq_iff ip ip),
      )
