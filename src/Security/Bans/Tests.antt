-- ===== src/Security/Bans/Tests.antt =====
-- Concrete runs, and the theorems at concrete inputs.
use proxygo.Base.{◌+◌, ◌≡◌, refl, true, false, List, [], ◌∷◌}
use proxygo.Base.Text.{codes}
use proxygo.Security.Bans.{
  Ip, Ban, Bans, Rule, source, destination, is_banned, ban, unban, delete_rule,
}
use proxygo.Security.Bans.Mirror.{rules, banned, lifted, rules-unban}

abbrev griefer : Ip
griefer = codes "203.0.113.7"

abbrev reason : Ban
reason = record { reason = codes "griefing"; created_by = codes "42"; created_at = 1000 }

abbrev nobody : Bans
nobody = record { table = []; chain = []; enforce = true }

-- The rules that are left after two bans and one unban.
abbrev one_pair : List Rule
one_pair =
    record { direction = source; ip = griefer }
    ∷ record { direction = destination; ip = griefer }
    ∷ []

still_dropped :
    (unban true true griefer
      (ban true true griefer reason (ban true true griefer reason nobody).0).0).0.chain
    ≡ one_pair
unfolding ban unban delete_rule
still_dropped = refl

rules-unban_example :
    let once = banned griefer reason nobody refl refl nobody in
    let twice = banned griefer reason nobody refl refl once in
    (rules destination griefer (lifted griefer reason nobody refl refl once).chain
      ≡ rules destination griefer nobody.chain)
    × (rules destination griefer (lifted griefer reason nobody refl refl twice).chain
        ≡ rules destination griefer nobody.chain + 1)
    × (is_banned griefer (lifted griefer reason nobody refl refl twice).table ≡ false)
rules-unban_example = rules-unban griefer reason nobody refl refl destination
