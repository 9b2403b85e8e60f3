-- ===== src/Config/Tests.antt =====
-- The theorems at concrete inputs.
use proxygo.Base.{
  ℕ, ◌*◌, ◌≤◌, ◌≡◌, refl, true, Option, none, some, List, [], ◌∷◌, if◌then◌else◌, ok, bytes_beq,
}
use proxygo.Base.Int.{ℤ, pos}
use proxygo.Base.Assoc.{bytes_eq}
use proxygo.Base.Text.{codes}
use proxygo.Config.{
  Config, default, load, expand, validate, expanded, admin_allowed, tele_rate_limit, second,
}
use proxygo.Config.Loading.{IsValid, IsExpanded, load-IsValid}

abbrev minutes_or_seconds : List ℕ → Option ℤ
minutes_or_seconds s =
    if bytes_beq s (codes "30m")
    then some (pos 1_800_000_000_000)
    else if bytes_beq s (codes "60s")
    then some (pos 60_000_000_000)
    else none

-- A file that sets one entry of the whitelist.
abbrev one_entry : List ℕ → Config → Option Config
one_entry text c =
    some (record c { security = record c.security { backend_whitelist = text ∷ [] } })

abbrev loaded : Config
loaded =
    expanded
      (record default {
        security = record default.security { backend_whitelist = codes "10.0.0.1" ∷ [] };
      })
      (pos 1_800_000_000_000) (pos 60_000_000_000)

load_run : load minutes_or_seconds one_entry (some (codes "10.0.0.1")) ≡ ok loaded
unfolding load expand validate
load_run = refl

load-IsValid_example :
    IsValid loaded
    × IsExpanded loaded
    × ((d : ℕ) × (tele_rate_limit (pos 10) ≡ ok d) × (second ≤ d) × (d ≤ 60 * second))
load-IsValid_example =
    load-IsValid minutes_or_seconds one_entry (some (codes "10.0.0.1")) loaded load_run

admin_run : admin_allowed (pos 5 ∷ pos 7 ∷ []) (pos 7) ≡ true
unfolding admin_allowed
admin_run = refl
