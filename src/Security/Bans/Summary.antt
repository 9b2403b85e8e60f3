-- ===== src/Security/Bans/Summary.antt =====
-- Describe of internal/security/security.go: the bans that are shown, without their wording.
use proxygo.Base.{
  ℕ, zero, suc, ◌≤◌, arith, [], ◌∷◌, ltb, take, drop, length, length-take, All, if◌then◌else◌,
}
use proxygo.Base.Int.{ℤ, pos, negsuc}
use proxygo.Base.Sort.{IsAtLeast, IsDescending, IsDescending-sort}
use proxygo.Security.Bans.{Ip, Ban, Table, list_bans}

-- How many of so many bans are shown.
abbrev pub shown_of : ℤ → ℕ → ℕ
shown_of (pos zero) n = n
shown_of (pos (suc m)) n = if ltb n (suc m) then n else suc m
shown_of (negsuc m) n = n

unfoldable pub described : ℤ → Table → Table
described max bans = take (shown_of max (length bans)) bans

abbrev pub left_out : ℤ → Table → Table
left_out max bans = drop (shown_of max (length bans)) bans

abbrev created : Ip × Ban → ℕ
created row = row.1.created_at

IsAtLeast-drop :
    (n k : ℕ) (rows : Table) → IsAtLeast created k rows → IsAtLeast created k (drop n rows)
IsAtLeast-drop zero k rows h = h
IsAtLeast-drop (suc n) k [] h = tt
IsAtLeast-drop (suc n) k (r ∷ rows) (h, hs) = IsAtLeast-drop n k rows hs

-- Every ban of the rest is at most as new as the given one.
abbrev pub NotNewer : Table → Ip × Ban → Type 0
NotNewer rest row = IsAtLeast created row.1.created_at rest

take-NotNewer :
    (n : ℕ) (rows : Table) → IsDescending created rows → All (NotNewer (drop n rows)) (take n rows)
take-NotNewer zero rows h = tt
take-NotNewer (suc n) [] h = tt
take-NotNewer (suc n) (r ∷ rows) (h, hs) =
    (IsAtLeast-drop n r.1.created_at rows h, take-NotNewer n rows hs)

-- With a limit, at most so many of the bans in the table are shown, and no ban that is left out is
-- newer than one that is shown.
pub described-NotNewer :
    (max : ℕ) (t : Table)
    → let bans = list_bans t in
      (length (described (pos (suc max)) bans) ≤ suc max)
      × All (NotNewer (left_out (pos (suc max)) bans)) (described (pos (suc max)) bans)
unfolding described list_bans
described-NotNewer max t =
    let bans = list_bans t in
    (
      ground (arith, length-take (shown_of (pos (suc max)) (length bans)) bans),
      take-NotNewer (shown_of (pos (suc max)) (length bans)) bans (IsDescending-sort created t),
    )
