-- ===== src/Security/Bans.antt =====
-- Bans of internal/security/security.go over the table of bans of internal/storage/storage.go, and
-- the chain of iptables that mirrors it. `works` says whether the iptables commands succeed.
pub mod Mirror
pub mod Summary
pub mod Chain
mod Tests
use proxygo.Base.{
  ℕ, Bool, true, false, Option, none, some, List, [], ◌∷◌, ◌++◌, if◌then◌else◌, bytes_beq, ◌&&◌,
  is_empty,
}
use proxygo.Base.Assoc.{MapKey, bytes_eq, lookup, assign, delete}
use proxygo.Base.Sort.{sort_by, more}

abbrev pub Ip : Type 0
Ip = List ℕ

-- model.Ban
pub record Ban : Type 0 where
  pub reason : List ℕ
  pub created_by : List ℕ
  pub created_at : ℕ

abbrev pub Table : Type 0
Table = List (Ip × Ban)

-- A rule drops what comes from an address (`-s`) or what goes to it (`-d`).
pub data Direction : Type 0 where
  source destination : Direction

pub record Rule : Type 0 where
  pub direction : Direction
  pub ip : Ip

pub record Bans : Type 0 where
  pub table : Table
  pub chain : List Rule
  pub enforce : Bool

pub data Answer : Type 0 where
  done empty_ip storage_failed : Answer

-- ---------- the table

unfoldable pub ban_ip : Ip → Ban → Table → Table
ban_ip ip b t = assign ip b t

unfoldable pub unban_ip : Ip → Table → Table
unban_ip ip t = delete ip t

abbrev pub is_some : Option Ban → Bool
is_some none = false
is_some (some b) = true

-- The address is the key of the table, so its rows are one or none.
unfoldable pub is_banned : Ip → Table → Bool
is_banned ip t = is_some (lookup ip t)

-- ORDER BY created_at DESC
unfoldable pub list_bans : Table → Table
list_bans t = sort_by (more (λ row. row.1.created_at)) t

-- ---------- iptables

abbrev pub same_direction : Direction → Direction → Bool
same_direction source source = true
same_direction source destination = false
same_direction destination source = false
same_direction destination destination = true

abbrev pub is_rule : Direction → Ip → Rule → Bool
is_rule d ip r = same_direction r.direction d && bytes_beq r.ip ip

-- `iptables -A` appends, and `iptables -D` deletes the first rule that matches.
abbrev pub append_rule : Direction → Ip → List Rule → List Rule
append_rule d ip chain = chain ++ (record { direction = d; ip = ip } ∷ [])

unfoldable pub delete_rule : Direction → Ip → List Rule → List Rule
delete_rule d ip [] = []
delete_rule d ip (r ∷ chain) = if is_rule d ip r then chain else r ∷ delete_rule d ip chain

-- The two commands of `iptables`, where the chain is enforced.
abbrev pub mirror_add : Bool → Ip → List Rule → List Rule
mirror_add works ip chain =
    if works then append_rule destination ip (append_rule source ip chain) else chain

abbrev pub mirror_delete : Bool → Ip → List Rule → List Rule
mirror_delete works ip chain =
    if works then delete_rule destination ip (delete_rule source ip chain) else chain

-- ---------- Ban and Unban: `stored` says whether the storage succeeds

unfoldable pub ban : Bool → Bool → Ip → Ban → Bans → Bans × Answer
ban stored works ip b s =
    if is_empty ip
    then (s, empty_ip)
    else if stored
    then (
      record s {
        table = ban_ip ip b s.table;
        chain = if s.enforce then mirror_add works ip s.chain else s.chain;
      },
      done,
    )
    else (s, storage_failed)

unfoldable pub unban : Bool → Bool → Ip → Bans → Bans × Answer
unban stored works ip s =
    if stored
    then (
      record s {
        table = unban_ip ip s.table;
        chain = if s.enforce then mirror_delete works ip s.chain else s.chain;
      },
      done,
    )
    else (s, storage_failed)
