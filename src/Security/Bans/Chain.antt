-- ===== src/Security/Bans/Chain.antt =====
-- NewBans and ensureChain of internal/security/security.go: the chain of iptables and the jumps to it.
use proxygo.Base.{ℕ, zero, suc, ◌+◌, ◌≡◌, arith, Bool, true, List, if◌then◌else◌}
use proxygo.Security.Bans.{Table, Rule, Bans}

-- Whether the chain is there, and how many rules of INPUT and of OUTPUT jump to it.
pub record Firewall : Type 0 where
  pub has_chain : Bool
  pub input_jumps : ℕ
  pub output_jumps : ℕ

-- `-N` makes the chain, and fails where it is there already; each `-I` inserts one more jump. `works`
-- says whether the commands can be executed.
unfoldable pub ensure_chain : Bool → Firewall → Firewall
ensure_chain works f =
    if works
    then record {
      has_chain = true;
      input_jumps = f.input_jumps + 1;
      output_jumps = f.output_jumps + 1;
    }
    else f

-- `rules` are those that the chain holds already; none is added for the bans of the table.
unfoldable pub new_bans : Bool → Bool → Table → List Rule → Firewall → Bans × Firewall
new_bans enforce works table rules f = (
  record { table = table; chain = rules; enforce = enforce },
  if enforce then ensure_chain works f else f,
)

-- So many starts of the program, one after the other.
abbrev pub starts : ℕ → Table → List Rule → Firewall → Firewall
starts zero table rules f = f
starts (suc n) table rules f = (new_bans true true table rules (starts n table rules f)).1

-- Every start adds a jump to the chain to INPUT and one to OUTPUT, and none is ever taken away.
starts-jumps :
    (n : ℕ) (table : Table) (rules : List Rule) (f : Firewall)
    → ((starts n table rules f).input_jumps ≡ n + f.input_jumps)
      × ((starts n table rules f).output_jumps ≡ n + f.output_jumps)
unfolding new_bans ensure_chain
starts-jumps zero table rules f = (omega arith, omega arith)
starts-jumps (suc n) table rules f =
    let (input, output) = starts-jumps n table rules f in
    (omega (arith, input), omega (arith, output))
