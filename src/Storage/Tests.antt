-- ===== src/Storage/Tests.antt =====
-- Concrete tables, and the theorems at concrete inputs.
use proxygo.Base.{
  ℕ, ◌≡◌, refl, ap, ◌==◌, Bool, true, false, some, List, [], ◌∷◌, arith, if◌then◌else◌,
}
use proxygo.Base.Int.{pos}
use proxygo.Base.Assoc.{nat_eq, pair_eq, delete, delete_if}
use proxygo.Base.Text.{codes}
use proxygo.Proxy.Manager.{Row}
use proxygo.Proxy.Backend.{no_totals}
use proxygo.Proxy.Backend.Stats.{Tick, flushes}
use proxygo.Storage.{Sums, Store, delete_backend, delete_row}
use proxygo.Storage.Rows.{adds, deletes, writes, InOrder, writes-InOrder}
use proxygo.Storage.Stats.{sums_of, sum_stats, record_all, points_of, sum_stats-flushes}
use proxygo.Storage.Audit.{record_audit, insert_audit, audit_log}
use proxygo.Storage.Migrations.{
  Session, open_store, migrate, migrate_names, migrate_file, script, embedded_files, init_sql,
  forward_mode_sql,
}
use proxygo.Base.Sort.{sort_by, insert_by}
use proxygo.Storage.Migrations.Again.{open_store-open_store}
use proxygo.Storage.Migrations.CutShort.{reopened, open_store_cut_short}

abbrev lobby : Row
lobby = record {
  id = 0;
  name = codes "lobby";
  listen_port = 25565;
  backend_tcp = codes "host:1";
  forward_mode = codes "raw";
  udp_enabled = false;
  udp_port = 0;
  backend_udp = [];
  enabled = true;
}

abbrev new_store : Store
new_store = record {
  db = record { backends = []; sequence = 0; stats = []; audit = []; foreign_keys = true };
  issued = 0;
}

abbrev always : ℕ → Bool
always n = true

writes-InOrder_example :
    InOrder (writes always (adds lobby ∷ adds lobby ∷ deletes 1 ∷ adds lobby ∷ []) new_store).db
writes-InOrder_example =
    writes-InOrder always (adds lobby ∷ adds lobby ∷ deletes 1 ∷ adds lobby ∷ []) new_store
      (omega arith)

abbrev some_sums : Sums
some_sums = record { tcp_bytes = 10; udp_bytes = 3; tcp_conns = 1; udp_packets = 2 }

-- Deleting a backend keeps its statistics where foreign keys are not enforced.
abbrev with_stats : Bool → Store
with_stats enforced = record {
  db = record {
    backends = (1, record lobby { id = 1 }) ∷ [];
    sequence = 1;
    stats = ((1, 0), some_sums) ∷ [];
    audit = [];
    foreign_keys = enforced;
  };
  issued = 0;
}

enforced_run : (delete_backend always 1 (with_stats true)).1.db.stats ≡ []
unfolding delete_backend delete_row delete delete_if
enforced_run = refl

not_enforced_run :
    (delete_backend always 1 (with_stats false)).1.db.stats ≡ (((1, 0), some_sums) ∷ [])
unfolding delete_backend delete_row delete
not_enforced_run = refl

-- The latest entry comes first, and an odd limit is taken as 100.
abbrev audited : Store
audited =
    (record_audit always 6 (pos 42) (codes "/ban") (codes "b")
      (record_audit always 5 (pos 42) (codes "/ban") (codes "a") new_store).1).1

audit_run :
    audit_log always (pos 1) audited
    ≡ some (
        record {
          id = 2;
          actor_id = pos 42;
          action = codes "/ban";
          detail = codes "b";
          created_at = 6;
        }
        ∷ [])
unfolding record_audit insert_audit audit_log
audit_run = refl

abbrev ticks : List Tick
ticks =
    record {
      now = 100;
      totals = record { tcp_in = 5; tcp_out = 7; udp_bytes = 0; udp_pkts = 0; conns = 1 };
    }
    ∷ record {
      now = 7300;
      totals = record { tcp_in = 6; tcp_out = 7; udp_bytes = 2; udp_pkts = 1; conns = 1 };
    }
    ∷ []

sum_stats-flushes_example :
    let sums =
      sums_of 3 (sum_stats (record_all (points_of 3 (flushes ticks (no_totals, [])).1) [])) in
    (sums.tcp_bytes ≡ 13) × (sums.tcp_conns ≡ 1) × (sums.udp_bytes ≡ 2) × (sums.udp_packets ≡ 1)
sum_stats-flushes_example = sum_stats-flushes 3 ticks (omega arith)

abbrev new_database : Session
new_database = record {
  schema = record { tables = false; forward_mode = false; foreign_keys = false };
  applied = [];
  issued = 0;
}

abbrev opened : Bool × Session
opened = open_store always embedded_files new_database

opened_run : opened ≡ (
  true,
  record {
    schema = record { tables = true; forward_mode = true; foreign_keys = true };
    applied = forward_mode_sql ∷ init_sql ∷ [];
    issued = 8;
  },
)
unfolding open_store migrate migrate_names migrate_file script sort_by insert_by
opened_run = refl

open_store-open_store_example :
    let second = open_store always embedded_files opened.1 in
    (second.0 ≡ true)
    × (second.1.applied ≡ opened.1.applied)
    × (second.1.schema ≡ record opened.1.schema { foreign_keys = false })
open_store-open_store_example =
    open_store-open_store always always embedded_files new_database (ap (λ r. r.0) opened_run)
      (λ n. refl)

-- The driver fails where the second script is recorded.
abbrev fails_at_7 : ℕ → Bool
fails_at_7 n = if n == 7 then false else true

abbrev crashed : Session
crashed = record {
  schema = record { tables = true; forward_mode = true; foreign_keys = true };
  applied = init_sql ∷ [];
  issued = 8;
}

crashed_run : open_store fails_at_7 embedded_files new_database ≡ (false, crashed)
unfolding open_store migrate migrate_names migrate_file script sort_by insert_by
crashed_run = refl

-- A New whose driver never works, and two that work.
open_store_cut_short_example :
    (open_store always embedded_files (reopened ((λ n. false) ∷ always ∷ []) crashed)).0 ≡ false
open_store_cut_short_example =
    open_store_cut_short ((λ n. false) ∷ always ∷ []) always crashed (refl, refl)
