-- ===== src/Logging/Tests.antt =====
-- The theorems at concrete inputs.
use proxygo.Base.{ℕ, ◌≡◌, ◌≢◌, refl, Bool, true, false, some, List, [], ◌∷◌}
use proxygo.Base.Assoc.{bytes_eq, lookup, assign}
use proxygo.Base.Text.{codes}
use proxygo.Logging.{Logger, access_file, parse_level, warn, close}
use proxygo.Logging.Files.{accesses, access_file-stable}

abbrev logger : Logger
logger = record {
  access_dir = codes "/var/log";
  access = [];
  next_file = 7;
  closed = false;
  closed_files = [];
}

level_run : parse_level (λ s. s) (codes "warning") ≡ warn
unfolding parse_level
level_run = refl

closed_twice : (close (close (access_file (codes "a") true logger).1)).closed_files ≡ (7 ∷ [])
unfolding close access_file lookup assign
closed_twice = refl

access_file-stable_example :
    let later =
      accesses
        ((codes "b:tcp", true) ∷ (codes "c:tcp", false) ∷ [])
        (access_file (codes "a:tcp") true logger).1 in
    ((again : Bool) → (access_file (codes "a:tcp") again later).0 ≡ some 7)
    × ((other : List ℕ) (again : Bool)
        → other ≢ codes "a:tcp"
        → (access_file other again later).0 ≢ some 7)
unfolding access_file lookup
access_file-stable_example =
    access_file-stable (codes "a:tcp") true ((codes "b:tcp", true) ∷ (codes "c:tcp", false) ∷ [])
      logger 7 ((λ name f h. cc), (λ a b f ha hb. cc)) refl
