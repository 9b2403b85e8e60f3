-- ===== src/Logging.antt =====
-- Logger of internal/logging/logger.go: the level, the access log files and Close. What is written to a
-- log is left out; the queue of events is the one of Telegram.Alerts with the same size.
pub mod Files
pub mod Opening
mod Tests
use proxygo.Base.{
  ℕ, ◌+◌, Bool, true, false, ◌||◌, Option, none, some, List, [], ◌∷◌, if◌then◌else◌, bytes_beq,
}
use proxygo.Base.Assoc.{MapKey, bytes_eq, lookup, assign}
use proxygo.Base.Text.{codes}

-- slog.Level
pub data Level : Type 0 where
  debug info warn error : Level

-- The error of parseLevel is always nil.
unfoldable pub parse_level : (List ℕ → List ℕ) → List ℕ → Level
parse_level to_lower s =
    let t = to_lower s in
    if bytes_beq t (codes "debug") || bytes_beq t []
    then debug
    else if bytes_beq t (codes "info")
    then info
    else if bytes_beq t (codes "warn") || bytes_beq t (codes "warning")
    then warn
    else if bytes_beq t (codes "error")
    then error
    else info

-- An open file is known by a number; `next_file` is that of the next OpenFile that succeeds, and
-- `closed_files` has the latest first.
pub record Logger : Type 0 where
  pub access_dir : List ℕ
  pub access : List (List ℕ × ℕ)
  pub next_file : ℕ
  pub closed : Bool
  pub closed_files : List ℕ

abbrev pub open_file : List ℕ → Bool → Logger → Option ℕ × Logger
open_file name true l = (
  some l.next_file,
  record l { access = assign name l.next_file l.access; next_file = l.next_file + 1 },
)
open_file name false l = (none, l)

abbrev pub cached_or_open : List ℕ → Bool → Logger → List ℕ → Option ℕ → Option ℕ × Logger
cached_or_open name opens l dir (some f) = (some f, l)
cached_or_open name opens l [] none = (none, l)
cached_or_open name opens l (c ∷ dir) none = open_file name opens l

-- accessFile: `opens` says whether OpenFile succeeds, and `none` is io.Discard.
unfoldable pub access_file : List ℕ → Bool → Logger → Option ℕ × Logger
access_file name opens l = cached_or_open name opens l l.access_dir (lookup name l.access)

abbrev pub files_of : List (List ℕ × ℕ) → List ℕ
files_of [] = []
files_of ((name, f) ∷ m) = f ∷ files_of m

abbrev pub close_all : List ℕ → List ℕ → List ℕ
close_all [] done = done
close_all (f ∷ fs) done = close_all fs (f ∷ done)

unfoldable pub close : Logger → Logger
close l =
    if l.closed
    then l
    else record l { closed = true; closed_files = close_all (files_of l.access) l.closed_files }
