-- ===== src/Logging/Opening.antt =====
-- New of internal/logging/logger.go. Whether the directories can be made and the file can be opened are
-- answers from outside; the directory of the access logs is made last.
use proxygo.Base.{
  ℕ, Bool, true, false, ◌||◌, Option, none, some, List, [], if◌then◌else◌, bytes_beq, is_empty, not,
}
use proxygo.Base.Assoc.{bytes_eq, lookup}
use proxygo.Base.Text.{codes}
use proxygo.Config.{Logging}
use proxygo.Logging.{Level, parse_level, Logger}
use proxygo.Logging.Files.{IsTidy}

-- slog.NewTextHandler or slog.NewJSONHandler
pub data Format : Type 0 where
  text json : Format

-- The base logger writes to the standard error, and to the file where one is set.
pub record Base : Type 0 where
  pub level : Level
  pub format : Format
  pub to_file : Bool

pub record Answers : Type 0 where
  pub file_opens : Bool
  pub dir_made : Bool

unfoldable pub format_of : (List ℕ → List ℕ) → List ℕ → Format
format_of to_lower s =
    let t = to_lower s in
    if bytes_beq t (codes "console") || bytes_beq t (codes "text") then text else json

abbrev pub or_fail : Bool → Bool → Option (Base × Logger) → Option (Base × Logger)
or_fail wanted works next = if wanted then (if works then next else none) else next

abbrev pub new_access : List ℕ → Logger
new_access dir = record {
  access_dir = dir;
  access = [];
  next_file = 0;
  closed = false;
  closed_files = [];
}

unfoldable pub new_logger : (List ℕ → List ℕ) → Logging → Answers → Option (Base × Logger)
new_logger to_lower cfg a = or_fail (not (is_empty cfg.file)) a.file_opens (
    or_fail (not (is_empty cfg.access_log_dir)) a.dir_made (
      some (
        record {
          level = parse_level to_lower cfg.level;
          format = format_of to_lower cfg.format;
          to_file = not (is_empty cfg.file);
        },
        new_access cfg.access_log_dir,
      )))

new_access-IsTidy : (dir : List ℕ) → IsTidy (new_access dir)
unfolding lookup
new_access-IsTidy dir = (λ name f h. cc, λ a b f ha hb. cc)

-- A logger that is made is tidy, so that what is shown of its files holds from there on.
abbrev pub TidyOrNone : Option (Base × Logger) → Type 0
TidyOrNone none = Unit {0}
TidyOrNone (some (b, l)) = IsTidy l

or_fail-TidyOrNone :
    (wanted works : Bool) (next : Option (Base × Logger))
    → TidyOrNone next
    → TidyOrNone (or_fail wanted works next)
or_fail-TidyOrNone true true next h = h
or_fail-TidyOrNone true false next h = tt
or_fail-TidyOrNone false works next h = h

-- Whatever can be made and opened, New returns no logger, or one whose access logs are tidy.
new_logger-TidyOrNone :
    (to_lower : List ℕ → List ℕ) (cfg : Logging) (a : Answers)
    → TidyOrNone (new_logger to_lower cfg a)
unfolding new_logger
new_logger-TidyOrNone to_lower cfg a = or_fail-TidyOrNone (not (is_empty cfg.file)) a.file_opens _ (
    or_fail-TidyOrNone (not (is_empty cfg.access_log_dir)) a.dir_made _
      (new_access-IsTidy cfg.access_log_dir))
