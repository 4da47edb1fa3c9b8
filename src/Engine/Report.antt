-- ===== src/Engine/Report.antt =====
-- internal/engine/engine.go, report: new alerts get the container's logs, and everything is scrubbed before
-- it is queued.
pub mod Scrubbed
use nodux.Base.{
  ℕ, Bool, true, false, not, ◌&&◌, String, List, [], ◌∷◌, ◌++◌, map, if◌then◌else◌, is_empty,
}
use nodux.Detector.Types.{Issue, Message}
use nodux.Detector.Truncate.{Utf8, truncate}
use nodux.Engine.{Engine}
use nodux.Engine.Upkeep.{has_audible}

-- `Redactor.String` on a message, which keeps its parts here, and on a line of a log.
pub record Redactor : Type 0 where
  pub message : Message → Message
  pub line : String → String

-- What `ContainerLogs` returns besides an error, for a container, a number of lines and `tty`.
abbrev pub Logs : Type 0
Logs = String → ℕ → Bool → List String

abbrev logs_tail : ℕ
logs_tail = 20

abbrev max_log_line : ℕ
max_log_line = 1000

module _ (u : Utf8) (red : Redactor) (container_logs : Logs) where
  unfoldable pub fetch_logs : String → Bool → List Issue → List String
  fetch_logs id tty issues =
      if not (is_empty id) && has_audible issues
      then map red.line (map (λ l. truncate u l max_log_line) (container_logs id logs_tail tty))
      else []

  -- The body of the last loop.
  unfoldable pub as_queued : String → List String → Issue → Issue
  as_queued hostname logs issue = record issue {
    logs = if not issue.resolved && not issue.silenced then logs else issue.logs;
    host = hostname;
    message = red.message issue.message;
  }

  -- With no issues the loop queues nothing, as the early return does.
  unfoldable pub report : String → Bool → List Issue → Engine → Engine
  unfolding fetch_logs
  report id tty issues e = record e {
    queue = e.queue ++ map (as_queued e.opts.hostname (fetch_logs id tty issues)) issues;
  }
