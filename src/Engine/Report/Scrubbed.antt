-- ===== src/Engine/Report/Scrubbed.antt =====
-- internal/engine/engine.go, report: everything that is in the queue was scrubbed.
use nodux.Base.{
  ◌≡◌, refl, ap, sym, ◌∙◌, subst, Bool, true, false, not, ◌&&◌, String, List, [], ◌∷◌, map, All,
  All-append, if◌then◌else◌, is_empty,
}
use nodux.Detector.Types.{Issue, Message}
use nodux.Detector.Truncate.{Utf8}
use nodux.Engine.{Engine, Options}
use nodux.Engine.Report.{Redactor, Logs, as_queued, fetch_logs, report}
use nodux.Engine.Keeps.{Keeps}
use nodux.Engine.Upkeep.{has_audible}

-- The message is what the redactor made of one, the host is filled in, and so is every line of the logs of an
-- alert that will be sent.
pub record IsScrubbed (red : Redactor) (host : String) (i : Issue) : Type 0 where
  pub message : (m : Message) × (i.message ≡ red.message m)
  pub host_set : i.host ≡ host
  pub logs :
      i.resolved ≡ false
      → i.silenced ≡ false
      → (lines : List String) × (i.logs ≡ map red.line lines)

pub record IsClean (red : Redactor) (host : String) (e : Engine) : Type 0 where
  pub queued : All (IsScrubbed red host) e.queue
  pub named : e.opts.hostname ≡ host

pub same-IsClean :
    {red : Redactor} {host : String} {e : Engine} (e' : Engine)
    → Keeps e e'
    → IsClean red host e
    → IsClean red host e'
same-IsClean {red} {host} e' k c = record {
  queued = subst (All (IsScrubbed red host)) (sym k.queue) c.queued;
  named = ap (λ (o : Options). o.hostname) k.opts ∙ c.named;
}

module _ (u : Utf8) (red : Redactor) (container_logs : Logs) (host : String) where
  fetch_logs-lines :
      (id : String) (tty : Bool) (issues : List Issue)
      → (lines : List String) × (fetch_logs u red container_logs id tty issues ≡ map red.line lines)
  unfolding fetch_logs
  fetch_logs-lines id tty issues = by_test (not (is_empty id) && has_audible issues) _
    where
      by_test :
          (b : Bool) (ls : List String)
          → (lines : List String) × ((if b then map red.line ls else []) ≡ map red.line lines)
      by_test true ls = (ls, refl)
      by_test false ls = ([], refl)

  as_queued-IsScrubbed :
      (logs : List String) (i : Issue)
      → (lines : List String) × (logs ≡ map red.line lines)
      → IsScrubbed red host (as_queued u red container_logs host logs i)
  unfolding as_queued
  as_queued-IsScrubbed logs i (lines, h) = record {
    message = (i.message, refl);
    host_set = refl;
    logs = λ r s. (lines, rw (r, s) h);
  }

  all-IsScrubbed :
      (logs : List String) (issues : List Issue)
      → (lines : List String) × (logs ≡ map red.line lines)
      → All (IsScrubbed red host) (map (as_queued u red container_logs host logs) issues)
  all-IsScrubbed logs [] h = tt
  all-IsScrubbed logs (i ∷ is) h = (as_queued-IsScrubbed logs i h, all-IsScrubbed logs is h)

  pub report-IsClean :
      (id : String) (tty : Bool) (issues : List Issue) (e : Engine)
      → IsClean red host e
      → IsClean red host (report u red container_logs id tty issues e)
  unfolding report
  report-IsClean id tty issues e c = record {
    queued = rw c.named (
        All-append (IsScrubbed red host) e.queue _ c.queued (
          all-IsScrubbed (fetch_logs u red container_logs id tty issues) issues
            (fetch_logs-lines id tty issues)));
    named = c.named;
  }
