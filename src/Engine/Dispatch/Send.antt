-- ===== src/Engine/Dispatch/Send.antt =====
-- internal/engine/dispatch.go, deliver, analyze and send: what happens to the batches that the dispatch loop
-- hands over. Which batches are drained together is left open: they come as a list of groups.
use nodux.Base.{
  ℕ, ◌+◌, Bool, true, false, not, ◌&&◌, String, List, [], ◌∷◌, ◌++◌, map, Option, none, some,
  string_eq, nat_eq, ◌==◌, if◌then◌else◌, is_empty, is_zero, or_else, any, select,
}
use nodux.Detector.Types.{Issue, Message}
use nodux.Incident.{Grouper, Batch, set_summary}
use nodux.Action.Route.{Notification}

pub record AlertKey : Type 0 where
  pub detector : String
  pub severity : String
  pub state : String
  pub silenced : Bool

-- internal/history/history.go: a row of the history. `exit_code` is `none` where the code has a nil pointer.
pub record HistoryAlert : Type 0 where
  pub time : ℕ
  pub state : String
  pub host : String
  pub detector : String
  pub severity : String
  pub subject : String
  pub container : Bool
  pub container_id : String
  pub image : String
  pub message : Message
  pub analysis : String
  pub incident_id : ℕ
  pub episode : String
  pub exit_code : Option ℕ

-- What is kept and what went out: the counters (a map that reads 0 where it has no entry), the notifications by
-- the name of their action, and the rows.
pub record Outbox : Type 0 where
  pub counts : AlertKey → ℕ
  pub grouper : Grouper
  pub sent : List (String × Notification (Unit {0}))
  pub recorded : List HistoryAlert

-- `analyze` asks the analyzer, if there is one and nodux is not shutting down; `none` is an error.
pub record Delivery : Type 0 where
  pub analyzes : Bool
  pub ask : Batch → Option String
  pub actions : List String
  pub has_history : Bool
  pub now : ℕ

unfoldable pub audible : List Issue → Bool
audible alerts = any (λ a. not a.resolved && not a.silenced) alerts

unfoldable pub analyze : Delivery → Batch → String
unfolding audible
analyze d b = if d.analyzes && audible b.alerts then or_else (d.ask b) "" else ""

abbrev state_of : Bool → String
state_of resolved = if resolved then "resolved" else "firing"

abbrev same_flag : Bool → Bool → Bool
same_flag true b = b
same_flag false b = not b

-- The counter of an alert.
abbrev pub has_key : AlertKey → Issue → Bool
has_key k i =
    i.detector == k.detector
    && i.severity == k.severity
    && state_of i.resolved == k.state
    && same_flag i.silenced k.silenced

unfoldable pub count_alert : Issue → (AlertKey → ℕ) → AlertKey → ℕ
count_alert i counts k = if has_key k i then counts k + 1 else counts k

unfoldable pub count_alerts : List Issue → (AlertKey → ℕ) → AlertKey → ℕ
unfolding count_alert
count_alerts [] counts = counts
count_alerts (i ∷ is) counts = count_alerts is (count_alert i counts)

unfoldable pub alert_from_issue : ℕ → Issue → HistoryAlert
alert_from_issue now i = record {
  time = if is_zero i.detected_at then now else i.detected_at;
  state = state_of i.resolved;
  host = i.host;
  detector = i.detector;
  severity = i.severity;
  subject = if is_empty i.container.name then i.resource else i.container.name;
  container = not (is_empty i.container.name);
  container_id = i.container.id;
  image = i.container.image;
  message = i.message;
  analysis = i.analysis;
  incident_id = i.incident_id;
  episode = i.key;
  exit_code =
      if not (is_empty i.container.name) && not (is_empty i.container.id)
      then some i.container.exit_code
      else none;
}

-- The summary is written into the firing alerts.
unfoldable pub annotate : String → Issue → Issue
annotate summary i =
    if is_empty summary then i else if i.resolved then i else record i { analysis = summary }

unfoldable pub send : Delivery → Batch → String → Outbox → Outbox
unfolding annotate count_alerts alert_from_issue
send d b summary o =
    let alerts = map (annotate summary) b.alerts in
    let n : Notification (Unit {0}) = record {
      incident_id = b.incident_id;
      update = b.update;
      alerts = alerts;
      summary = summary;
      digest = none;
    } in
    record {
      counts = count_alerts alerts o.counts;
      grouper = if is_empty summary then o.grouper else set_summary b.incident_id summary o.grouper;
      sent = o.sent ++ map (λ a. (a, n)) d.actions;
      recorded =
          if d.has_history
          then o.recorded ++ map (alert_from_issue d.now) (select (λ i. not i.silenced) alerts)
          else o.recorded;
    }

-- A group is analyzed before it is sent.
unfoldable pub send_group : Delivery → List (Batch × String) → Outbox → Outbox
unfolding send
send_group d [] o = o
send_group d ((b, summary) ∷ bs) o = send_group d bs (send d b summary o)

unfoldable pub deliver : Delivery → List (List Batch) → Outbox → Outbox
unfolding send_group analyze
deliver d [] o = o
deliver d (group ∷ groups) o = deliver d groups (send_group d (map (λ b. (b, analyze d b)) group) o)
