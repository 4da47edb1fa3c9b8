-- ===== src/Action/Route/Tests.antt =====
-- internal/action/route.go: a receiver of critical alerts, as the input of the instances.
use nodux.Base.{refl, true, false, String, [], ◌∷◌, none, string_eq}
use nodux.Detector.Types.{no_issue, severity_critical}
use nodux.Engine.{ActiveAlert}
use nodux.Engine.Tests.{same_text, disk_full}
use nodux.Action.Route.{Route, Notification, send}
use nodux.Action.Route.Routing.{Served, send-Served}

abbrev pager : Route
pager = record {
  severities = severity_critical ∷ [];
  detectors = [];
  send_resolved = true;
  digest = false;
}

abbrev episode : ActiveAlert
episode = record { issue = disk_full; since = 100; container_id = ""; notified = true }

abbrev batch : Notification String
batch = record {
  incident_id = 1;
  update = false;
  alerts = disk_full ∷ record no_issue { silenced = true } ∷ [];
  summary = "the disk is full";
  digest = none;
}

send-Served_example : Served same_text pager batch (send same_text pager batch)
send-Served_example = send-Served same_text pager batch refl
