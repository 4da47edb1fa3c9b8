-- ===== src/Incident/Tests.antt =====
-- internal/incident/incident.go: a burst of alerts about one compose project, as a test and as the
-- input of the instances.
use nodux.Base.{
  select, any, ◌≡◌, refl, true, List, [], ◌∷◌, arith, count, length, ◌+◌, string_eq, ◌==◌,
}
use nodux.Sort.{sort_by}
use nodux.Dict.{lookup}
use nodux.Detector.Types.{Issue, ContainerSnapshot, no_issue, no_container, label_compose_project}
use nodux.Incident.{
  Config, Grouper, new, add, add_firing, attach, choose, modify, matches, due, flush, next,
}
use nodux.Incident.Counts.{batch_alerts}
use nodux.Incident.Conserve.{added, run-flush_delivers_once}
use nodux.Incident.Valid.{Op, step, adds, dues, run, IsValid, run-IsValid}
use nodux.Incident.Choice.{Chosen, FiledUnder, add-filed}
use nodux.Incident.Wake.{non_empty, passed, due-next}
use nodux.Incident.{expire, subjects_of}
use mathlib.Core.Option.{Option}

abbrev config : Config
config = record { enabled = true; group_wait = 30; window = 600 }

abbrev database : ContainerSnapshot
database = record no_container {
  id = "d1";
  name = "db";
  labels = (label_compose_project, "shop") ∷ [];
}

abbrev api : ContainerSnapshot
api = record no_container { id = "a1"; name = "api"; labels = (label_compose_project, "shop") ∷ [] }

abbrev database_crash : Issue
database_crash = record no_issue { detector = "exit"; container = database }

abbrev api_down : Issue
api_down = record no_issue { detector = "unhealthy"; container = api; key = "unhealthy/a1" }

abbrev burst : List Op
burst = adds 100 database_crash ∷ adds 110 api_down ∷ dues 120 ∷ dues 130 ∷ []

-- The two alerts share a project, so they go out in one batch, after the group wait.
burst_groups : length (run (new config) burst).0 ≡ 1
unfolding run step new add add_firing due expire subjects_of choose matches attach modify select any
    sort_by lookup
burst_groups = refl

run-IsValid_example : IsValid (run (new config) burst).1
run-IsValid_example = run-IsValid config burst (omega arith)

run-flush_delivers_once_example :
    count (λ a. a.detector == "exit") (batch_alerts (run (new config) burst).0)
      + count (λ a. a.detector == "exit") (batch_alerts (flush (run (new config) burst).1).0)
    ≡ count (λ a. a.detector == "exit") (added burst)
run-flush_delivers_once_example =
    run-flush_delivers_once (λ a. a.detector == "exit") config burst (λ n issue. refl) (omega arith)

abbrev after_crash : Grouper
after_crash = add 100 database_crash (new config)

due-next_example : non_empty (due 130 after_crash).0 ≡ passed 130 (next 100 after_crash)
due-next_example = due-next after_crash 100 130 (omega arith) (omega arith)

add-filed_example :
    let g = new config in
    (o : Option _) × Chosen
      (subjects_of api_down).0
      (subjects_of api_down).1
      (expire 110 g).opened
      o
    × FiledUnder 110 api_down (expire 110 g) (add 110 api_down g) o
    × ((add 110 api_down g).ready ≡ g.ready)
unfolding new
add-filed_example = add-filed 110 api_down (new config) refl refl
