-- ===== src/Detector/Exit/Tests.antt =====
-- internal/detector/exit.go: a stop, a restart and a crash, as the input of the instance. Numbers in
-- labels are not read here.
use nodux.Base.{◌≡◌, true, not, ◌&&◌, List, [], ◌∷◌, none, is_some, pos}
use nodux.Detector.Types.{ContainerEvent, Action, start, kill, die}
use nodux.Detector.Labels.{Parsers}
use nodux.Detector.Exit.{new, ignored, handle_event}
use nodux.Detector.Exit.History.{is_stop, is_oom, is_die, since_start, after, handle_event-reports}

abbrev pub no_parsers : Parsers
no_parsers = record {
  trim_space = λ s. s;
  split_comma = λ s. s ∷ [];
  parse_bool = λ s. none;
  atoi = λ s. none;
  parse_go_duration = λ s. none;
}

abbrev pub event : Action → ContainerEvent
event a = record {
  id = "c1";
  name = "api";
  action = a;
  health_status = "";
  exit_code = 1;
  signal = 15;
  stop_signal = 15;
  time = 100;
  labels = [];
}

abbrev older : List ContainerEvent
older = event start ∷ event die ∷ event kill ∷ event start ∷ []

handle_event-reports_example :
    is_some
      (handle_event no_parsers (event die) (after no_parsers (new (pos 143 ∷ []) true) older)).0
    ≡ (is_die die
        && not (since_start is_stop "c1" older)
        && not (true && since_start is_oom "c1" older)
        && not (ignored no_parsers (event die) (new (pos 143 ∷ []) true)))
handle_event-reports_example = handle_event-reports no_parsers (pos 143 ∷ []) true older (event die)
