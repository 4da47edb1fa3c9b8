-- ===== src/Detector/Types.antt =====
-- internal/detector/detector.go: snapshots, events and issues.
-- A message keeps its parts apart: how `fmt` prints a number or a duration is not modelled.
use nodux.Base.{ℕ, Bool, false, String, List, [], string_eq, ◌==◌, if◌then◌else◌, or_else}
use nodux.Dict.{Dict, lookup}

pub data Part : Type 0 where
  literal : String → Part
  number : ℕ → Part
  duration : ℕ → Part
  -- A number of bytes, and a number that is a parameter of the model, as it is printed.
  size : ℕ → Part
  printed : String → Part
  -- The time from one reading of the clock to another.
  span : ℕ → ℕ → Part
  -- A time of the day.
  clock : ℕ → Part

abbrev pub Message : Type 0
Message = List Part

abbrev pub Labels : Type 0
Labels = Dict String String

pub record ContainerSnapshot : Type 0 where
  pub id : String
  pub name : String
  pub status : String
  pub restart_count : ℕ
  pub exit_code : ℕ
  pub oom_killed : Bool
  pub started_at : ℕ
  pub finished_at : ℕ
  pub tty : Bool
  pub health_status : String
  pub health_failing_streak : ℕ
  pub health_last_output : String
  pub memory_used : ℕ
  pub memory_limit : ℕ
  pub image : String
  pub image_id : String
  pub created : ℕ
  pub restart_policy : String
  pub memory_max : ℕ
  pub labels : Labels
  pub last_run : ℕ
  pub cpu_limit : ℕ
  pub cpu_periods : ℕ
  pub cpu_throttled_periods : ℕ

-- The zero value, which a host-level issue carries.
abbrev pub no_container : ContainerSnapshot
no_container = record {
  id = "";
  name = "";
  status = "";
  restart_count = 0;
  exit_code = 0;
  oom_killed = false;
  started_at = 0;
  finished_at = 0;
  tty = false;
  health_status = "";
  health_failing_streak = 0;
  health_last_output = "";
  memory_used = 0;
  memory_limit = 0;
  image = "";
  image_id = "";
  created = 0;
  restart_policy = "";
  memory_max = 0;
  labels = [];
  last_run = 0;
  cpu_limit = 0;
  cpu_periods = 0;
  cpu_throttled_periods = 0;
}

abbrev pub label_compose_project : String
label_compose_project = "com.docker.compose.project"

-- A missing label reads as the empty text.
abbrev pub label : Labels → String → String
label m k = or_else (lookup k m) ""

unfoldable pub project : ContainerSnapshot → String
project s = label s.labels label_compose_project

-- The actions of `EventActions`; `other` stands for every other text.
pub data Action : Type 0 where
  create start kill oom die destroy health_status other : Action

pub record ContainerEvent : Type 0 where
  pub id : String
  pub name : String
  pub action : Action
  pub health_status : String
  pub exit_code : ℕ
  pub signal : ℕ
  pub stop_signal : ℕ
  pub time : ℕ
  pub labels : Labels

pub record Issue : Type 0 where
  pub detector : String
  pub severity : String
  pub message : Message
  pub container : ContainerSnapshot
  pub resource : String
  pub host : String
  pub detected_at : ℕ
  pub logs : List String
  pub analysis : String
  pub resolved : Bool
  pub silenced : Bool
  pub key : String
  pub incident_id : ℕ

-- The zero value: what a detector's literal leaves out.
abbrev pub no_issue : Issue
no_issue = record {
  detector = "";
  severity = "";
  message = [];
  container = no_container;
  resource = "";
  host = "";
  detected_at = 0;
  logs = [];
  analysis = "";
  resolved = false;
  silenced = false;
  key = "";
  incident_id = 0;
}

abbrev pub severity_warning : String
severity_warning = "warning"

abbrev pub severity_critical : String
severity_critical = "critical"

unfoldable pub severity_rank : String → ℕ
severity_rank s = if s == severity_critical then 2 else if s == severity_warning then 1 else 0
