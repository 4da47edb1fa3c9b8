-- ===== src/Config.antt =====
-- internal/config/config.go: the parts of config.yaml, as Go's structs hold them. An `int` is an integer, and
-- a `float64` stands for a type that is a parameter.
pub mod Checks
pub mod Default
pub mod Env
pub mod Probes
pub mod Receiver
pub mod Validate
pub mod Tests
use nodux.Base.{Bool, String, List, Option, ℤ, ℕ}
use nodux.Dict.{Dict}

pub record HistoryConfig : Type 0 where
  pub retention_days : ℤ

pub record IncidentsConfig : Type 0 where
  pub enabled : Bool
  pub group_wait_seconds : ℤ
  pub window_minutes : ℤ

pub record DigestConfig : Type 0 where
  pub enabled : Bool
  pub every : String
  pub at : String
  pub weekday : String

pub record TelegramConfig : Type 0 where
  pub enabled : Bool
  pub token : String
  pub allowed_chat_ids : List ℤ

pub record ChatOpsConfig : Type 0 where
  pub telegram : TelegramConfig

pub record DockerConfig : Type 0 where
  pub socket_path : String
  pub down_alert_after_seconds : ℤ

pub record ToggleConfig : Type 0 where
  pub enabled : Bool

pub record CrashLoopConfig : Type 0 where
  pub enabled : Bool
  pub restart_threshold : ℤ
  pub window_minutes : ℤ

pub record ExitConfig : Type 0 where
  pub enabled : Bool
  pub ignore_exit_codes : List ℤ

pub record ExpectedConfig : Type 0 where
  pub enabled : Bool
  pub containers : List String
  pub grace_seconds : ℤ

pub record DiskForecastConfig : Type 0 where
  pub enabled : Bool
  pub window_minutes : ℤ
  pub horizon_hours : ℤ

pub record ProbeTarget : Type 0 where
  pub name : String
  pub url : String
  pub tcp : String
  pub tls : String
  pub container : String
  pub status : List ℤ
  pub skip_verify : Bool

pub record ProbesConfig : Type 0 where
  pub interval_seconds : ℤ
  pub timeout_seconds : ℤ
  pub failures : ℤ
  pub cert_warn_days : ℤ
  pub cert_critical_days : ℤ
  pub targets : List ProbeTarget

pub record RedactConfig : Type 0 where
  pub defaults : Bool
  pub patterns : List String

-- An option that is a pointer is `none` for nil.
pub record ReceiverConfig : Type 0 where
  pub name : String
  pub kind : String
  pub severities : List String
  pub detectors : List String
  pub send_resolved : Option Bool
  pub digest : Option Bool
  pub url : String
  pub timeout_seconds : ℤ
  pub format : String
  pub headers : Dict String String
  pub bot_token : String
  pub chat_id : String
  pub thread_id : ℤ
  pub api_url : String
  pub token : String

pub record SilencesConfig : Type 0 where
  pub deploy_grace_seconds : ℤ

pub record ServerConfig : Type 0 where
  pub socket_path : String
  pub listen : String

pub record WebhookConfig : Type 0 where
  pub enabled : Bool
  pub url : String
  pub format : String
  pub headers : Dict String String
  pub timeout_seconds : ℤ

pub record ActionsConfig : Type 0 where
  pub webhook : WebhookConfig
  pub receivers : List ReceiverConfig

pub record HeartbeatConfig : Type 0 where
  pub enabled : Bool
  pub url : String
  pub interval_seconds : ℤ

pub record LlmConfig : Type 0 where
  pub enabled : Bool
  pub api_key : String
  pub model : String
  pub base_url : String
  pub effort : String
  pub max_steps : ℤ
  pub timeout_seconds : ℤ
  pub max_per_hour : ℤ

module _ (Float : Type 0) where
  pub record ThresholdConfig : Type 0 where
    pub enabled : Bool
    pub threshold_percent : Float
    pub for_seconds : ℤ

  pub record MemoryConfig : Type 0 where
    pub enabled : Bool
    pub threshold_percent : Float
    pub for_seconds : ℤ

  pub record DiskConfig : Type 0 where
    pub enabled : Bool
    pub paths : List String
    pub threshold_percent : Float
    pub forecast : DiskForecastConfig

  pub record PressureConfig : Type 0 where
    pub enabled : Bool
    pub memory_some : Float
    pub memory_full : Float
    pub io_some : Float
    pub io_full : Float
    pub cpu_some : Float
    pub for_seconds : ℤ

  pub record DetectorsConfig : Type 0 where
    pub crash_loop : CrashLoopConfig
    pub oom : ToggleConfig
    pub unhealthy : ToggleConfig
    pub exit : ExitConfig
    pub memory : MemoryConfig
    pub expected : ExpectedConfig
    pub cpu_throttle : ThresholdConfig

  pub record HostConfig : Type 0 where
    pub proc_path : String
    pub disk : DiskConfig
    pub memory : ThresholdConfig
    pub cpu : ThresholdConfig
    pub pressure : PressureConfig
    pub oom : ToggleConfig

  pub record Config : Type 0 where
    pub hostname : String
    pub log_level : String
    pub poll_interval_seconds : ℤ
    pub alert_cooldown_minutes : ℤ
    pub state_dir : String
    pub history : HistoryConfig
    pub docker : DockerConfig
    pub exclude_containers : List String
    pub detectors : DetectorsConfig
    pub host : HostConfig
    pub probes : ProbesConfig
    pub incidents : IncidentsConfig
    pub redact : RedactConfig
    pub actions : ActionsConfig
    pub silences : SilencesConfig
    pub server : ServerConfig
    pub heartbeat : HeartbeatConfig
    pub llm : LlmConfig
    pub digest : DigestConfig
    pub chat_ops : ChatOpsConfig
