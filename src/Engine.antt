-- ===== src/Engine.antt =====
-- internal/engine/engine.go: the state that the loops share. A method returns the new engine; one
-- call reads the clock once, as `now`.
pub mod Track
pub mod Told
pub mod Rounds
pub mod Alternation
pub mod Sets
pub mod Events
pub mod Replay
pub mod Upkeep
pub mod Report
pub mod Resolved
pub mod Keeps
pub mod Held
pub mod Inspect
pub mod Notice
pub mod Handle
pub mod Look
pub mod Poll
pub mod Loops
pub mod Cooldown
pub mod Dispatch
pub mod Persist
pub mod Tests
use nodux.Base.{ℕ, Bool, String, List, Option}
use nodux.Dict.{Dict}
use nodux.Detector.Types.{Issue, Labels}
use nodux.Silence.{Store}

-- An open level-triggered episode.
pub record ActiveAlert : Type 0 where
  pub issue : Issue
  pub since : ℕ
  pub container_id : String
  pub notified : Bool

pub record ContainerRef : Type 0 where
  pub id : String
  pub project : String
  pub tty : Bool

pub record ImageInfo : Type 0 where
  pub image : String
  pub image_id : String
  pub since : ℕ
  pub prev : String × String
  pub changed_at : ℕ
  pub last_seen : ℕ

pub record Options : Type 0 where
  pub hostname : String
  pub alert_cooldown : ℕ
  pub docker_down_after : ℕ

-- The fields that the model's methods touch. `silences` is `none` where silences are disabled.
pub record Engine : Type 0 where
  pub opts : Options
  pub active : Dict String ActiveAlert
  pub last_alert : Dict String ℕ
  pub images : Dict String ImageInfo
  pub images_pruned : ℕ
  pub labels : Dict String Labels
  pub starts : Dict String ℕ
  pub last_runs : Dict String ℕ
  pub containers : Dict String ContainerRef
  pub silences : Option Store
  pub queue : List Issue
