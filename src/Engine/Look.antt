-- ===== src/Engine/Look.antt =====
-- internal/engine/engine.go, pollOnce: what a poll asks and keeps, and the statistics of a container.
use nodux.Base.{
  ℕ, Bool, true, false, not, ◌&&◌, ◌||◌, String, List, [], ◌∷◌, Option, none, some, string_eq, ◌==◌,
  if◌then◌else◌, is_some, is_zero, positive,
}
use nodux.Dict.{Dict, lookup}
use nodux.Detector.Types.{ContainerSnapshot, Issue, Labels}
use nodux.Detector.Signal.{trim_prefix}
use nodux.Engine.{Engine, ContainerRef}
use nodux.Engine.Upkeep.{ContainerSummary}
use nodux.Engine.Inspect.{ContainerInspect, Stats, cpu_limit, memory_used}
use nodux.Engine.Notice.{Watch, State}

-- `check` also works on the state of all detectors. `forget`: it implements `Forgetter`.
pub record Detector (D : Type 0) : Type 0 where
  pub name : String
  pub check : ContainerSnapshot → D → Option Issue × D
  pub forget : Option (String → D → D)

-- One entry of the daemon's list.
pub record Listed : Type 0 where
  pub id : String
  pub names : List String
  pub state : String
  pub labels : Labels
  pub summary : ContainerSummary

pub record MemorySample : Type 0 where
  pub time : ℕ
  pub container : String
  pub used : ℕ
  pub limit : ℕ

-- What a poll needs beside `Watch`. `sample_interval` is 0 where there is no history. The answers of the
-- daemon: `none` for an error of the list, a container or its statistics.
pub record Rounds (D : Type 0) : Type 0 where
  pub watch : Watch D
  pub detectors : List (Detector D)
  pub expected : Option (Dict String String → List String → D → List Issue × D)
  pub collect_stats : Bool
  pub collect_throttling : Bool
  pub sample_interval : ℕ
  pub ping : Bool
  pub list_containers : Option (List Listed)
  pub inspect_polled : String → Option ContainerInspect
  pub container_stats : String → Option Stats

-- What only the poll loop touches. `recorded`: the samples that were handed to the history.
pub record Polled (D : Type 0) : Type 0 where
  pub state : State D
  pub last_seen : List String
  pub next_sample : ℕ
  pub recorded : List MemorySample

-- The variables of the loop over the list.
pub record Found : Type 0 where
  pub statuses : Dict String String
  pub refs : Dict String ContainerRef
  pub labeled_expected : List String
  pub samples : List MemorySample

abbrev pub is_empty_list {ℓ} : {A : Type ℓ} → List A → Bool
is_empty_list [] = true
is_empty_list (x ∷ xs) = false

-- The `tty` of a container that this poll did not inspect.
unfoldable pub keep_tty :
    Dict String ContainerRef → Dict String ContainerRef → Dict String ContainerRef
keep_tty known [] = []
keep_tty known ((name, ref) ∷ refs) = (name, kept) ∷ keep_tty known refs
  where
    kept : ContainerRef
    kept = elim (lookup name known) [
      | none ↦ ref
      | some old ↦ if old.id == ref.id && not ref.tty then record ref { tty = old.tty } else ref
    ]

abbrev pub set_engine : {D : Type 0} → (Engine → Engine) → State D → State D
set_engine f s = record s { engine = f s.engine }

abbrev pub no_ref : ContainerRef
no_ref = record { id = ""; project = ""; tty = false }

module _ {D : Type 0} (w : Rounds D) where
  unfoldable pub container_name : Listed → String
  container_name c = first c.names
    where
      first : List String → String
      first [] = c.id
      first (n ∷ ns) = trim_prefix w.watch.affixes "/" n

  -- What is asked for, and how it fills the snapshot in. The second part is `none` where nothing was fetched.
  unfoldable pub collect_stats :
      ContainerInspect → ContainerSnapshot → Bool → ContainerSnapshot × Option Stats
  collect_stats inspect snap sample =
      let need_mem = w.collect_stats && is_some (positive inspect.memory) in
      let need_cpu = w.collect_throttling && not (is_zero (cpu_limit inspect)) in
      if not inspect.running || not (need_mem || need_cpu || sample)
      then (snap, none)
      else elim (w.container_stats inspect.id) [
        | none ↦ (snap, none)
        | some stats ↦ (
          record snap {
            memory_used = if need_mem then memory_used stats else snap.memory_used;
            memory_limit = if need_mem then stats.limit else snap.memory_limit;
            cpu_limit = if need_cpu then cpu_limit inspect else snap.cpu_limit;
            cpu_periods = if need_cpu then stats.periods else snap.cpu_periods;
            cpu_throttled_periods =
                if need_cpu then stats.throttled_periods else snap.cpu_throttled_periods;
          },
          some stats,
        )
      ]
