-- ===== src/Engine/Upkeep.antt =====
-- internal/engine/engine.go: the cooldown of one-off alerts, and what the engine remembers of the
-- containers between polls.
use nodux.Base.{
  ℕ, ◌+◌, ◌-◌, ◌*◌, ◌%◌, Bool, true, false, not, ◌&&◌, ◌||◌, String, List, none, some, string_eq,
  nat_eq, ◌==◌, if◌then◌else◌, ltb, leb, is_empty, is_some, is_zero, any,
}
use Prim.Native.String.{◌++◌ as str_append}
use nodux.Dict.{Dict, lookup, insert, delete, retain}
use nodux.Detector.Types.{
  ContainerEvent, ContainerSnapshot, Issue, Action, create, start, kill, oom, die, destroy,
}
use nodux.Detector.Exit.{is_stop_request}
use nodux.Engine.{Engine, ImageInfo}

abbrev pub cooldown_key : Issue → String
cooldown_key i = str_append (str_append i.detector "/") i.container.name

-- The first loop of `coolingDown`: `now.Sub(t) >= e.opts.AlertCooldown` deletes.
abbrev pub recent : ℕ → Engine → Dict String ℕ
recent now e = retain (λ k t. ltb now (t + e.opts.alert_cooldown)) e.last_alert

unfoldable pub cooling_down : ℕ → Issue → Engine → Bool × Engine
cooling_down now issue e =
    if is_some (lookup (cooldown_key issue) (recent now e))
    then (true, record e { last_alert = recent now e })
    else if is_zero e.opts.alert_cooldown
    then (false, record e { last_alert = recent now e })
    else (false, record e { last_alert = insert (cooldown_key issue) now (recent now e) })

abbrev stops_or_creates : Action → ContainerEvent → Bool
stops_or_creates create ev = true
stops_or_creates destroy ev = true
stops_or_creates kill ev = is_stop_request ev
stops_or_creates _ ev = false

unfoldable pub is_deploy_event : ContainerEvent → Bool
is_deploy_event ev = stops_or_creates ev.action ev

abbrev end_run : ContainerEvent → Engine → Engine
end_run ev e = elim (lookup ev.id e.starts) [
  | none ↦ record e { last_runs = delete ev.id e.last_runs }
  | some s ↦
      if ltb s ev.time
      then record e { last_runs = insert ev.id (ev.time - s) e.last_runs }
      else record e { last_runs = delete ev.id e.last_runs }
]

abbrev note_action : Action → ContainerEvent → Engine → Engine
note_action start ev e = record e { starts = insert ev.id ev.time e.starts }
note_action oom ev e = end_run ev e
note_action die ev e = end_run ev e
note_action _ ev e = e

unfoldable pub note_run : ContainerEvent → Engine → Engine
note_run ev e = note_action ev.action ev e

abbrev pub hour : ℕ
hour = 3600000000000

-- What the daemon's list of containers tells. `created` counts from Go's zero time like every time,
-- and is 0 where the daemon gives none.
pub record ContainerSummary : Type 0 where
  pub image : String
  pub image_id : String
  pub created : ℕ

abbrev changed_at : ℕ → ContainerSummary → ImageInfo → ℕ
changed_at now c cur =
    if not (is_zero c.created) && ltb cur.since c.created && ltb c.created now
    then c.created
    else now

unfoldable pub note_image : String → ContainerSummary → ℕ → Engine → Engine
note_image name c now e =
    if is_empty c.image_id then e else record e { images = insert name info e.images }
  where
    day : ℕ
    day = now - now % (24 * hour)

    info : ImageInfo
    info = elim (lookup name e.images) [
      | none ↦ record {
        image = c.image;
        image_id = c.image_id;
        since = now;
        prev = ("", "");
        changed_at = 0;
        last_seen = day;
      }
      | some cur ↦
          if not (cur.image_id == c.image_id)
          then record {
            image = c.image;
            image_id = c.image_id;
            since = changed_at now c cur;
            prev = (cur.image, cur.image_id);
            changed_at = changed_at now c cur;
            last_seen = day;
          }
          else record cur { last_seen = day }
    ]

unfoldable pub prune_images : ℕ → Engine → Engine
prune_images now e = if ltb now (e.images_pruned + 24 * hour) then e else record e {
  images_pruned = now;
  images = retain (λ name img. leb now (img.last_seen + 7 * 24 * hour)) e.images;
}

unfoldable pub forget_container : String → Engine → Engine
forget_container id e = record e {
  labels = delete id e.labels;
  starts = delete id e.starts;
  last_runs = delete id e.last_runs;
}

unfoldable pub has_audible : List Issue → Bool
has_audible issues = any (λ i. not i.resolved && not i.silenced) issues

unfoldable pub merge_snapshot : ContainerSnapshot → ContainerSnapshot → ContainerSnapshot
merge_snapshot from_event inspected = record inspected {
  exit_code = if is_zero from_event.exit_code then inspected.exit_code else from_event.exit_code;
  oom_killed = inspected.oom_killed || from_event.oom_killed;
}
