-- ===== src/Engine/Track.antt =====
-- internal/engine/engine.go: opening, escalating and closing episodes, and holding back their
-- alerts during a silence.
use nodux.Base.{
  ℕ, Bool, true, false, not, ◌&&◌, String, List, [], ◌∷◌, ◌++◌, map, Option, none, some, string_eq,
  nat_eq, ◌==◌, if◌then◌else◌, ltb, is_zero, is_empty, is_some, zero_time, any, select,
}
use Prim.Native.String.{◌++◌ as str_append}
use text.Mathlib.Text.{starts_with}
use nodux.Dict.{Dict, lookup, insert, delete}
use nodux.Detector.Types.{Issue, ContainerSnapshot, literal, span, project, severity_rank}
use nodux.Silence.{Subject, silenced}
use nodux.Engine.{Engine, ActiveAlert, ContainerRef}

unfoldable pub resolution : ℕ → ActiveAlert → String → Issue
resolution now a reason = record issue {
  resolved = true;
  logs = [];
  analysis = "";
  detected_at = now;
  message =
      literal reason
      ∷ literal " after "
      ∷ span a.since now
      ∷ literal " (was: "
      ∷ (issue.message ++ literal ")" ∷ []);
  silenced = not a.notified;
}
  where
    issue : Issue
    issue = a.issue

abbrev pub ref_project : Option ContainerRef → String
ref_project none = ""
ref_project (some r) = r.project

-- The compose project of an alert's container, as its labels or the last poll know it.
unfoldable pub project_of : ContainerSnapshot → Dict String ContainerRef → String
project_of c refs =
    if is_empty (project c) && not (is_empty c.name)
    then ref_project (lookup c.name refs)
    else project c

unfoldable pub subject_of : Issue → Bool → Dict String ContainerRef → Subject
unfolding project_of
subject_of issue one_off refs = record {
  detector = issue.detector;
  container = issue.container.name;
  project = project_of issue.container refs;
  resource = issue.resource;
  one_off = one_off;
}

-- `r.Container = *current` where the caller has the container's latest state.
abbrev pub with_current : Option ContainerSnapshot → Issue → Issue
with_current none r = r
with_current (some c) r = record r { container = c }

unfoldable pub close_episode :
    ℕ → String → ActiveAlert → Option ContainerSnapshot → Engine → Option Issue × Engine
close_episode now key a current e = (
  some (with_current current (resolution now a "resolved")),
  record e { active = delete key e.active },
)

-- An observation that is older than the episode.
abbrev pub is_stale : ℕ → Option Issue → Option ActiveAlert → Bool
is_stale observed_at none (some a) = not (is_zero observed_at) && ltb observed_at a.since
is_stale observed_at _ _ = false

abbrev pub emit : Option Issue → List Issue → List Issue
emit none out = out
emit (some i) out = i ∷ out

-- A loop that sends at most one alert a round.
unfoldable pub for_each {ℓ} :
    {A : Type ℓ} → (A → Engine → Option Issue × Engine) → List A → Engine → List Issue × Engine
for_each f [] e = ([], e)
for_each f (x ∷ xs) e =
    let (o, e') = f x e in let (out, e'') = for_each f xs e' in (emit o out, e'')

abbrev pub keys : Dict String ActiveAlert → List String
keys [] = []
keys ((k, a) ∷ m) = k ∷ keys m

-- `prefix + id(issue)`.
abbrev pub set_key : String → (Issue → String) → Issue → String
set_key name id issue = str_append (str_append name "/") (id issue)

-- An open episode of this detector that it does not report any more.
abbrev pub is_over : String → List String → String → Bool
is_over name current key =
    starts_with key (str_append name "/") && not (any (λ k. k == key) current)

-- The container that a probe or an expected container only names.
abbrev pub fill_in : Dict String ContainerRef → ContainerSnapshot → ContainerSnapshot
fill_in refs c =
    if is_empty c.id && not (is_empty c.name)
    then elim (lookup c.name refs) [
      | none ↦ record c { id = ""; tty = false }
      | some r ↦ record c { id = r.id; tty = r.tty }
    ]
    else c

-- The alert that goes out late, without the episode that it belongs to.
unfoldable pub late : ℕ → ActiveAlert → Dict String ContainerRef → Issue
late now a refs = record i {
  container = fill_in refs i.container;
  detected_at = now;
  message =
      i.message
      ++ literal " (open for "
        ∷ span a.since now
        ∷ literal ", held back by a silence until now)"
        ∷ [];
}
  where
    i : Issue
    i = a.issue

-- One round of the loop of `resolveContainer`.
unfoldable pub resolve_one : ℕ → String → String → Engine → Option Issue × Engine
resolve_one now id key e = elim (lookup key e.active) [
  | none ↦ (none, e)
  | some a ↦
      if a.container_id == id
      then (some (resolution now a "container removed"), record e { active = delete key e.active })
      else (none, e)
]

unfoldable pub resolve_container : ℕ → String → Engine → List Issue × Engine
resolve_container now id e = for_each (resolve_one now id) (keys e.active) e

module _ (path_match : String → String → Option Bool) where
  unfoldable pub silenced_locked : ℕ → Issue → Bool → Engine → Bool × Engine
  unfolding subject_of
  silenced_locked now issue one_off e = elim e.silences [
    | none ↦ (false, e)
    | some st ↦
        let (reason, st') = silenced path_match now (subject_of issue one_off e.containers) st in
        (is_some reason, record e { silences = some st' })
  ]

  -- A one-off alert: deploy windows do not apply to it.
  unfoldable pub is_silenced : ℕ → Issue → Engine → Bool × Engine
  is_silenced now issue e = silenced_locked now issue true e

  -- The three cases of `trackLocked` that send something.
  unfoldable pub open_episode : ℕ → String → Issue → Engine → Option Issue × Engine
  open_episode now key issue e =
      let keyed = record issue { key = key } in
      let (quiet, e') = silenced_locked now keyed false e in
      (
        some (record keyed { silenced = quiet }),
        record e' {
          active =
              insert key
                (record {
                  issue = record keyed { silenced = false };
                  since = now;
                  container_id = issue.container.id;
                  notified = not quiet;
                })
                e'.active;
        },
      )

  unfoldable pub escalate : ℕ → String → Issue → ActiveAlert → Engine → Option Issue × Engine
  escalate now key issue a e =
      let keyed = record issue { key = key } in
      let (quiet, e') = silenced_locked now keyed false e in
      (
        some (record keyed { silenced = quiet }),
        record e' {
          active =
              insert key
                (record a {
                  issue = record keyed { silenced = false };
                  notified = if quiet then a.notified else true;
                })
                e'.active;
        },
      )

  -- The `switch` of `trackLocked`.
  unfoldable pub track_case :
      ℕ
      → String
      → Option Issue
      → Option ContainerSnapshot
      → Option ActiveAlert
      → Engine
      → Option Issue × Engine
  track_case now key (some issue) current none e = open_episode now key issue e
  track_case now key (some issue) current (some a) e =
      if ltb (severity_rank a.issue.severity) (severity_rank issue.severity)
      then escalate now key issue a e
      else (none, e)
  track_case now key none current (some a) e = close_episode now key a current e
  track_case now key none current none e = (none, e)

  unfoldable pub track_locked :
      ℕ → String → Option Issue → Option ContainerSnapshot → Engine → Option Issue × Engine
  unfolding track_case
  track_locked now key issue current e = track_case now key issue current (lookup key e.active) e

  unfoldable pub track_at :
      ℕ → String → Option Issue → Option ContainerSnapshot → ℕ → Engine → Option Issue × Engine
  track_at now key issue current observed_at e =
      if is_stale observed_at issue (lookup key e.active)
      then (none, e)
      else track_locked now key issue current e

  unfoldable pub track :
      ℕ → String → Option Issue → Option ContainerSnapshot → Engine → Option Issue × Engine
  track now key issue current e = track_at now key issue current zero_time e

  unfoldable pub track_set :
      ℕ → String → List Issue → (Issue → String) → Engine → List Issue × Engine
  track_set now name issues id e =
      let (sent, e') =
        for_each (λ i. track_locked now (set_key name id i) (some i) none) issues e in
      let (ended, e'') =
        for_each (λ k. track_locked now k none none)
          (select (is_over name (map (set_key name id) issues)) (keys e'.active)) e' in
      (sent ++ ended, e'')

  -- One round of the first loop of `flushDeferred`.
  unfoldable pub flush_one : ℕ → String → Engine → Option Issue × Engine
  flush_one now key e = elim (lookup key e.active) [
    | none ↦ (none, e)
    | some a ↦
        let (quiet, e') = silenced_locked now a.issue false e in
        if a.notified then (none, e) else if quiet then (none, e') else (
          some (late now a e'.containers),
          record e' { active = insert key (record a { notified = true }) e'.active },
        )
  ]

  -- The second loop, which inspects a container that only a name is known of and reports each alert,
  -- is left to the caller: it changes no episode.
  unfoldable pub flush_deferred : ℕ → Engine → List Issue × Engine
  flush_deferred now e =
      if is_some e.silences then for_each (flush_one now) (keys e.active) e else ([], e)
