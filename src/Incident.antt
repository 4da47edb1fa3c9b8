-- ===== src/Incident.antt =====
-- internal/incident/incident.go: the grouper, which files alerts under incidents.
-- A method that changes the grouper returns it; the clock's reading is the argument `now`.
pub mod Counts
pub mod Filed
pub mod Conserve
pub mod Entry
pub mod Ids
pub mod Valid
pub mod Choice
pub mod Wake
pub mod Tests
use nodux.Base.{
  ℕ, suc, ◌+◌, ◌-◌, Bool, true, false, not, ◌&&◌, ◌||◌, String, List, [], ◌∷◌, ◌++◌, map, Option,
  none, some, nat_eq, string_eq, ◌==◌, if◌then◌else◌, ltb, leb, is_zero, is_empty, zero_time,
  or_else, select, any, drop, length, max,
}
use nodux.Sort.{sort_by}
use nodux.Dict.{Dict, lookup, insert, delete, overlay}
use nodux.Detector.Types.{Issue, label, label_compose_project}
use Prim.Native.String.{◌++◌ as str_append}

abbrev pub max_earlier : ℕ
max_earlier = 20

pub record Config : Type 0 where
  pub enabled : Bool
  pub group_wait : ℕ
  pub window : ℕ

pub record Batch : Type 0 where
  pub incident_id : ℕ
  pub update : Bool
  pub alerts : List Issue
  pub earlier : List Issue
  pub prev_summary : String

pub record Incident : Type 0 where
  pub id : ℕ
  pub subjects : List String
  pub has_host : Bool
  pub last : ℕ
  pub notified : Bool
  pub pending : List Issue
  pub due : ℕ
  pub earlier : List Issue
  pub summary : String

pub record Grouper : Type 0 where
  pub cfg : Config
  pub next_id : ℕ
  pub opened : List Incident
  pub by_key : Dict String ℕ
  pub ready : List Batch

unfoldable pub new : Config → Grouper
new cfg = record { cfg = cfg; next_id = 0; opened = []; by_key = []; ready = [] }

-- `Batch.Firing`.
unfoldable pub firing : Batch → Bool
firing b = any (λ a. not a.resolved) b.alerts

unfoldable pub enqueue : Config → ℕ → Issue → Incident → Incident
enqueue cfg now issue inc = record inc {
  pending = inc.pending ++ issue ∷ [];
  due = if is_zero inc.due then now + cfg.group_wait else inc.due;
}

first_with : ℕ → List Incident → Option Incident
first_with id [] = none
first_with id (inc ∷ rest) = if inc.id == id then some inc else first_with id rest

unfoldable pub find : ℕ → List Incident → Option Incident
unfolding first_with
find id incs = if id == 0 then none else first_with id incs

-- A write through the pointer that `find`, or the choice of `Add`, has returned.
unfoldable pub modify : ℕ → (Incident → Incident) → List Incident → List Incident
modify id f [] = []
modify id f (inc ∷ rest) = if inc.id == id then f inc ∷ rest else inc ∷ modify id f rest

-- An incident that `expire` keeps.
abbrev pub alive : Config → ℕ → Incident → Bool
alive cfg now inc = not (is_zero inc.due && leb (inc.last + cfg.window) now)

unfoldable pub expire : ℕ → Grouper → Grouper
expire now g = record g { opened = select (alive g.cfg now) g.opened }

-- The set of subjects, and whether the alert is about the host.
unfoldable pub subjects_of : Issue → List String × Bool
subjects_of issue = if is_empty c.name then ([], true) else (
  str_append "container:" c.name ∷ (if is_empty p then [] else str_append "project:" p ∷ []),
  false,
)
  where
    open issue use {container as c}

    p : String
    p = label c.labels label_compose_project

abbrev pub contains : List String → String → Bool
contains set s = any (λ t. t == s) set

unfoldable pub matches : Incident → List String → Bool → Bool
matches inc subjects is_host = is_host || inc.has_host || any (contains inc.subjects) subjects

abbrev pub better : Option Incident → Incident → Bool
better none cand = true
better (some inc) cand = ltb inc.last cand.last

-- The loop of `Add` over the open incidents.
unfoldable pub choose : List String → Bool → Option Incident → List Incident → Option Incident
choose subjects is_host inc [] = inc
choose subjects is_host inc (cand ∷ rest) =
    choose subjects is_host
      (if better inc cand && matches cand subjects is_host then some cand else inc) rest

-- What `Add` does to the incident that it has chosen or opened.
unfoldable pub attach : Config → ℕ → List String → Bool → Issue → Incident → Incident
unfolding enqueue
attach cfg now subjects is_host issue inc = enqueue cfg now issue (record inc {
  last = now;
  subjects = subjects ++ inc.subjects;
  has_host = inc.has_host || is_host;
})

abbrev pub fresh : ℕ → Incident
fresh id = record {
  id = id;
  subjects = [];
  has_host = false;
  last = zero_time;
  notified = false;
  pending = [];
  due = zero_time;
  earlier = [];
  summary = "";
}

-- `issue.IncidentID = id`.
abbrev pub with_id : ℕ → Issue → Issue
with_id n issue = record issue { incident_id = n }

abbrev pub note_key : String → ℕ → Dict String ℕ → Dict String ℕ
note_key key id m = if is_empty key then m else insert key id m

abbrev pub drop_key : String → Dict String ℕ → Dict String ℕ
drop_key key m = if is_empty key then m else delete key m

-- The alert's own batch, when it belongs to no open incident.
abbrev pub alone : ℕ → Issue → Batch
alone id issue = record {
  incident_id = id;
  update = not (id == 0);
  alerts = issue ∷ [];
  earlier = [];
  prev_summary = "";
}

-- `Add` for a resolution, behind `expire`.
add_resolved_at : ℕ → Option Incident → ℕ → Issue → Grouper → Grouper
add_resolved_at id none now issue g = record g {
  by_key = drop_key issue.key g.by_key;
  ready = g.ready ++ alone id (with_id id issue) ∷ [];
}
add_resolved_at id (some inc) now issue g = record g {
  by_key = drop_key issue.key g.by_key;
  opened = modify inc.id (enqueue g.cfg now (with_id id issue)) g.opened;
}

unfoldable pub add_resolved : ℕ → Issue → Grouper → Grouper
unfolding add_resolved_at
add_resolved now issue g =
    let id = or_else (lookup issue.key g.by_key) 0 in
    add_resolved_at id (find id g.opened) now issue g

add_firing_at : Option Incident → List String → Bool → ℕ → Issue → Grouper → Grouper
add_firing_at none subjects is_host now issue g =
    let id = suc g.next_id in
    record g {
      next_id = id;
      opened = g.opened ++ attach g.cfg now subjects is_host (with_id id issue) (fresh id) ∷ [];
      by_key = note_key issue.key id g.by_key;
    }
add_firing_at (some inc) subjects is_host now issue g = record g {
  opened = modify inc.id (attach g.cfg now subjects is_host (with_id inc.id issue)) g.opened;
  by_key = note_key issue.key inc.id g.by_key;
}

unfoldable pub add_firing : ℕ → Issue → Grouper → Grouper
unfolding add_firing_at
add_firing now issue g =
    let (subjects, is_host) = subjects_of issue in
    add_firing_at (choose subjects is_host none g.opened) subjects is_host now issue g

unfoldable pub add : ℕ → Issue → Grouper → Grouper
add now issue g =
    if not g.cfg.enabled
    then record g { ready = g.ready ++ record (alone 0 issue) { update = false } ∷ [] }
    else if issue.resolved
    then add_resolved now issue (expire now g)
    else add_firing now issue (expire now g)

abbrev pub sooner : ℕ → Incident → ℕ
sooner next inc =
    if not (is_zero inc.due) && (is_zero next || ltb inc.due next) then inc.due else next

next_due : ℕ → List Incident → ℕ
next_due next [] = next
next_due next (inc ∷ rest) = next_due (sooner next inc) rest

-- When the next batch is due; `zero_time` if nothing is pending.
unfoldable pub next : ℕ → Grouper → ℕ
unfolding next_due
next now g = elim g.ready [ [] ↦ next_due zero_time g.opened | b ∷ bs ↦ now ]

abbrev pub due_before : Incident → Incident → Bool
due_before a b = ltb a.due b.due

unfoldable pub batch_of : Incident → Batch
batch_of inc = record {
  incident_id = inc.id;
  update = inc.notified;
  alerts = inc.pending;
  earlier = inc.earlier;
  prev_summary = inc.summary;
}

abbrev pub without_logs : Issue → Issue
without_logs a = record a { logs = [] }

abbrev pub trim : List Issue → List Issue
trim earlier =
    if ltb max_earlier (length earlier)
    then drop (length earlier - max_earlier) earlier
    else earlier

unfoldable pub delivered : Incident → Incident
delivered inc = record inc {
  earlier = trim (inc.earlier ++ map without_logs (select (λ a. not a.resolved) inc.pending));
  pending = [];
  due = zero_time;
  notified = true;
}

abbrev pub taken : (Incident → Bool) → Incident → Bool
taken due inc = not (is_zero inc.due) && due inc

-- The batches that go out, and the grouper that is left.
unfoldable pub take : (Incident → Bool) → Grouper → List Batch × Grouper
take due g = (
  g.ready ++ map batch_of (sort_by due_before (select (taken due) g.opened)),
  record g {
    ready = [];
    opened = map (λ inc. if taken due inc then delivered inc else inc) g.opened;
  },
)

unfoldable pub due : ℕ → Grouper → List Batch × Grouper
unfolding take
due now = take (λ inc. leb inc.due now)

unfoldable pub flush : Grouper → List Batch × Grouper
unfolding take
flush = take (λ inc. true)

unfoldable pub set_summary : ℕ → String → Grouper → Grouper
set_summary id summary g = elim (find id g.opened) [
  | none ↦ g
  | some inc ↦
      if is_empty summary
      then g
      else record g { opened = modify inc.id (λ i. record i { summary = summary }) g.opened }
]

-- What the state file keeps of the grouper; its JSON text is not modelled.
pub record Saved : Type 0 where
  pub next_id : ℕ
  pub by_key : Dict String ℕ

unfoldable pub save_state : Grouper → Saved
save_state g = record { next_id = g.next_id; by_key = g.by_key }

unfoldable pub load_state : Saved → Grouper → Grouper
load_state s g = record g { next_id = max g.next_id s.next_id; by_key = overlay s.by_key g.by_key }
