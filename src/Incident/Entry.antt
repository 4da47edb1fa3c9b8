-- ===== src/Incident/Entry.antt =====
-- internal/incident/incident.go: the invariant of one incident, and the methods that keep it.
use nodux.Base.{
  ℕ, ◌≤◌, ◌<◌, ◌≡◌, refl, ◌≢◌, ◌-◌, ltb, Bool, true, false, not, String, List, [], ◌∷◌, ◌++◌, map,
  arith, nat_eq, is_zero, select, All, All-append, All-drop, All-select_self, length, length-drop,
  Bool-cases, string_eq, inl, inr,
}
use nodux.Detector.Types.{Issue}
use nodux.Incident.{
  Incident, Config, enqueue, attach, fresh, delivered, without_logs, trim, max_earlier,
}

-- What `analyze` is shown of an earlier alert: a firing one, without its logs.
abbrev pub IsContext : Issue → Type 0
IsContext a = (a.resolved ≡ false) × (a.logs ≡ [])

-- An incident waits for its due time exactly while it has alerts to send.
pub record IncidentOk (inc : Incident) : Type 0 where
  pub idle : is_zero inc.due ≡ true → inc.pending ≡ []
  pub busy : is_zero inc.due ≡ false → inc.pending ≢ []
  pub bounded : length inc.earlier ≤ max_earlier
  pub context : All IsContext inc.earlier

append-ne-nil : (xs : List Issue) (a : Issue) → xs ++ a ∷ [] ≢ []
append-ne-nil [] a h = cc
append-ne-nil (x ∷ xs) a h = cc

pub enqueue-IncidentOk :
    (cfg : Config) (now : ℕ) (issue : Issue) (inc : Incident)
    → 0 < now
    → IncidentOk inc
    → IncidentOk (enqueue cfg now issue inc)
unfolding enqueue
enqueue-IncidentOk cfg now issue inc h v = record {
  idle = λ e. absurd (ground arith);
  busy = λ e. append-ne-nil inc.pending issue;
  bounded = v.bounded;
  context = v.context;
}

IsContext-map :
    (xs : List Issue) → All (λ a. not a.resolved ≡ true) xs → All IsContext (map without_logs xs)
IsContext-map [] h = tt
IsContext-map (x ∷ xs) h = ((ground arith, refl), IsContext-map xs h.1)

trim_bounded : (xs : List Issue) → length (trim xs) ≤ max_earlier
trim_bounded xs = ground (arith, length-drop (length xs - max_earlier) xs)

trim-All : (xs : List Issue) → All IsContext xs → All IsContext (trim xs)
trim-All xs h = elim (Bool-cases (ltb max_earlier (length xs))) [
  | inl e ↦ rw e (All-drop IsContext (length xs - max_earlier) xs h)
  | inr e ↦ rw e h
]

pub delivered-IncidentOk : (inc : Incident) → IncidentOk inc → IncidentOk (delivered inc)
unfolding delivered
delivered-IncidentOk inc v = record {
  idle = λ e. refl;
  busy = λ e. absurd (cc e);
  bounded =
      trim_bounded (inc.earlier ++ map without_logs (select (λ a. not a.resolved) inc.pending));
  context = trim-All (inc.earlier ++ map without_logs (select (λ a. not a.resolved) inc.pending)) (
      All-append IsContext inc.earlier _ v.context
        (IsContext-map _ (All-select_self (λ a. not a.resolved) inc.pending)));
}

pub attach-IncidentOk :
    (cfg : Config) (now : ℕ) (subjects : List String) (is_host : Bool) (issue : Issue)
    (inc : Incident)
    → 0 < now
    → IncidentOk inc
    → IncidentOk (attach cfg now subjects is_host issue inc)
unfolding attach
attach-IncidentOk cfg now subjects is_host issue inc h v =
    enqueue-IncidentOk cfg now issue _ h
      (record { idle = v.idle; busy = v.busy; bounded = v.bounded; context = v.context })

pub fresh-IncidentOk : (id : ℕ) → IncidentOk (fresh id)
fresh-IncidentOk id = record {
  idle = λ e. refl;
  busy = λ e. absurd (cc e);
  bounded = omega arith;
  context = tt;
}
