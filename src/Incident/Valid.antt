-- ===== src/Incident/Valid.antt =====
-- internal/incident/incident.go: the invariant of the grouper.
use nodux.Base.{
  ℕ, ◌<◌, ◌≡◌, refl, Bool, not, String, List, [], ◌∷◌, ◌++◌, none, arith, nat_eq, is_empty, All,
  All-append, All-select, Bool-cases, Option-cases, if_rule, string_eq, inl, inr, or_else,
  if◌then◌else◌,
}
use nodux.Dict.{lookup}
use nodux.Detector.Types.{Issue}
use nodux.Incident.{
  Batch, Grouper, Incident, Config, Saved, new, enqueue, find, expire, alive, choose, attach, add,
  add_firing, add_resolved, take, taken, delivered, due, flush, set_summary, load_state,
  subjects_of,
}
use nodux.Incident.Entry.{
  IncidentOk, enqueue-IncidentOk, delivered-IncidentOk, attach-IncidentOk, fresh-IncidentOk,
}
use nodux.Incident.Ids.{
  Ids, All-modify, All-map, Ids-modify, Ids-map, Ids-raise, Ids-select, Ids-append,
}

pub record IsValid (g : Grouper) : Type 0 where
  pub each : All IncidentOk g.opened
  pub ids : Ids 0 g.next_id g.opened

pub expire-IsValid : (now : ℕ) (g : Grouper) → IsValid g → IsValid (expire now g)
unfolding expire
expire-IsValid now g v = record {
  each = All-select IncidentOk (alive g.cfg now) g.opened v.each;
  ids = Ids-select 0 g.next_id (alive g.cfg now) g.opened v.ids;
}

enqueue-id :
    (cfg : Config) (now : ℕ) (issue : Issue) (inc : Incident)
    → (enqueue cfg now issue inc).id ≡ inc.id
unfolding enqueue
enqueue-id cfg now issue inc = refl

attach-id :
    (cfg : Config) (now : ℕ) (subjects : List String) (is_host : Bool) (issue : Issue)
    (inc : Incident)
    → (attach cfg now subjects is_host issue inc).id ≡ inc.id
unfolding attach enqueue
attach-id cfg now subjects is_host issue inc = refl

add_firing-IsValid :
    (now : ℕ) (issue : Issue) (g : Grouper) → 0 < now → IsValid g → IsValid (add_firing now issue g)
unfolding add_firing
add_firing-IsValid now issue g h v = elim (Option-cases (choose subjects is_host none g.opened)) [
  | inl e ↦
      rw (e, add_firing)
        (record {
          each =
              All-append IncidentOk g.opened _ v.each
                (attach-IncidentOk g.cfg now subjects is_host _ _ h (fresh-IncidentOk _), tt);
          ids = Ids-append 0 g.next_id g.opened _ (attach-id g.cfg now subjects is_host _ _) v.ids;
        })
  | inr (inc, e) ↦
      rw (e, add_firing)
        (record {
          each =
              All-modify IncidentOk inc.id _ g.opened
                (λ i ok. attach-IncidentOk g.cfg now subjects is_host _ i h ok) v.each;
          ids =
              Ids-modify 0 g.next_id inc.id _ g.opened
                (λ i. attach-id g.cfg now subjects is_host _ i) v.ids;
        })
]
  where
    subjects : List String
    subjects = (subjects_of issue).0

    is_host : Bool
    is_host = (subjects_of issue).1

add_resolved-IsValid :
    (now : ℕ) (issue : Issue) (g : Grouper)
    → 0 < now
    → IsValid g
    → IsValid (add_resolved now issue g)
unfolding add_resolved
add_resolved-IsValid now issue g h v = elim (Option-cases (find id g.opened)) [
  | inl e ↦ rw (e, add_resolved) (record { each = v.each; ids = v.ids })
  | inr (inc, e) ↦
      rw (e, add_resolved)
        (record {
          each =
              All-modify IncidentOk inc.id _ g.opened
                (λ i ok. enqueue-IncidentOk g.cfg now _ i h ok) v.each;
          ids = Ids-modify 0 g.next_id inc.id _ g.opened (λ i. enqueue-id g.cfg now _ i) v.ids;
        })
]
  where
    id : ℕ
    id = or_else (lookup issue.key g.by_key) 0

pub add-IsValid :
    (now : ℕ) (issue : Issue) (g : Grouper) → 0 < now → IsValid g → IsValid (add now issue g)
unfolding add
add-IsValid now issue g h v =
    if_rule IsValid (not g.cfg.enabled) (λ off. record { each = v.each; ids = v.ids })
      λ on.
        if_rule IsValid issue.resolved
          (λ r. add_resolved-IsValid now issue (expire now g) h (expire-IsValid now g v))
          (λ f. add_firing-IsValid now issue (expire now g) h (expire-IsValid now g v))

pub take-IsValid : (due : Incident → Bool) (g : Grouper) → IsValid g → IsValid (take due g).1
unfolding take
take-IsValid due g v = record {
  each = All-map IncidentOk _ g.opened (λ i ok. one i ok) v.each;
  ids = Ids-map 0 g.next_id _ g.opened (λ i. one-id i) v.ids;
}
  where
    one : (i : Incident) → IncidentOk i → IncidentOk (if taken due i then delivered i else i)
    one i ok = elim (Bool-cases (taken due i)) [
      | inl e ↦ rw e (delivered-IncidentOk i ok)
      | inr e ↦ rw e ok
    ]

    one-id : (i : Incident) → (if taken due i then delivered i else i).id ≡ i.id
    one-id i = unfold delivered in ground arith

pub set_summary-IsValid :
    (id : ℕ) (summary : String) (g : Grouper) → IsValid g → IsValid (set_summary id summary g)
unfolding set_summary
set_summary-IsValid id summary g v = elim (Option-cases (find id g.opened)) [
  | inl e ↦ rw (e, set_summary) v
  | inr (inc, e) ↦
      rw (e, set_summary)
        (elim (Bool-cases (is_empty summary)) [
          | inl b ↦ rw b v
          | inr b ↦ rw b (record {
            each =
                All-modify IncidentOk inc.id _ g.opened
                  (λ i ok. record {
                    idle = ok.idle;
                    busy = ok.busy;
                    bounded = ok.bounded;
                    context = ok.context;
                  })
                  v.each;
            ids = Ids-modify 0 g.next_id inc.id _ g.opened (λ i. refl) v.ids;
          })
        ])
]

pub load_state-IsValid : (s : Saved) (g : Grouper) → IsValid g → IsValid (load_state s g)
unfolding load_state
load_state-IsValid s g v = record {
  each = v.each;
  ids = Ids-raise 0 g.next_id _ g.opened (omega arith) v.ids;
}

pub new-IsValid : (cfg : Config) → IsValid (new cfg)
unfolding new
new-IsValid cfg = record { each = tt; ids = omega arith }

-- An operation of the grouper at a time of the clock.
pub data Op : Type 0 where
  adds : ℕ → Issue → Op
  dues : ℕ → Op
  flushes : Op
  summarizes : ℕ → String → Op
  loads : Saved → Op

abbrev pub HasTime : Op → Type 0
HasTime (adds now issue) = 0 < now
HasTime _ = Unit

-- The batches that an operation sends out, and the grouper that it leaves.
unfoldable pub step : Grouper → Op → List Batch × Grouper
step g (adds now issue) = ([], add now issue g)
step g (dues now) = due now g
step g flushes = flush g
step g (summarizes id summary) = ([], set_summary id summary g)
step g (loads s) = ([], load_state s g)

unfoldable pub run : Grouper → List Op → List Batch × Grouper
run g [] = ([], g)
run g (op ∷ ops) = let (out, g') = step g op in let (outs, g'') = run g' ops in (out ++ outs, g'')

pub step-IsValid : (g : Grouper) (op : Op) → HasTime op → IsValid g → IsValid (step g op).1
unfolding step due flush
step-IsValid g (adds now issue) h v = add-IsValid now issue g h v
step-IsValid g (dues now) h v = take-IsValid _ g v
step-IsValid g flushes h v = take-IsValid _ g v
step-IsValid g (summarizes id summary) h v = set_summary-IsValid id summary g v
step-IsValid g (loads s) h v = load_state-IsValid s g v

pub run_from-IsValid :
    (g : Grouper) (ops : List Op) → All HasTime ops → IsValid g → IsValid (run g ops).1
unfolding run
run_from-IsValid g [] h v = v
run_from-IsValid g (op ∷ ops) h v = run_from-IsValid (step g op).1 ops h.1 (step-IsValid g op h.0 v)

-- After any operations, from the start, each incident has alerts to send exactly while a due time
-- is set, keeps at most `max_earlier` earlier alerts, all firing and without logs, and the open
-- incidents have distinct positive identifiers, at most `next_id`. The clock must stand after Go's
-- zero time at each `Add`.
pub run-IsValid : (cfg : Config) (ops : List Op) → All HasTime ops → IsValid (run (new cfg) ops).1
run-IsValid cfg ops h = run_from-IsValid (new cfg) ops h (new-IsValid cfg)
