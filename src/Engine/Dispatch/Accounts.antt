-- ===== src/Engine/Dispatch/Accounts.antt =====
-- internal/engine/dispatch.go, deliver: the counters, the notifications and the rows account for every batch.
use nodux.Base.{
  ℕ, ◌+◌, ◌≡◌, refl, ap, ap₂, sym, ◌∙◌, Bool, true, false, not, ◌||◌, String, List, [], ◌∷◌, ◌++◌,
  map, append_assoc, append-nil, if_rule, string_eq, if◌then◌else◌, is_empty, select, count,
  count-append, arith, Bool-cases, inl, inr, none, any, or_else,
}
use nodux.Detector.Types.{Issue}
use nodux.Incident.{Batch}
use nodux.Action.Route.{Notification}
use nodux.Engine.Dispatch.Send.{
  AlertKey, HistoryAlert, audible, Outbox, Delivery, has_key, count_alert, count_alerts,
  alert_from_issue, annotate, analyze, send, send_group, deliver,
}

abbrev pub alerts_of : List Batch → List Issue
alerts_of [] = []
alerts_of (b ∷ bs) = b.alerts ++ alerts_of bs

-- The summary of a batch: none without an alert that fires aloud, or without an answer.
abbrev pub summary_of : Delivery → Batch → String
summary_of d b =
    if any (λ i. not (i.resolved || i.silenced)) b.alerts
    then (if d.analyzes then or_else (d.ask b) "" else "")
    else ""

-- An alert with the summary that it is sent with.
abbrev pub told : String → Issue → Issue
told summary i = record i {
  analysis = if is_empty summary || i.resolved then i.analysis else summary;
}

abbrev pub told_alerts : Delivery → Batch → List Issue
told_alerts d b = map (told (summary_of d b)) b.alerts

abbrev pub noticed : Delivery → Batch → Notification (Unit {0})
noticed d b = record {
  incident_id = b.incident_id;
  update = b.update;
  alerts = told_alerts d b;
  summary = summary_of d b;
  digest = none;
}

-- One notification for each action, batch by batch.
abbrev pub notices : Delivery → List Batch → List (String × Notification (Unit {0}))
notices d [] = []
notices d (b ∷ bs) = map (λ a. (a, noticed d b)) d.actions ++ notices d bs

abbrev pub all_batches : List (List Batch) → List Batch
all_batches [] = []
all_batches (g ∷ gs) = g ++ all_batches gs

abbrev pub is_loud : Issue → Bool
is_loud i = not i.silenced

-- The rows of some batches, one for each alert that is not silenced.
abbrev pub rows : Delivery → List Batch → List HistoryAlert
rows d [] = []
rows d (b ∷ bs) = map (alert_from_issue d.now) (select is_loud (told_alerts d b)) ++ rows d bs

-- What is added for some batches.
pub record Accounts (d : Delivery) (bs : List Batch) (o o' : Outbox) : Type 0 where
  pub counted : (k : AlertKey) → o'.counts k ≡ o.counts k + count (has_key k) (alerts_of bs)
  pub sent : o'.sent ≡ o.sent ++ notices d bs
  pub recorded : o'.recorded ≡ o.recorded ++ (if d.has_history then rows d bs else [])

count_alerts-count :
    (is : List Issue) (counts : AlertKey → ℕ) (k : AlertKey)
    → count_alerts is counts k ≡ counts k + count (has_key k) is
unfolding count_alerts count_alert count
count_alerts-count [] counts k = omega arith
count_alerts-count (i ∷ is) counts k =
    ground (arith, count_alerts-count is (count_alert i counts) k)

count-map :
    (p : Issue → Bool) (f : Issue → Issue) (is : List Issue)
    → ((i : Issue) → p (f i) ≡ p i)
    → count p (map f is) ≡ count p is
unfolding count
count-map p f [] h = refl
count-map p f (i ∷ is) h = ground (arith, h i, count-map p f is h)

annotate-keeps :
    (p : Issue → Bool) (summary : String) (i : Issue)
    → ((a : String) → p (record i { analysis = a }) ≡ p i)
    → p (annotate summary i) ≡ p i
unfolding annotate
annotate-keeps p summary i h =
    if_rule (λ j. p j ≡ p i) (is_empty summary) (λ e. refl)
      (λ n. if_rule (λ j. p j ≡ p i) i.resolved (λ y. refl) (λ z. h summary))

annotate-told : (summary : String) (i : Issue) → annotate summary i ≡ told summary i
unfolding annotate
annotate-told summary i = elim (Bool-cases (is_empty summary)) [
  | inl e ↦ rw (e, annotate)
  | inr e ↦ elim (Bool-cases i.resolved) [
    | inl r ↦ rw (e, r, annotate)
    | inr r ↦ rw (e, r, annotate)
  ]
]

map-told : (summary : String) (is : List Issue) → map (annotate summary) is ≡ map (told summary) is
map-told summary [] = refl
map-told summary (i ∷ is) = ap₂ (λ x xs. x ∷ xs) (annotate-told summary i) (map-told summary is)

audible-any : (is : List Issue) → audible is ≡ any (λ i. not (i.resolved || i.silenced)) is
unfolding audible any
audible-any [] = refl
audible-any (i ∷ is) = ground (arith, audible-any is)

analyze-summary_of : (d : Delivery) (b : Batch) → analyze d b ≡ summary_of d b
unfolding analyze
analyze-summary_of d b = ground (arith, audible-any b.alerts)

-- Two lots of rows, or none where nothing is kept.
join_rows :
    (h : Bool) (r r' r'' a b c : List HistoryAlert)
    → c ≡ a ++ b
    → r' ≡ r ++ (if h then a else [])
    → r'' ≡ r' ++ (if h then b else [])
    → r'' ≡ r ++ (if h then c else [])
join_rows true r r' r'' a b c e p q =
    q ∙ ap (λ x. x ++ b) p ∙ append_assoc r a b ∙ ap (λ x. r ++ x) (sym e)
join_rows false r r' r'' a b c e p q = q ∙ append-nil r' ∙ p

alerts_of-append : (bs cs : List Batch) → alerts_of (bs ++ cs) ≡ alerts_of bs ++ alerts_of cs
alerts_of-append [] cs = refl
alerts_of-append (b ∷ bs) cs =
    ap (λ is. b.alerts ++ is) (alerts_of-append bs cs) ∙ sym (append_assoc b.alerts _ _)

notices-append :
    (d : Delivery) (bs cs : List Batch) → notices d (bs ++ cs) ≡ notices d bs ++ notices d cs
notices-append d [] cs = refl
notices-append d (b ∷ bs) cs =
    ap (λ ns. map (λ a. (a, noticed d b)) d.actions ++ ns) (notices-append d bs cs)
    ∙ sym (append_assoc (map (λ a. (a, noticed d b)) d.actions) _ _)

rows-append : (d : Delivery) (bs cs : List Batch) → rows d (bs ++ cs) ≡ rows d bs ++ rows d cs
rows-append d [] cs = refl
rows-append d (b ∷ bs) cs =
    let first = map (alert_from_issue d.now) (select is_loud (told_alerts d b)) in
    ap (λ rs. first ++ rs) (rows-append d bs cs) ∙ sym (append_assoc first _ _)

module _ (d : Delivery) where
  Accounts-none : (o : Outbox) → Accounts d [] o o
  unfolding count
  Accounts-none o = record {
    counted = λ k. omega arith;
    sent = sym (append-nil o.sent);
    recorded = ground (arith, append-nil o.recorded);
  }

  Accounts-append :
      (bs cs : List Batch) (o o' o'' : Outbox)
      → Accounts d bs o o'
      → Accounts d cs o' o''
      → Accounts d (bs ++ cs) o o''
  Accounts-append bs cs o o' o'' one rest = record {
    counted = λ k. omega (
      arith,
      one.counted k,
      rest.counted k,
      ap (count (has_key k)) (alerts_of-append bs cs),
      count-append (has_key k) (alerts_of bs) (alerts_of cs),
    );
    sent =
        rest.sent
        ∙ ap (λ ns. ns ++ notices d cs) one.sent
        ∙ append_assoc o.sent (notices d bs) (notices d cs)
        ∙ ap (λ ns. o.sent ++ ns) (sym (notices-append d bs cs));
    recorded =
        join_rows d.has_history o.recorded o'.recorded o''.recorded (rows d bs) (rows d cs) _
          (rows-append d bs cs) one.recorded rest.recorded;
  }

  send-Accounts : (b : Batch) (o : Outbox) → Accounts d (b ∷ []) o (send d b (analyze d b) o)
  unfolding send
  send-Accounts b o =
      let summary = analyze d b in
      let alerts = map (annotate summary) b.alerts in
      let same = analyze-summary_of d b in
      let told_same : alerts ≡ told_alerts d b =
        map-told summary b.alerts ∙ ap (λ t. map (told t) b.alerts) same in
      let make : String → List Issue → List (String × Notification (Unit {0})) = λ t is.
        map
          (λ a. (
            a,
            record {
              incident_id = b.incident_id;
              update = b.update;
              alerts = is;
              summary = t;
              digest = none;
            },
          ))
          d.actions in
      record {
        counted = λ k. omega (
          arith,
          count_alerts-count alerts o.counts k,
          count-map (has_key k) (annotate summary) b.alerts
              (λ i. annotate-keeps (has_key k) summary i (λ a. refl)),
          ap (count (has_key k)) (append-nil b.alerts),
        );
        sent = ap (λ ns. o.sent ++ ns) (ap₂ make same told_same ∙ sym (append-nil _));
        recorded = by_history d.has_history alerts told_same;
      }
    where
      by_history :
          (h : Bool) (alerts : List Issue)
          → alerts ≡ told_alerts d b
          → (if h
              then o.recorded ++ map (alert_from_issue d.now) (select is_loud alerts)
              else o.recorded)
            ≡ o.recorded ++ (if h then rows d (b ∷ []) else [])
      by_history true alerts e =
          ap (λ is. o.recorded ++ map (alert_from_issue d.now) (select is_loud is)) e
          ∙ ap (λ rs. o.recorded ++ rs) (sym (append-nil _))
      by_history false alerts e = sym (append-nil o.recorded)

  send_group-Accounts :
      (group : List Batch) (o : Outbox)
      → Accounts d group o (send_group d (map (λ b. (b, analyze d b)) group) o)
  unfolding send_group
  send_group-Accounts [] o = Accounts-none o
  send_group-Accounts (b ∷ bs) o =
      let o' = send d b (analyze d b) o in
      Accounts-append (b ∷ []) bs o o' _ (send-Accounts b o) (send_group-Accounts bs o')

  -- However the batches are grouped: each counter grows by the number of alerts with its detector, severity,
  -- state and silence. Each action is given one notification for each batch, in the order of the batches:
  -- under its incident, with all its alerts and with the answer of the analyzer, which is asked about
  -- batches with a firing alert that is not silenced and is written into the firing alerts. Where there is a
  -- history, it gets the row of each of those alerts that is not silenced, in order.
  pub deliver-Accounts :
      (groups : List (List Batch)) (o : Outbox)
      → Accounts d (all_batches groups) o (deliver d groups o)
  unfolding deliver
  deliver-Accounts [] o = Accounts-none o
  deliver-Accounts (g ∷ gs) o =
      let o' = send_group d (map (λ b. (b, analyze d b)) g) o in
      Accounts-append g (all_batches gs) o o' _ (send_group-Accounts g o) (deliver-Accounts gs o')
