-- ===== src/Action/Route/Routing.antt =====
-- internal/action/route.go: a resolution goes where the alert went, and nothing else gets through.
use nodux.Base.{
  ℕ, ◌≡◌, ◌≢◌, refl, ap, sym, subst, ◌⊎◌, inl, inr, ◌↔◌, Bool-cases, or_else, ◌==◌, Bool, true,
  false, ◌&&◌, String, List, [], ◌∷◌, Option, none, some, string_eq, if◌then◌else◌, any, select,
  All, is_some, arith,
}
use nodux.Detector.Types.{Issue}
use nodux.Engine.{ActiveAlert}
use nodux.Engine.Track.{resolution}
use nodux.Action.Route.{Route, Notification, matches, send, firing, is_nil, contains}

-- Some item of a list has a property.
abbrev pub Some : {A : Type 0} → (A → Type 0) → List A → Type 0
Some P [] = ⊥
Some P (x ∷ xs) = P x ⊎ Some P xs

-- What is left of a list: in order, the items that have a property.
pub data Filtered (P : Issue → Type 0) : List Issue → List Issue → Type 0 where
  done : Filtered P [] []
  keeps : {x : Issue} {xs ys : List Issue} → P x → Filtered P xs ys → Filtered P (x ∷ xs) (x ∷ ys)
  drops : {x : Issue} {xs ys : List Issue} → ¬ P x → Filtered P xs ys → Filtered P (x ∷ xs) ys

module _ (path_match : String → String → Option Bool) where
  -- The engine's resolution of an episode passes a route exactly if the route takes resolutions, the
  -- alert of the episode was not held back to the end, and the alert itself passes as it was
  -- opened, firing and audible.
  pub matches-resolution :
      (r : Route) (now : ℕ) (a : ActiveAlert) (reason : String)
      → a.issue.resolved ≡ false
      → a.issue.silenced ≡ false
      → matches path_match r (resolution now a reason)
        ≡ (r.send_resolved && a.notified && matches path_match r a.issue)
  unfolding matches resolution
  matches-resolution r now a reason firing audible = ground (arith, firing, audible)

  -- What a route lets through: an alert that is not silenced, nor a resolution where it takes none, of a
  -- severity that it lists, if it lists any, and of a detector that one of its patterns matches, if it has any.
  pub record Passes (r : Route) (i : Issue) : Type 0 where
    pub audible : i.silenced ≡ false
    pub wanted : (i.resolved ≡ false) ⊎ (r.send_resolved ≡ true)
    pub severity : (r.severities ≡ []) ⊎ Some (λ v. v ≡ i.severity) r.severities
    pub detector :
        (r.detectors ≡ []) ⊎ Some (λ pattern. path_match pattern i.detector ≡ some true) r.detectors

  any-Some :
      {A : Type 0} (P : A → Type 0) (p : A → Bool) (xs : List A)
      → ((x : A) → (p x ≡ true) ↔ P x)
      → (any p xs ≡ true) ↔ Some P xs
  unfolding any
  any-Some P p [] h = (λ e. absurd (cc e), λ s. absurd s)
  any-Some P p (x ∷ xs) h =
      let rest = any-Some P p xs h in
      (
        λ e. elim (Bool-cases (p x)) [
          | inl y ↦ inl ((h x).0 y)
          | inr n ↦ inr (rest.0 (ground arith))
        ],
        λ s. elim s [ inl y ↦ ground (arith, (h x).1 y) | inr n ↦ ground (arith, rest.1 n) ],
      )

  is_nil_iff : {A : Type 0} (xs : List A) → (is_nil xs ≡ true) ↔ (xs ≡ [])
  is_nil_iff [] = (λ e. refl, λ e. refl)
  is_nil_iff (x ∷ xs) = (λ e. absurd (cc e), λ e. absurd (cc e))

  listed :
      (r : Route) (i : Issue)
      → (contains r.severities i.severity ≡ true) ↔ Some (λ v. v ≡ i.severity) r.severities
  unfolding contains
  listed r i =
      any-Some (λ v. v ≡ i.severity) (λ v. v == i.severity) r.severities
        (λ v. string_eq.test_iff v i.severity)

  matched :
      (r : Route) (i : Issue)
      → (any (λ pattern. or_else (path_match pattern i.detector) false) r.detectors ≡ true)
        ↔ Some (λ pattern. path_match pattern i.detector ≡ some true) r.detectors
  matched r i =
      any-Some (λ pattern. path_match pattern i.detector ≡ some true)
        (λ pattern. or_else (path_match pattern i.detector) false) r.detectors
        (λ pattern. is_true (path_match pattern i.detector))
    where
      is_true : (o : Option Bool) → (or_else o false ≡ true) ↔ (o ≡ some true)
      is_true none = (λ e. absurd (cc e), λ e. absurd (cc e))
      is_true (some b) = (λ e. ap some e, λ e. ground arith)

  matches-Passes : (r : Route) (i : Issue) → matches path_match r i ≡ true → Passes r i
  unfolding matches
  matches-Passes r i h = record {
    audible = ground (arith, h);
    wanted = ground (arith, h);
    severity = ground (arith, h, is_nil_iff r.severities, listed r i);
    detector = ground (arith, h, is_nil_iff r.detectors, matched r i);
  }

  Passes-matches : (r : Route) (i : Issue) → Passes r i → matches path_match r i ≡ true
  unfolding matches
  Passes-matches r i p = ground (
    arith,
    p.audible,
    p.wanted,
    p.severity,
    p.detector,
    is_nil_iff r.severities,
    is_nil_iff r.detectors,
    listed r i,
    matched r i,
  )

  select-Filtered :
      (r : Route) (xs : List Issue) → Filtered (Passes r) xs (select (matches path_match r) xs)
  unfolding select
  select-Filtered r [] = done
  select-Filtered r (x ∷ xs) = elim (Bool-cases (matches path_match r x)) [
    | inl y ↦ rw (y, select) (keeps (matches-Passes r x y) (select-Filtered r xs))
    | inr n ↦
        rw (n, select) (drops (λ p. absurd (cc (n, Passes-matches r x p))) (select-Filtered r xs))
  ]

  -- What the receiver behind a route is given of a notification: nothing, where none of its alerts passes;
  -- otherwise those that pass, in order, with what belongs to the notification, and its summary if one of
  -- them fires.
  pub record Given {D : Type 0} (r : Route) (n m : Notification D) : Type 0 where
    pub alerts : Filtered (Passes r) n.alerts m.alerts
    pub any_alert : m.alerts ≢ []
    pub incident : m.incident_id ≡ n.incident_id
    pub update : m.update ≡ n.update
    pub digest : m.digest ≡ n.digest
    pub summary :
        (Some (λ (i : Issue). i.resolved ≡ false) m.alerts × (m.summary ≡ n.summary))
        ⊎ (All (λ (i : Issue). i.resolved ≡ true) m.alerts × (m.summary ≡ ""))

  abbrev pub Served : {D : Type 0} → Route → Notification D → Option (Notification D) → Type 0
  Served r n none = Filtered (Passes r) n.alerts []
  Served r n (some m) = Given r n m

  by_firing :
      (xs : List Issue) (s : String)
      → (Some (λ (i : Issue). i.resolved ≡ false) xs × ((if firing xs then s else "") ≡ s))
        ⊎ (All (λ (i : Issue). i.resolved ≡ true) xs × ((if firing xs then s else "") ≡ ""))
  unfolding firing any
  by_firing [] s = inr (tt, refl)
  by_firing (x ∷ xs) s = elim (Bool-cases x.resolved) [
    | inl e ↦ elim (by_firing xs s) [
      | inl h ↦ inl (inr h.0, rw e h.1)
      | inr h ↦ inr ((e, h.0), rw e h.1)
    ]
    | inr e ↦ inl (inl e, rw e)
  ]

module _ {D : Type 0} (path_match : String → String → Option Bool) where
  -- A notification without a digest: the receiver behind a route gets nothing exactly if none of its alerts
  -- passes the route, and otherwise the alerts that pass, in their order, under the same incident, with
  -- the summary if one of them fires and without it if not. What passes a route is said by its fields.
  pub send-Served :
      (r : Route) (n : Notification D)
      → n.digest ≡ none
      → Served path_match r n (send path_match r n)
  unfolding send
  send-Served r n plain =
      subst
        (λ o.
          Served path_match r n (if is_some o then (if r.digest then some n else none) else out))
        (sym plain) (by_nil (is_nil kept) refl)
    where
      kept : List Issue
      kept = select (matches path_match r) n.alerts

      served : Notification D
      served = record n { alerts = kept; summary = if firing kept then n.summary else "" }

      out : Option (Notification D)
      out = if is_nil kept then none else some served

      by_nil :
          (b : Bool) → is_nil kept ≡ b → Served path_match r n (if b then none else some served)
      by_nil true h =
          subst (λ ys. Filtered (Passes path_match r) n.alerts ys)
            ((is_nil_iff path_match kept).0 h) (select-Filtered path_match r n.alerts)
      by_nil false h = record {
        alerts = select-Filtered path_match r n.alerts;
        any_alert = λ e. absurd (cc (h, (is_nil_iff path_match kept).1 e));
        incident = refl;
        update = refl;
        digest = refl;
        summary = by_firing path_match kept n.summary;
      }
