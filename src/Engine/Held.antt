-- ===== src/Engine/Held.antt =====
-- internal/engine/engine.go: what leaves the episode under one key, and the container that it belongs to, as it
-- was. Reviving a silenced episode changes neither.
use nodux.Base.{
  ℕ, ◌≡◌, ◌≢◌, refl, ap, sym, subst, ◌∙◌, Bool, true, false, String, List, [], ◌∷◌, map, Option,
  none, some, string_eq, ◌==◌, if_rule, option_rule, arith, All, All-select_self, select, ltb,
  is_some, Bool-cases, Option-cases, inl, inr, ◌⊎◌, if◌then◌else◌,
}
use Prim.Native.String.{◌++◌ as str_append}
use package.text.Mathlib.Text.{starts_with}
use package.text.Mathlib.TextPositions.{starts_with-append}
use nodux.Dict.{Dict, lookup, insert, lookup-insert, lookup-delete}
use nodux.Detector.Types.{Issue, ContainerSnapshot, severity_rank}
use nodux.Engine.{Engine, ActiveAlert, Options}
use nodux.Engine.Track.{
  silenced_locked, is_silenced, open_episode, escalate, close_episode, track_case, track_locked,
  track_at, track_set, for_each, resolve_one, resolve_container, flush_one, flush_deferred, set_key,
  keys, is_over,
}
use nodux.Engine.Keeps.{
  track_at-Keeps, track_set-Keeps, resolve_container-Keeps, flush_deferred-Keeps, is_silenced-Keeps,
}
use nodux.Engine.Rounds.{active-silenced_locked}

-- The container of an episode.
abbrev pub owner_of : Option ActiveAlert → Option String
owner_of none = none
owner_of (some a) = some a.container_id

abbrev pub owner : String → Engine → Option String
owner key e = owner_of (lookup key e.active)

-- A detector whose keys do not lead to this one.
abbrev pub Foreign : String → String → Type 0
Foreign key name = starts_with key (str_append name "/") ≡ false

pub Foreign-key :
    (key name id : String) → Foreign key name → str_append (str_append name "/") id == key ≡ false
Foreign-key key name id f = elim (Bool-cases (str_append (str_append name "/") id == key)) [
  | inl e ↦
      let same = (string_eq.test_iff (str_append (str_append name "/") id) key).0 e in
      absurd (
        cc (
          f,
          subst (λ k. starts_with k (str_append name "/") ≡ true) same
              (starts_with-append (str_append name "/") id),
        ))
  | inr e ↦ e
]

for_each-Owned {ℓ} :
    {A : Type ℓ} (key : String) (own : Option String) (f : A → Engine → Option Issue × Engine)
    (xs : List A) (e : Engine)
    → All (λ x. (d : Engine) → owner key d ≡ own → owner key (f x d).1 ≡ own) xs
    → owner key e ≡ own
    → owner key (for_each f xs e).1 ≡ own
unfolding for_each
for_each-Owned key own f [] e h c = c
for_each-Owned key own f (x ∷ xs) e h c = for_each-Owned key own f xs (f x e).1 h.1 (h.0 e c)

All-every {ℓ κ} : {A : Type ℓ} (P : A → Type κ) (xs : List A) → ((x : A) → P x) → All P xs
All-every P [] h = tt
All-every P (x ∷ xs) h = (h x, All-every P xs h)

All-imply {ℓ κ μ} :
    {A : Type ℓ} (P : A → Type κ) (Q : A → Type μ) (xs : List A)
    → ((x : A) → P x → Q x)
    → All P xs
    → All Q xs
All-imply P Q [] h a = tt
All-imply P Q (x ∷ xs) h a = (h x a.0, All-imply P Q xs h a.1)

resolve_one-Owned :
    (now : ℕ) (id key : String) (own : Option String) (k : String) (e : Engine)
    → own ≢ some id
    → owner key e ≡ own
    → owner key (resolve_one now id k e).1 ≡ own
unfolding resolve_one
resolve_one-Owned now id key own k e ne c = elim (Option-cases (lookup k e.active)) [
  | inl n ↦ rw (n, resolve_one) c
  | inr (a, h) ↦
      rw (h, resolve_one)
        (elim (Bool-cases (a.container_id == id)) [
          | inr m ↦ rw m c
          | inl y ↦ rw y (elim (Bool-cases (k == key)) [
            | inl q ↦ absurd (
                ne (
                  sym c
                  ∙ ap (λ j. owner_of (lookup j e.active)) (sym ((string_eq.test_iff k key).0 q))
                  ∙ ap owner_of h
                  ∙ ap some ((string_eq.test_iff a.container_id id).0 y)))
            | inr q ↦ ap owner_of (lookup-delete k key e.active ∙ ground (arith, q)) ∙ c
          ])
        ])
]

-- The episode's container under this key, and the options.
pub record Unmoved (key : String) (own : Option String) (opts : Options) (e : Engine) : Type 0 where
  pub owned : owner key e ≡ own
  pub options : e.opts ≡ opts

module _ (key : String) (own : Option String) (opts : Options) where
  pub same-Unmoved :
      (e e' : Engine)
      → e'.active ≡ e.active
      → e'.opts ≡ e.opts
      → Unmoved key own opts e
      → Unmoved key own opts e'
  same-Unmoved e e' a o c = record {
    owned = ap (λ m. owner_of (lookup key m)) a ∙ c.owned;
    options = o ∙ c.options;
  }

  pub resolve_container-Unmoved :
      (now : ℕ) (id : String) (e : Engine)
      → own ≢ some id
      → Unmoved key own opts e
      → Unmoved key own opts (resolve_container now id e).1
  resolve_container-Unmoved now id e ne c = record {
    owned =
        unfold resolve_container in
        for_each-Owned key own (resolve_one now id) (keys e.active) e
          (All-every _ (keys e.active) λ k d o. resolve_one-Owned now id key own k d ne o) c.owned;
    options = (resolve_container-Keeps now id e).opts ∙ c.options;
  }

  module _ (path_match : String → String → Option Bool) where
    pub is_silenced-Unmoved :
        (now : ℕ) (issue : Issue) (e : Engine)
        → Unmoved key own opts e
        → Unmoved key own opts (is_silenced path_match now issue e).1
    is_silenced-Unmoved now issue e c =
        same-Unmoved e _ (unfold is_silenced in active-silenced_locked path_match now issue true e)
          (is_silenced-Keeps path_match now issue e).opts c

    past :
        (k : String) (v : ActiveAlert) (m m' : Dict String ActiveAlert)
        → k == key ≡ false
        → m ≡ m'
        → lookup key (insert k v m) ≡ lookup key m'
    past k v m m' f e =
        ap (λ n. lookup key (insert k v n)) e ∙ lookup-insert k key v m' ∙ ground (arith, f)

    -- Tracking under another key.
    lookup-track_case :
        (now : ℕ) (k : String) (i : Option Issue) (current : Option ContainerSnapshot)
        (o : Option ActiveAlert) (e : Engine)
        → k == key ≡ false
        → lookup key (track_case path_match now k i current o e).1.active ≡ lookup key e.active
    unfolding track_case open_episode escalate close_episode
    lookup-track_case now k (some i) current none e f =
        past k _ _ e.active f (active-silenced_locked path_match now (record i { key = k }) false e)
    lookup-track_case now k (some i) current (some a) e f =
        if_rule (λ (r : Option Issue × Engine). lookup key r.1.active ≡ lookup key e.active)
          (ltb (severity_rank a.issue.severity) (severity_rank i.severity))
          (λ y.
            past k _ _ e.active f
              (active-silenced_locked path_match now (record i { key = k }) false e))
          (λ n. refl)
    lookup-track_case now k none current (some a) e f =
        lookup-delete k key e.active ∙ ground (arith, f)
    lookup-track_case now k none current none e f = refl

    track_locked-Owned :
        (now : ℕ) (k : String) (i : Option Issue) (current : Option ContainerSnapshot) (e : Engine)
        → k == key ≡ false
        → owner key e ≡ own
        → owner key (track_locked path_match now k i current e).1 ≡ own
    unfolding track_locked
    track_locked-Owned now k i current e f c =
        ap owner_of (lookup-track_case now k i current (lookup k e.active) e f) ∙ c

    pub track_at-Unmoved :
        (now : ℕ) (k : String) (i : Option Issue) (current : Option ContainerSnapshot) (at : ℕ)
        (e : Engine)
        → k == key ≡ false
        → Unmoved key own opts e
        → Unmoved key own opts (track_at path_match now k i current at e).1
    track_at-Unmoved now k i current at e f c = record {
      owned =
          unfold track_at in
          if_rule (λ (r : Option Issue × Engine). owner key r.1 ≡ own) _ (λ y. c.owned)
            (λ n. track_locked-Owned now k i current e f c.owned);
      options = (track_at-Keeps path_match now k i current at e).opts ∙ c.options;
    }

    pub track_set-Unmoved :
        (now : ℕ) (name : String) (issues : List Issue) (id : Issue → String) (e : Engine)
        → Foreign key name
        → Unmoved key own opts e
        → Unmoved key own opts (track_set path_match now name issues id e).1
    track_set-Unmoved now name issues id e f c = record {
      owned =
          unfold track_set in
          for_each-Owned key own (λ k. track_locked path_match now k none none)
            (select (is_over name (map (set_key name id) issues)) (keys reported.active)) reported
            (All-imply _ _ _ over (
              All-select_self (is_over name (map (set_key name id) issues)) (keys reported.active)))
            (for_each-Owned key own
              (λ i. track_locked path_match now (set_key name id i) (some i) none) issues e
              (All-every _ issues λ i d o.
                track_locked-Owned now (set_key name id i) (some i) none d
                  (Foreign-key key name (id i) f) o)
              c.owned);
      options = (track_set-Keeps path_match now name issues id e).opts ∙ c.options;
    }
      where
        reported : Engine
        reported =
            (for_each (λ i. track_locked path_match now (set_key name id i) (some i) none) issues
              e).1

        over :
            (k : String)
            → is_over name (map (set_key name id) issues) k ≡ true
            → (d : Engine) → owner key d ≡ own
            → owner key (track_locked path_match now k none none d).1 ≡ own
        over k h d o = track_locked-Owned now k none none d (other (Bool-cases (k == key))) o
          where
            other : (k == key ≡ true) ⊎ (k == key ≡ false) → k == key ≡ false
            other (inr n) = n
            other (inl y) = absurd (
                ground (
                  arith,
                  h,
                  subst (λ j. starts_with j (str_append name "/") ≡ false)
                      (sym ((string_eq.test_iff k key).0 y)) f,
                ))

    flush_one-Owned :
        (now : ℕ) (k : String) (e : Engine)
        → owner key e ≡ own
        → owner key (flush_one path_match now k e).1 ≡ own
    unfolding flush_one
    flush_one-Owned now k e c =
        option_rule (λ (r : Option Issue × Engine). owner key r.1 ≡ own) (lookup k e.active)
          (λ n. c)
          λ a h.
            if_rule (λ (r : Option Issue × Engine). owner key r.1 ≡ own) a.notified (λ y. c)
              λ n.
                if_rule (λ (r : Option Issue × Engine). owner key r.1 ≡ own)
                  (silenced_locked path_match now a.issue false e).0
                  (λ y. ap (λ m. owner_of (lookup key m)) (active a) ∙ c)
                  λ z.
                    ap (λ m. owner_of (lookup key (insert k (record a { notified = true }) m)))
                      (active a)
                    ∙ ap owner_of (lookup-insert k key (record a { notified = true }) e.active)
                    ∙ again a h (Bool-cases (k == key))
      where
        active :
            (a : ActiveAlert) → (silenced_locked path_match now a.issue false e).1.active ≡ e.active
        active a = active-silenced_locked path_match now a.issue false e

        again :
            (a : ActiveAlert)
            → lookup k e.active ≡ some a
            → (k == key ≡ true) ⊎ (k == key ≡ false)
            → owner_of
                (if k == key then some (record a { notified = true }) else lookup key e.active)
              ≡ own
        again a h (inr q) = rw q c
        again a h (inl q) = rw q (
            sym (ap owner_of h)
            ∙ ap (λ j. owner_of (lookup j e.active)) ((string_eq.test_iff k key).0 q)
            ∙ c)

    pub flush_deferred-Unmoved :
        (now : ℕ) (e : Engine)
        → Unmoved key own opts e
        → Unmoved key own opts (flush_deferred path_match now e).1
    flush_deferred-Unmoved now e c = record {
      owned =
          unfold flush_deferred in
          if_rule (λ (r : List Issue × Engine). owner key r.1 ≡ own) (is_some e.silences)
            (λ y.
              for_each-Owned key own (flush_one path_match now) (keys e.active) e
                (All-every _ (keys e.active) λ k d o. flush_one-Owned now k d o) c.owned)
            (λ n. c.owned);
      options = (flush_deferred-Keeps path_match now e).opts ∙ c.options;
    }
