-- ===== src/Engine/Keeps.antt =====
-- internal/engine/engine.go: what tracks episodes queues nothing and changes no option.
use nodux.Base.{
  ℕ, ◌≡◌, refl, ◌∙◌, Bool, true, false, string_eq, String, List, [], ◌∷◌, Option, none, some,
  if_rule, option_rule, arith,
}
use nodux.Dict.{lookup}
use nodux.Detector.Types.{Issue, ContainerSnapshot, ContainerEvent}
use nodux.Engine.{Engine, ActiveAlert}
use nodux.Engine.Track.{
  silenced_locked, is_silenced, open_episode, escalate, close_episode, track_case, track_locked,
  track_at, track, track_set, for_each, resolve_one, resolve_container, flush_one, flush_deferred,
  set_key, keys,
}
use nodux.Engine.Upkeep.{cooling_down, note_run, prune_images}

pub record Keeps (e e' : Engine) : Type 0 where
  pub queue : e'.queue ≡ e.queue
  pub opts : e'.opts ≡ e.opts

pub Keeps-trans : {e e' e'' : Engine} → Keeps e e' → Keeps e' e'' → Keeps e e''
Keeps-trans k l = record { queue = l.queue ∙ k.queue; opts = l.opts ∙ k.opts }

-- A round keeps the engine.
abbrev Round : Engine → Option Issue × Engine → Type 0
Round e r = Keeps e r.1

for_each-Keeps {ℓ} :
    {A : Type ℓ} (f : A → Engine → Option Issue × Engine) (xs : List A) (e : Engine)
    → ((x : A) (d : Engine) → Keeps d (f x d).1)
    → Keeps e (for_each f xs e).1
unfolding for_each
for_each-Keeps f [] e h = record { queue = refl; opts = refl }
for_each-Keeps f (x ∷ xs) e h = Keeps-trans (h x e) (for_each-Keeps f xs (f x e).1 h)

pub resolve_container-Keeps :
    (now : ℕ) (id : String) (e : Engine) → Keeps e (resolve_container now id e).1
unfolding resolve_container
resolve_container-Keeps now id e = for_each-Keeps (resolve_one now id) (keys e.active) e one
  where
    one : (k : String) (d : Engine) → Keeps d (resolve_one now id k d).1
    one k d =
        unfold resolve_one in
        option_rule (Round d) (lookup k d.active) (λ h. record { queue = refl; opts = refl })
          λ a h.
            if_rule (Round d) _ (λ y. record { queue = refl; opts = refl })
              (λ n. record { queue = refl; opts = refl })

pub cooling_down-Keeps :
    (now : ℕ) (issue : Issue) (e : Engine) → Keeps e (cooling_down now issue e).1
unfolding cooling_down
cooling_down-Keeps now issue e = ground arith

pub note_run-Keeps : (ev : ContainerEvent) (e : Engine) → Keeps e (note_run ev e)
unfolding note_run
note_run-Keeps ev e = ground arith

pub prune_images-Keeps : (now : ℕ) (e : Engine) → Keeps e (prune_images now e)
unfolding prune_images
prune_images-Keeps now e = ground arith

module _ (path_match : String → String → Option Bool) where
  pub silenced_locked-Keeps :
      (now : ℕ) (issue : Issue) (one_off : Bool) (e : Engine)
      → Keeps e (silenced_locked path_match now issue one_off e).1
  unfolding silenced_locked
  silenced_locked-Keeps now issue one_off e = ground arith

  pub is_silenced-Keeps :
      (now : ℕ) (issue : Issue) (e : Engine) → Keeps e (is_silenced path_match now issue e).1
  unfolding is_silenced
  is_silenced-Keeps now issue e = silenced_locked-Keeps now issue true e

  track_case-Keeps :
      (now : ℕ) (k : String) (i : Option Issue) (current : Option ContainerSnapshot)
      (o : Option ActiveAlert) (e : Engine)
      → Keeps e (track_case path_match now k i current o e).1
  unfolding track_case open_episode escalate close_episode
  track_case-Keeps now k (some i) current none e =
      let held = silenced_locked-Keeps now (record i { key = k }) false e in
      record { queue = held.queue; opts = held.opts }
  track_case-Keeps now k (some i) current (some a) e =
      if_rule (Round e) _
        (λ y.
          let held = silenced_locked-Keeps now (record i { key = k }) false e in
          record { queue = held.queue; opts = held.opts })
        (λ n. record { queue = refl; opts = refl })
  track_case-Keeps now k none current (some a) e = record { queue = refl; opts = refl }
  track_case-Keeps now k none current none e = record { queue = refl; opts = refl }

  pub track_at-Keeps :
      (now : ℕ) (k : String) (i : Option Issue) (current : Option ContainerSnapshot) (at : ℕ)
      (e : Engine)
      → Keeps e (track_at path_match now k i current at e).1
  unfolding track_at track_locked
  track_at-Keeps now k i current at e =
      if_rule (Round e) _ (λ y. record { queue = refl; opts = refl })
        (λ n. track_case-Keeps now k i current (lookup k e.active) e)

  pub track-Keeps :
      (now : ℕ) (k : String) (i : Option Issue) (current : Option ContainerSnapshot) (e : Engine)
      → Keeps e (track path_match now k i current e).1
  unfolding track
  track-Keeps now k i current e = track_at-Keeps now k i current 0 e

  pub track_set-Keeps :
      (now : ℕ) (name : String) (issues : List Issue) (id : Issue → String) (e : Engine)
      → Keeps e (track_set path_match now name issues id e).1
  unfolding track_set track_locked
  track_set-Keeps now name issues id e =
      Keeps-trans
        (for_each-Keeps (λ i. track_locked path_match now (set_key name id i) (some i) none) issues
          e
          λ i d.
            track_case-Keeps now (set_key name id i) (some i) none
              (lookup (set_key name id i) d.active) d)
        (for_each-Keeps (λ k. track_locked path_match now k none none) _ _
          λ k d. track_case-Keeps now k none none (lookup k d.active) d)

  pub flush_deferred-Keeps : (now : ℕ) (e : Engine) → Keeps e (flush_deferred path_match now e).1
  unfolding flush_deferred
  flush_deferred-Keeps now e =
      if_rule (λ (r : List Issue × Engine). Keeps e r.1) _
        (λ y. for_each-Keeps (flush_one path_match now) (keys e.active) e one)
        (λ n. record { queue = refl; opts = refl })
    where
      one : (k : String) (d : Engine) → Keeps d (flush_one path_match now k d).1
      one k d =
          unfold flush_one in
          option_rule (Round d) (lookup k d.active) (λ h. record { queue = refl; opts = refl })
            λ a h.
              if_rule (Round d) a.notified (λ y. record { queue = refl; opts = refl })
                λ n.
                  if_rule (Round d) (silenced_locked path_match now a.issue false d).0
                    (λ y. silenced_locked-Keeps now a.issue false d)
                    (λ z.
                      let held = silenced_locked-Keeps now a.issue false d in
                      record { queue = held.queue; opts = held.opts })
