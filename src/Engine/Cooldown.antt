-- ===== src/Engine/Cooldown.antt =====
-- internal/engine/engine.go, coolingDown: one alert of a kind passes in a cooldown.
use nodux.Base.{
  ℕ, ◌≡◌, ap, ◌∙◌, ◌+◌, ◌<◌, true, false, String, List, [], ◌∷◌, some, string_eq, nat_eq, ltb, All,
  arith,
}
use nodux.Dict.{
  lookup, Distinct, kept, lookup-insert, lookup-insert_self, lookup-retain, Distinct-insert,
  Distinct-retain,
}
use nodux.Detector.Types.{Issue}
use nodux.Engine.{Engine}
use nodux.Engine.Upkeep.{cooling_down, cooldown_key, recent}

-- The one-off alerts of the loops, each with the time of its call.
unfoldable pub cool_all : List (ℕ × Issue) → Engine → Engine
cool_all [] e = e
cool_all ((now, i) ∷ calls) e = cool_all calls (cooling_down now i e).1

-- Before a time.
abbrev pub AllBefore : ℕ → List (ℕ × Issue) → Type 0
AllBefore t calls = All (λ c. c.0 < t) calls

-- What stays the same over a call, and what the call leaves of an alert that is held.
kept-cooling_down :
    (now : ℕ) (i : Issue) (e : Engine)
    → Distinct e.last_alert
    → Distinct (cooling_down now i e).1.last_alert
      × ((cooling_down now i e).1.opts.alert_cooldown ≡ e.opts.alert_cooldown)
unfolding cooling_down
kept-cooling_down now i e d =
    let rest = Distinct-retain (λ k t. ltb now (t + e.opts.alert_cooldown)) e.last_alert d in
    (ground (arith, rest, Distinct-insert (cooldown_key i) now (recent now e) rest), ground arith)

lookup-recent :
    (now t : ℕ) (e : Engine) (key : String)
    → Distinct e.last_alert
    → lookup key e.last_alert ≡ some t
    → now < t + e.opts.alert_cooldown
    → lookup key (recent now e) ≡ some t
lookup-recent now t e key d h lt =
    lookup-retain (λ k t. ltb now (t + e.opts.alert_cooldown)) key e.last_alert d
    ∙ ap (kept (λ k t. ltb now (t + e.opts.alert_cooldown)) key) h
    ∙ ground arith

held :
    (now t : ℕ) (i : Issue) (e : Engine) (key : String)
    → Distinct e.last_alert
    → lookup key e.last_alert ≡ some t
    → now < t + e.opts.alert_cooldown
    → lookup key (cooling_down now i e).1.last_alert ≡ some t
unfolding cooling_down
held now t i e key d h lt = ground (
  arith,
  lookup-recent now t e key d h lt,
  lookup-insert (cooldown_key i) key now (recent now e),
  string_eq.test_iff (cooldown_key i) key,
)

held_all :
    (calls : List (ℕ × Issue)) (t limit : ℕ) (e : Engine) (key : String)
    → Distinct e.last_alert
    → lookup key e.last_alert ≡ some t
    → limit ≡ t + e.opts.alert_cooldown
    → AllBefore limit calls
    → Distinct (cool_all calls e).last_alert
      × (lookup key (cool_all calls e).last_alert ≡ some t)
      × (limit ≡ t + (cool_all calls e).opts.alert_cooldown)
unfolding cool_all
held_all [] t limit e key d h l b = (d, h, l)
held_all ((now, i) ∷ calls) t limit e key d h l b =
    let (d', same) = kept-cooling_down now i e d in
    held_all calls t limit (cooling_down now i e).1 key d'
      (held now t i e key d h (omega (arith, l, b.0))) (omega (arith, l, same)) b.1

passed :
    (t : ℕ) (i : Issue) (e : Engine)
    → 0 < e.opts.alert_cooldown
    → (cooling_down t i e).0 ≡ false
    → lookup (cooldown_key i) (cooling_down t i e).1.last_alert ≡ some t
unfolding cooling_down
passed t i e pos h = ground (arith, h, pos, lookup-insert_self (cooldown_key i) t (recent t e))

suppressed :
    (now t : ℕ) (j : Issue) (e : Engine)
    → Distinct e.last_alert
    → lookup (cooldown_key j) e.last_alert ≡ some t
    → now < t + e.opts.alert_cooldown
    → (cooling_down now j e).0 ≡ true
unfolding cooling_down
suppressed now t j e d h lt = ground (arith, lookup-recent now t e (cooldown_key j) d h lt)

-- Where a cooldown is set: after an alert has passed, whatever one-off alerts follow, no alert of the
-- same detector about the same container passes until the cooldown is over.
pub cooling_down-cool_all :
    (t now : ℕ) (i j : Issue) (calls : List (ℕ × Issue)) (e : Engine)
    → Distinct e.last_alert
    → 0 < e.opts.alert_cooldown
    → (cooling_down t i e).0 ≡ false
    → AllBefore (t + e.opts.alert_cooldown) calls
    → now < t + e.opts.alert_cooldown
    → cooldown_key j ≡ cooldown_key i
    → (cooling_down now j (cool_all calls (cooling_down t i e).1)).0 ≡ true
cooling_down-cool_all t now i j calls e d pos h b lt same =
    let (d', opts) = kept-cooling_down t i e d in
    let (d'', there, limit) =
      held_all calls t (t + e.opts.alert_cooldown) (cooling_down t i e).1 (cooldown_key i) d'
        (passed t i e pos h) (omega (arith, opts)) b in
    suppressed now t j (cool_all calls (cooling_down t i e).1) d''
      (ap (λ k. lookup k (cool_all calls (cooling_down t i e).1).last_alert) same ∙ there)
      (omega (arith, lt, limit))
