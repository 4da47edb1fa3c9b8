-- ===== src/Engine/Persist/Resume.antt =====
-- internal/engine/persist.go: where the event stream goes on after a restart.
use nodux.Base.{
  ℕ, ◌≡◌, refl, ap, ap₂, ◌∙◌, ◌-◌, ◌≤◌, ◌<◌, Bool, String, List, [], ◌∷◌, ◌++◌, any, if◌then◌else◌,
  ◌==◌, nat_eq, string_eq, str_lt, arith, ◌||◌,
}
use nodux.Sort.{sort_by, insert_by}
use nodux.Engine.Events.{StreamEvent, Position, event_key, holds, accept, consume}
use nodux.Engine.Replay.{connect}
use nodux.Engine.Persist.{saved_events, restore_events, max_replay}

-- Positions that tell the same events apart.
abbrev pub Alike : Position → Position → Type 0
Alike p q =
    (p.since ≡ q.since)
    × (p.last ≡ q.last)
    × ((key : String) → holds p.handled key ≡ holds q.handled key)

any-insert_by :
    (less : String → String → Bool) (key x : String) (xs : List String)
    → holds (insert_by less x xs) key ≡ holds (x ∷ xs) key
unfolding insert_by any
any-insert_by less key x [] = refl
any-insert_by less key x (y ∷ ys) = ground (arith, any-insert_by less key x ys)

any-sort_by :
    (less : String → String → Bool) (key : String) (xs : List String)
    → holds (sort_by less xs) key ≡ holds xs key
unfolding sort_by any
any-sort_by less key [] = refl
any-sort_by less key (x ∷ xs) =
    any-insert_by less key x (sort_by less xs) ∙ ap (λ b. (x == key) || b) (any-sort_by less key xs)

Alike-accept :
    (p q : Position) (ev : StreamEvent)
    → Alike p q
    → ((accept p ev).0 ≡ (accept q ev).0) × Alike (accept p ev).1 (accept q ev).1
unfolding accept any
Alike-accept p q ev h = (
  ground (arith, h.0, h.1, h.2 (event_key ev)),
  (
    ground (arith, h.0, h.1, h.2 (event_key ev)),
    ground (arith, h.0, h.1, h.2 (event_key ev)),
    λ key. ground (arith, h.0, h.1, h.2 (event_key ev), h.2 key),
  ),
)

Alike-consume :
    (p q : Position) (evs : List StreamEvent)
    → Alike p q
    → ((consume p evs).0 ≡ (consume q evs).0) × Alike (consume p evs).1 (consume q evs).1
unfolding consume
Alike-consume p q [] h = (refl, h)
Alike-consume p q (ev ∷ evs) h =
    let (same, alike) = Alike-accept p q ev h in
    let (out, rest) = Alike-consume (accept p ev).1 (accept q ev).1 evs alike in
    (ap₂ (λ b out. if b then ev ∷ out else out) same out, rest)

Alike-connect :
    (p q : Position) (rounds : List (List StreamEvent))
    → Alike p q
    → (connect p rounds).0 ≡ (connect q rounds).0
unfolding connect
Alike-connect p q [] h = refl
Alike-connect p q (evs ∷ rounds) h =
    let (out, alike) = Alike-consume p q evs h in
    ap₂ (λ a b. a ++ b) out (Alike-connect (consume p evs).1 (consume q evs).1 rounds alike)

-- The position that a restart finds.
abbrev pub resumed : ℕ → Position → Position
resumed now p = restore_events now (saved_events p)

resumed-Alike :
    (now : ℕ) (p : Position)
    → p.since ≡ p.last
    → 0 < p.since
    → p.since ≤ now
    → now - p.since ≤ max_replay
    → Alike (resumed now p) p
unfolding restore_events saved_events
resumed-Alike now p same pos le recent = (
  ground (arith, same, pos, le, recent),
  ground (arith, same, pos, le, recent),
  λ key. ground (arith, same, pos, le, recent, any-sort_by str_lt key p.handled),
)

-- A restart within an hour of the last event that was handled, by a clock that has not gone back, changes
-- nothing: from whatever streams follow, the events that are handled are those that would have been
-- handled without the restart.
pub connect-resumed :
    (now : ℕ) (p : Position) (rounds : List (List StreamEvent))
    → p.since ≡ p.last
    → 0 < p.since
    → p.since ≤ now
    → now - p.since ≤ max_replay
    → (connect (resumed now p) rounds).0 ≡ (connect p rounds).0
connect-resumed now p rounds same pos le recent =
    Alike-connect (resumed now p) p rounds (resumed-Alike now p same pos le recent)
