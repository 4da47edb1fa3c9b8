-- ===== src/Engine/Events.antt =====
-- internal/engine/engine.go, runEvents: the position in the event stream, and which of the events
-- that the daemon replays are handled. A time is `time.Unix(0, ev.TimeNano)`.
use nodux.Base.{
  ℕ, ◌+◌, ◌≡◌, ap₂, ◌∙◌, ◌≤◌, Bool, true, false, not, ◌&&◌, ◌||◌, String, List, [], ◌∷◌, string_eq,
  nat_eq, ◌==◌, arith, if◌then◌else◌, ltb, any, count,
}
use Prim.Native.String.{◌++◌ as str_append}

pub record StreamEvent : Type 0 where
  pub time : ℕ
  pub action : String
  pub actor_id : String

pub record Position : Type 0 where
  pub since : ℕ
  pub last : ℕ
  pub handled : List String

unfoldable pub event_key : StreamEvent → String
event_key ev = str_append (str_append ev.action "/") ev.actor_id

abbrev pub holds : List String → String → Bool
holds set key = any (λ k. k == key) set

-- The closure that `runEvents` hands to the client: whether `handleEvent` is called.
unfoldable pub accept : Position → StreamEvent → Bool × Position
accept p ev =
    if ltb ev.time p.last
    then (false, p)
    else if ev.time == p.last
    then (if holds p.handled (event_key ev)
        then (false, p)
        else (true, record p { handled = event_key ev ∷ p.handled; since = ev.time }))
    else (true, record { since = ev.time; last = ev.time; handled = event_key ev ∷ [] })

-- The events of a stream that are handled.
unfoldable pub consume : Position → List StreamEvent → List StreamEvent × Position
consume p [] = ([], p)
consume p (ev ∷ evs) =
    let (ok, p') = accept p ev in
    let (out, p'') = consume p' evs in ((if ok then ev ∷ out else out), p'')

-- An event that the position is past.
abbrev pub seen : Position → StreamEvent → Bool
seen p ev = ltb ev.time p.last || (ev.time == p.last && holds p.handled (event_key ev))

abbrev pub same_event : StreamEvent → StreamEvent → Bool
same_event a b = a.time == b.time && event_key a == event_key b

pub or_right : (a : Bool) {b : Bool} → b ≡ true → (a || b) ≡ true
or_right a h = ground arith

pub accept-seen : (p : Position) (ev : StreamEvent) → (accept p ev).0 ≡ not (seen p ev)
unfolding accept
accept-seen p ev = ground arith

-- An event is past after it, and what was past stays so.
pub seen-accept :
    (p : Position) (ev x : StreamEvent)
    → (seen p x || same_event x ev) ≡ true
    → seen (accept p ev).1 x ≡ true
unfolding accept any
seen-accept p ev x h = ground (
  arith,
  string_eq.test_iff (event_key x) (event_key ev),
  string_eq.test_iff (event_key ev) (event_key x),
)

-- An event becomes past only by itself, or by a later one.
seen_by_accept :
    (p : Position) (ev x : StreamEvent)
    → seen (accept p ev).1 x ≡ true
    → ev.time ≤ x.time
    → (seen p x || (not (seen p ev) && same_event ev x)) ≡ true
unfolding accept any
seen_by_accept p ev x h le = ground (
  arith,
  string_eq.test_iff (event_key x) (event_key ev),
  string_eq.test_iff (event_key ev) (event_key x),
)

pub seen-consume :
    (p : Position) (evs : List StreamEvent) (x : StreamEvent)
    → seen p x ≡ true
    → seen (consume p evs).1 x ≡ true
unfolding consume
seen-consume p [] x h = h
seen-consume p (ev ∷ evs) x h =
    seen-consume (accept p ev).1 evs x (seen-accept p ev x (ground arith))

abbrev pub occurs : StreamEvent → List StreamEvent → Bool
occurs x evs = any (same_event x) evs

-- The daemon sends events in the order of their times, from a given time on.
abbrev pub Ordered : ℕ → List StreamEvent → Type 0
Ordered lo [] = Unit
Ordered lo (ev ∷ evs) = (lo ≤ ev.time) × Ordered ev.time evs

pub occurs-Ordered :
    (lo : ℕ) (evs : List StreamEvent) (x : StreamEvent)
    → Ordered lo evs
    → occurs x evs ≡ true
    → lo ≤ x.time
unfolding any
occurs-Ordered lo [] x h o = ground arith
occurs-Ordered lo (ev ∷ evs) x h o = ground (arith, h.0, occurs-Ordered ev.time evs x h.1)

pub seen-same_event :
    (p : Position) (ev x : StreamEvent) → same_event x ev ≡ true → seen p x ≡ seen p ev
unfolding any
seen-same_event p ev x h = ground (arith, string_eq.test_iff (event_key x) (event_key ev))

-- A later event becomes past by no other event.
pub seen-accept_later :
    (p : Position) (ev x : StreamEvent)
    → ev.time ≤ x.time
    → same_event x ev ≡ false
    → seen (accept p ev).1 x ≡ seen p x
unfolding accept any
seen-accept_later p ev x le h = ground (
  arith,
  string_eq.test_iff (event_key x) (event_key ev),
  string_eq.test_iff (event_key ev) (event_key x),
)

count-handle :
    (q : StreamEvent → Bool) (b : Bool) (ev : StreamEvent) (out : List StreamEvent)
    → count q (if b then ev ∷ out else out) ≡ (if b && q ev then 1 else 0) + count q out
unfolding count
count-handle q b ev out = ground arith

-- One event after another, by what is known of the past.
handle_rule :
    (same se sx sx' occ : Bool)
    → (same ≡ true → sx ≡ se)
    → (same ≡ true → sx' ≡ true)
    → (same ≡ false → occ ≡ true → sx' ≡ sx)
    → (if not se && same then 1 else 0) + (if not sx' && occ then 1 else 0)
      ≡ (if not sx && (same || occ) then 1 else 0)
handle_rule same se sx sx' occ f g h = ground arith

-- One connection: each event that is not past is handled once.
pub count-consume :
    (p : Position) (evs : List StreamEvent) (lo : ℕ) (x : StreamEvent)
    → Ordered lo evs
    → count (same_event x) (consume p evs).0 ≡ (if not (seen p x) && occurs x evs then 1 else 0)
unfolding consume any count
count-consume p [] lo x h = ground arith
count-consume p (ev ∷ evs) lo x h =
    count-handle (same_event x) (accept p ev).0 ev (consume (accept p ev).1 evs).0
    ∙ ap₂ (λ b n. (if b && same_event x ev then 1 else 0) + n) (accept-seen p ev)
        (count-consume (accept p ev).1 evs ev.time x h.1)
    ∙ handle_rule (same_event x ev) (seen p ev) (seen p x) (seen (accept p ev).1 x) (occurs x evs)
        (seen-same_event p ev x) (λ e. seen-accept p ev x (or_right (seen p x) e))
        (λ ne o. seen-accept_later p ev x (occurs-Ordered ev.time evs x h.1 o) ne)
