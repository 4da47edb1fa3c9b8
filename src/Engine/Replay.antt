-- ===== src/Engine/Replay.antt =====
-- internal/engine/engine.go, runEvents: what is handled over a row of connections to the daemon, each
-- of which replays the events from `evSince` on.
use nodux.Base.{
  ℕ, ◌+◌, ◌≡◌, ap₂, ◌∙◌, ◌≤◌, Bool, true, not, ◌&&◌, ◌||◌, List, [], ◌∷◌, ◌++◌, string_eq, nat_eq,
  arith, if◌then◌else◌, any, count, count-append,
}
use nodux.Engine.Events.{
  StreamEvent, Position, accept, consume, seen, same_event, occurs, Ordered, event_key,
  occurs-Ordered, count-consume, seen-accept,
}

-- The rounds of the loop: the streams of the connections, one after another.
unfoldable pub connect : Position → List (List StreamEvent) → List StreamEvent × Position
connect p [] = ([], p)
connect p (evs ∷ rounds) =
    let (out, p') = consume p evs in let (outs, p'') = connect p' rounds in (out ++ outs, p'')

-- Each stream is in the order of its times and starts at `evSince`.
abbrev pub Replays : Position → List (List StreamEvent) → Type 0
Replays p [] = Unit
Replays p (evs ∷ rounds) = Ordered p.since evs × Replays (consume p evs).1 rounds

abbrev pub sent : StreamEvent → List (List StreamEvent) → Bool
sent x rounds = any (occurs x) rounds

abbrev pub IsStart : Position → Type 0
IsStart p = p.last ≤ p.since

accept-since :
    (p : Position) (ev : StreamEvent)
    → IsStart p
    → p.since ≤ ev.time
    → (p.since ≤ (accept p ev).1.since)
      × ((accept p ev).1.since ≤ ev.time)
      × IsStart (accept p ev).1
unfolding accept
accept-since p ev s le = (ground arith, ground arith, ground arith)

Ordered-le : (lo hi : ℕ) (evs : List StreamEvent) → lo ≤ hi → Ordered hi evs → Ordered lo evs
Ordered-le lo hi [] le h = tt
Ordered-le lo hi (ev ∷ evs) le h = (omega (arith, le, h.0), h.1)

consume-since :
    (p : Position) (evs : List StreamEvent)
    → IsStart p
    → Ordered p.since evs
    → (p.since ≤ (consume p evs).1.since) × IsStart (consume p evs).1
unfolding consume
consume-since p [] s h = (omega arith, s)
consume-since p (ev ∷ evs) s h =
    let (up, le, s') = accept-since p ev s h.0 in
    let (up', s'') =
      consume-since (accept p ev).1 evs s' (Ordered-le (accept p ev).1.since ev.time evs le h.1) in
    (omega (arith, up, up'), s'')

sent-Replays :
    (p : Position) (rounds : List (List StreamEvent)) (x : StreamEvent)
    → IsStart p
    → Replays p rounds
    → sent x rounds ≡ true
    → p.since ≤ x.time
unfolding any
sent-Replays p [] x s h o = ground arith
sent-Replays p (evs ∷ rounds) x s h o =
    let (up, s') = consume-since p evs s h.0 in
    ground
      (arith, up, occurs-Ordered p.since evs x h.0, sent-Replays (consume p evs).1 rounds x s' h.1)

seen_since_accept :
    (p : Position) (ev x : StreamEvent)
    → (accept p ev).1.since ≤ x.time
    → seen (accept p ev).1 x ≡ true
    → (seen p x || same_event x ev) ≡ true
unfolding accept any
seen_since_accept p ev x le e = ground (
  arith,
  string_eq.test_iff (event_key x) (event_key ev),
  string_eq.test_iff (event_key ev) (event_key x),
)

or_chain :
    (a b c d : Bool) → (b || d) ≡ true → (b ≡ true → (a || c) ≡ true) → (a || (c || d)) ≡ true
or_chain a b c d h f = ground arith

-- What is past at a position and not before its last time was past before, or came since.
seen_since :
    (p : Position) (evs : List StreamEvent) (x : StreamEvent)
    → IsStart p
    → Ordered p.since evs
    → (consume p evs).1.since ≤ x.time
    → seen (consume p evs).1 x ≡ true
    → (seen p x || occurs x evs) ≡ true
unfolding consume any
seen_since p [] x s h le e = ground (arith, e)
seen_since p (ev ∷ evs) x s h le e =
    let (up, before, s') = accept-since p ev s h.0 in
    let later = Ordered-le (accept p ev).1.since ev.time evs before h.1 in
    or_chain (seen p x) (seen (accept p ev).1 x) (same_event x ev) (occurs x evs)
      (seen_since (accept p ev).1 evs x s' later le e)
      (seen_since_accept p ev x (omega (arith, le, (consume-since (accept p ev).1 evs s' later).0)))

or_step :
    (a c d : Bool) {b : Bool}
    → (a || (c || d)) ≡ true
    → ((a || c) ≡ true → b ≡ true)
    → (b || d) ≡ true
or_step a c d h f = ground arith

seen-consumed :
    (p : Position) (evs : List StreamEvent) (x : StreamEvent)
    → (seen p x || occurs x evs) ≡ true
    → seen (consume p evs).1 x ≡ true
unfolding consume any
seen-consumed p [] x h = ground (arith, h)
seen-consumed p (ev ∷ evs) x h =
    seen-consumed (accept p ev).1 evs x
      (or_step (seen p x) (same_event x ev) (occurs x evs) h (seen-accept p ev x))

round_rule :
    (sx sx' here later : Bool)
    → ((sx || here) ≡ true → sx' ≡ true)
    → (later ≡ true → sx' ≡ true → (sx || here) ≡ true)
    → (if not sx && here then 1 else 0) + (if not sx' && later then 1 else 0)
      ≡ (if not sx && (here || later) then 1 else 0)
round_rule sx sx' here later f g = ground arith

-- However often the stream breaks and the daemon replays its events from `evSince` on, in the order
-- of their times: each event sent is handled once if the first position was not past it, and never
-- otherwise.
pub connect_handles_once :
    (p : Position) (rounds : List (List StreamEvent)) (x : StreamEvent)
    → IsStart p
    → Replays p rounds
    → count (same_event x) (connect p rounds).0 ≡ (if not (seen p x) && sent x rounds then 1 else 0)
unfolding connect any count
connect_handles_once p [] x s h = ground arith
connect_handles_once p (evs ∷ rounds) x s h =
    let (up, s') = consume-since p evs s h.0 in
    count-append (same_event x) (consume p evs).0 (connect (consume p evs).1 rounds).0
    ∙ ap₂ (λ m n. m + n) (count-consume p evs p.since x h.0)
        (connect_handles_once (consume p evs).1 rounds x s' h.1)
    ∙ round_rule (seen p x) (seen (consume p evs).1 x) (occurs x evs) (sent x rounds)
        (seen-consumed p evs x)
        (λ o e. seen_since p evs x s h.0 (sent-Replays (consume p evs).1 rounds x s' h.1 o) e)
