-- ===== src/Engine/Loops/Outage.antt =====
-- internal/engine/engine.go, runPoll: rounds of the poll loop, and the outages that they see.
use nodux.Base.{
  ℕ, ◌+◌, ◌≤◌, ◌≡◌, ◌≢◌, refl, sym, Bool, true, false, not, ◌&&◌, String, List, [], ◌∷◌, Option,
  none, some, All, leb, is_zero, is_some, nat_eq, string_eq,
}
use mathlib.Core.Option.{some-injective}
use nodux.Engine.{ActiveAlert}
use nodux.Engine.Track.{is_stale}
use nodux.Engine.Sets.{is_open}
use nodux.Engine.Held.{Foreign, owner_of}
use nodux.Engine.Look.{Polled}
use nodux.Engine.Poll.{poll_once}
use nodux.Engine.Poll.Held.{AllNamed, Lists}
use nodux.Engine.Loops.{Loops, PollLoop, daemon_key, check_host, flush, poll_round}

abbrev pub daemon_open : {D : Type 0} → Polled D → Bool
daemon_open p = is_open daemon_key p.state.engine

-- What a round of the loop does before it handles the outcome of its poll, and whether the daemon answered.
abbrev pub polling : {D : Type 0} → Loops D → ℕ → PollLoop D → Bool × Polled D
polling w now l =
    poll_once w.rounds now
      (record l.polled { state = flush w now (check_host w now l.polled.state) })

-- The polls that failed since the last one that worked: the times of the first and the last.
abbrev pub next_outage : Option (ℕ × ℕ) → Bool → ℕ → Option (ℕ × ℕ)
next_outage out true now = none
next_outage none false now = some (now, now)
next_outage (some (first, last)) false now = some (first, now)

-- Rounds of the loop, each with its own answers of the daemon and its time.
unfoldable pub run_polls : {D : Type 0} → List (Loops D × ℕ) → PollLoop D → PollLoop D
run_polls [] l = l
run_polls ((w, now) ∷ ps) l = run_polls ps (poll_round w now l)

abbrev pub outage : {D : Type 0} → Option (ℕ × ℕ) → List (Loops D × ℕ) → PollLoop D → Option (ℕ × ℕ)
outage out [] l = out
outage out ((w, now) ∷ ps) l =
    outage (next_outage out (polling w now l).0 now) ps (poll_round w now l)

abbrev pub first_of : Option (ℕ × ℕ) → Option ℕ
first_of none = none
first_of (some (first, last)) = some first

abbrev pub Past : ℕ → Option (ℕ × ℕ) → Type 0
Past lo none = Unit
Past lo (some (first, last)) = last ≤ lo

-- It lasts for the configured time, and there is one.
abbrev pub is_long : ℕ → Option (ℕ × ℕ) → Bool
is_long after none = false
is_long after (some (first, last)) = not (is_zero after) && leb (first + after) last

-- The clock does not go back.
abbrev pub Advances : {D : Type 0} → ℕ → List (Loops D × ℕ) → Type 0
Advances lo [] = Unit
Advances lo ((w, now) ∷ ps) = (lo ≤ now) × Advances now ps

-- The detectors use other keys than the daemon's alert, and the containers that are listed have identifiers.
pub record IsPlain {D : Type 0} (w : Loops D) : Type 0 where
  pub host : All (λ d. Foreign daemon_key d.name) w.host_detectors
  pub container : All (λ d. Foreign daemon_key d.name) w.rounds.detectors
  pub lists : Lists w.rounds.list_containers

-- The container of the daemon's episode, which is open or not.
abbrev pub owned_when : Bool → Option String
owned_when true = some ""
owned_when false = none

pub owner-open : (b : Bool) (o : Option ActiveAlert) → owner_of o ≡ owned_when b → is_some o ≡ b
owner-open true none h = absurd (cc h)
owner-open true (some a) h = refl
owner-open false none h = refl
owner-open false (some a) h = absurd (cc h)

pub owner-closed : (o : Option ActiveAlert) → is_some o ≡ false → owner_of o ≡ none
owner-closed none h = refl
owner-closed (some a) h = absurd (cc h)

pub named-other :
    (b : Bool) (ids : List String) → AllNamed ids → All (λ id. owned_when b ≢ some id) ids
named-other b [] h = tt
named-other true (id ∷ ids) h = (λ e. h.0 (sym (some-injective "" id e)), named-other true ids h.1)
named-other false (id ∷ ids) h = (λ e. absurd (cc e), named-other false ids h.1)

-- Without a time of observation nothing is stale.
pub fresh : (o : Option ActiveAlert) → is_stale 0 none o ≡ false
fresh none = refl
fresh (some a) = refl
