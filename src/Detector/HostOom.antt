-- ===== src/Detector/HostOom.antt =====
-- internal/detector/hostoom.go. A reading of /proc/vmstat is given to `check`; a batch holds at least
-- one kill, as those that `Check` appends do.
pub mod Tally
pub mod Tests
use nodux.Base.{
  ℕ, ◌+◌, ◌-◌, Bool, true, false, not, ◌&&◌, ◌||◌, String, List, [], ◌∷◌, ◌++◌, Option, none, some,
  nat_eq, ◌==◌, if◌then◌else◌, ltb, leb, is_zero,
}
use nodux.Detector.Types.{Issue, Message, Part, literal, number, clock, no_issue, severity_critical}

-- What `readVmstat` returns: a count, an error that tells that there is no counter, or another error.
pub data Reading : Type 0 where
  counter : ℕ → Reading
  no_counter : Reading
  failed : Reading

pub record OomBatch : Type 0 where
  pub kills : ℕ
  pub seen : ℕ

pub record HostOomDetector : Type 0 where
  pub settle : ℕ
  pub cooldown : ℕ
  pub credits : List ℕ
  pub prev : ℕ
  pub have_prev : Bool
  pub disabled : Bool
  pub failing : Bool
  pub pending : List OomBatch
  pub confirmed : ℕ
  pub last_alert : ℕ

unfoldable pub new : ℕ → ℕ → HostOomDetector
new settle cooldown = record {
  settle = settle;
  cooldown = cooldown;
  credits = [];
  prev = 0;
  have_prev = false;
  disabled = false;
  failing = false;
  pending = [];
  confirmed = 0;
  last_alert = 0;
}

unfoldable pub container_oom : ℕ → HostOomDetector → HostOomDetector
container_oom now d = record d { credits = d.credits ++ now ∷ [] }

-- `d.pending[0].Kills--`, and the batch goes when it has no kill left.
abbrev pub take_kill : OomBatch → List OomBatch → List OomBatch
take_kill b bs = if is_zero (b.kills - 1) then bs else record b { kills = b.kills - 1 } ∷ bs

-- Container events against kills, oldest first.
unfoldable pub match_kills : List ℕ → List OomBatch → List ℕ × List OomBatch
match_kills [] pending = ([], pending)
match_kills (c ∷ cs) [] = (c ∷ cs, [])
match_kills (c ∷ cs) (b ∷ bs) = match_kills cs (take_kill b bs)

unfoldable pub expire_credits : ℕ → ℕ → List ℕ → List ℕ
expire_credits settle now [] = []
expire_credits settle now (c ∷ cs) =
    let rest = expire_credits settle now cs in if leb (c + settle) now then rest else c ∷ cs

-- The batches that have settled, into the kills of the host.
unfoldable pub confirm : ℕ → ℕ → List OomBatch → ℕ → List OomBatch × ℕ
confirm settle now [] n = ([], n)
confirm settle now (b ∷ bs) n =
    let rest = confirm settle now bs (n + b.kills) in
    if leb (b.seen + settle) now then rest else (b ∷ bs, n)

abbrev subject : ℕ → List Part
subject confirmed =
    if ltb 1 confirmed
    then literal "the kernel OOM killer killed "
      ∷ number confirmed
      ∷ literal " processes outside any container"
      ∷ []
    else literal "the kernel OOM killer killed a process outside any container" ∷ []

abbrev message : ℕ → ℕ → Message
message confirmed last_alert =
    subject confirmed
    ++ (if is_zero last_alert then [] else literal " since " ∷ clock last_alert ∷ [])
    ++ literal
        " (host memory ran out, or a non-Docker cgroup hit its limit); check the kernel log: journalctl -k | grep -i oom"
      ∷ []

-- `Check`, from where the kills have been confirmed.
unfoldable pub alert : ℕ → HostOomDetector → Option Issue × HostOomDetector
alert now d =
    if is_zero d.confirmed || (not (is_zero d.last_alert) && ltb now (d.last_alert + d.cooldown))
    then (none, d)
    else (
      some (record no_issue {
        detector = "host_oom";
        severity = severity_critical;
        message = message d.confirmed d.last_alert;
        resource = "oom_kill";
        detected_at = now;
      }),
      record d { confirmed = 0; last_alert = now },
    )

-- The new count, and the matching of both sides.
unfoldable pub count : ℕ → ℕ → HostOomDetector → HostOomDetector
count now n d =
    let pending =
      (if d.have_prev && ltb d.prev n
        then d.pending ++ record { kills = n - d.prev; seen = now } ∷ []
        else d.pending) in
    let (credits, left) = match_kills d.credits pending in
    let (unsettled, confirmed) = confirm d.settle now left d.confirmed in
    record d {
      failing = false;
      prev = n;
      have_prev = true;
      credits = expire_credits d.settle now credits;
      pending = unsettled;
      confirmed = confirmed;
    }

unfoldable pub check : ℕ → Reading → HostOomDetector → Option Issue × HostOomDetector
check now r d = if d.disabled then (none, d) else by_reading r
  where
    by_reading : Reading → Option Issue × HostOomDetector
    by_reading (counter n) = alert now (count now n d)
    by_reading no_counter = (none, record d { disabled = true })
    by_reading failed = (none, record d { failing = true })

pub record HostOomSaved : Type 0 where
  pub counter : ℕ
  pub pending : List OomBatch
  pub confirmed : ℕ
  pub last_alert : ℕ

-- `null` before the first reading.
unfoldable pub save_state : HostOomDetector → Option HostOomSaved
save_state d =
    if d.have_prev
    then some (record {
      counter = d.prev;
      pending = d.pending;
      confirmed = d.confirmed;
      last_alert = d.last_alert;
    })
    else none

unfoldable pub load_state : Option HostOomSaved → HostOomDetector → HostOomDetector
load_state none d = d
load_state (some sv) d = record d {
  prev = sv.counter;
  have_prev = true;
  pending = sv.pending;
  confirmed = sv.confirmed;
  last_alert = sv.last_alert;
}
