-- ===== src/Engine/Loops/Daemon.antt =====
-- internal/engine/engine.go, dockerDown and dockerUp in runPoll: when the alert about the daemon is open.
use nodux.Base.{
  ℕ, ◌+◌, ◌≤◌, ◌≡◌, refl, ap, sym, subst, ◌∙◌, Bool, true, false, ◌||◌, List, [], ◌∷◌, Option, none,
  some, if_rule, arith, All, ltb, is_zero, or_else, nat_eq, string_eq,
}
use nodux.Dict.{lookup, lookup-insert_self}
use nodux.Detector.Types.{Issue, severity_rank}
use nodux.Engine.{Engine, ActiveAlert, Options}
use nodux.Engine.Track.{track, track_at, track_locked, track_case, open_episode, escalate}
use nodux.Engine.Sets.{is_open, open-ended}
use nodux.Engine.Keeps.{track-Keeps}
use nodux.Engine.Held.{owner, owner_of}
use nodux.Engine.Report.{report}
use nodux.Engine.Handle.{report_to}
use nodux.Engine.Notice.{State}
use nodux.Engine.Look.{Polled}
use nodux.Engine.Poll.Held.{AllNamed, poll_once-Held, poll_once-last_seen}
use nodux.Engine.Loops.{
  Loops, PollLoop, down_from, daemon_key, daemon_issue, report_host, docker_down, docker_up,
  after_poll, check_host, flush, poll_round,
}
use nodux.Engine.Loops.Held.{check_host-Held, flush-Held}
use nodux.Engine.Loops.Outage.{
  daemon_open, polling, next_outage, run_polls, outage, first_of, Past, is_long, Advances, IsPlain,
  owned_when, owner-open, owner-closed, named-other, fresh,
}

module _ {D : Type 0} (w : Loops D) where
  open-track_ended :
      (now : ℕ) (e : Engine)
      → is_open daemon_key (track w.rounds.watch.path_match now daemon_key none none e).1 ≡ false
  unfolding track track_at
  open-track_ended now e =
      rw (fresh (lookup daemon_key e.active))
        (open-ended w.rounds.watch.path_match now daemon_key e daemon_key ∙ ground arith)

  -- Reported, the problem is open, with the container that it had or else that of the report.
  owner-track_reported :
      (now : ℕ) (i : Issue) (e : Engine)
      → owner daemon_key (track w.rounds.watch.path_match now daemon_key (some i) none e).1
        ≡ some (or_else (owner daemon_key e) i.container.id)
  unfolding track track_at track_locked
  owner-track_reported now i e = by_case (lookup daemon_key e.active) refl
    where
      by_case :
          (o : Option ActiveAlert)
          → lookup daemon_key e.active ≡ o
          → owner daemon_key
              (track_case w.rounds.watch.path_match now daemon_key (some i) none o e).1
            ≡ some (or_else (owner_of o) i.container.id)
      by_case none h =
          unfold track_case open_episode in ap owner_of (lookup-insert_self daemon_key _ _)
      by_case (some a) h =
          unfold track_case in
          if_rule (λ (r : Option Issue × Engine). owner daemon_key r.1 ≡ some a.container_id)
            (ltb (severity_rank a.issue.severity) (severity_rank i.severity))
            (λ y. unfold escalate in ap owner_of (lookup-insert_self daemon_key _ _))
            (λ n. ap owner_of h)

  owner-report_host :
      (o : Option Issue) (s : State D)
      → (owner daemon_key (report_host w o s).engine ≡ owner daemon_key s.engine)
        × ((report_host w o s).engine.opts ≡ s.engine.opts)
  unfolding report_host report_to report
  owner-report_host none s = (refl, refl)
  owner-report_host (some i) s = (refl, refl)

  owner-docker_up :
      (now : ℕ) (s : State D)
      → (owner daemon_key (docker_up w now s).engine ≡ none)
        × ((docker_up w now s).engine.opts ≡ s.engine.opts)
  unfolding docker_up
  owner-docker_up now s =
      let out = track w.rounds.watch.path_match now daemon_key none none s.engine in
      let told = owner-report_host out.0 (record s { engine = out.1 }) in
      (
        told.0 ∙ owner-closed (lookup daemon_key out.1.active) (open-track_ended now s.engine),
        told.1 ∙ (track-Keeps w.rounds.watch.path_match now daemon_key none none s.engine).opts,
      )

  owner-docker_down :
      (now since : ℕ) (b : Bool) (s : State D)
      → owner daemon_key s.engine ≡ owned_when b
      → (owner daemon_key (docker_down w now since s).engine
          ≡ owned_when (b || is_long s.engine.opts.docker_down_after (some (since, now))))
        × ((docker_down w now since s).engine.opts ≡ s.engine.opts)
  unfolding docker_down
  owner-docker_down now since b s held =
      let i = daemon_issue now since w.error in
      let out = track w.rounds.watch.path_match now daemon_key (some i) none s.engine in
      let told = owner-report_host out.0 (record s { engine = out.1 }) in
      let after = s.engine.opts.docker_down_after in
      if_rule
        (λ (d : State D).
          (owner daemon_key d.engine ≡ owned_when (b || is_long after (some (since, now))))
          × (d.engine.opts ≡ s.engine.opts))
        (is_zero after || ltb now (since + after))
        (λ early. (held ∙ ap owned_when (not_long after early), refl))
        (λ late. (
          told.0
              ∙ owner-track_reported now i s.engine
              ∙ ap (λ o. some (or_else o i.container.id)) held
              ∙ no_container_id b
              ∙ ap owned_when (sym (long after late)),
          told.1
              ∙ (track-Keeps w.rounds.watch.path_match now daemon_key (some i) none s.engine).opts,
        ))
    where
      not_long :
          (after : ℕ)
          → (is_zero after || ltb now (since + after)) ≡ true
          → b ≡ (b || is_long after (some (since, now)))
      not_long after h = ground arith

      long :
          (after : ℕ)
          → (is_zero after || ltb now (since + after)) ≡ false
          → (b || is_long after (some (since, now))) ≡ true
      long after h = ground arith

      no_container_id :
          (b : Bool)
          → some (or_else (owned_when b) (daemon_issue now since w.error).container.id) ≡ some ""
      no_container_id true = refl
      no_container_id false = unfold daemon_issue in refl

  -- What the loop knows after some rounds.
  record Knows (after lo : ℕ) (out : Option (ℕ × ℕ)) (l : PollLoop D) : Type 0 where
    since : l.down_since ≡ first_of out
    held : owner daemon_key l.polled.state.engine ≡ owned_when (is_long after out)
    options : l.polled.state.engine.opts.docker_down_after ≡ after
    past : Past lo out

  after_poll-Knows :
      (after lo now : ℕ) (out : Option (ℕ × ℕ)) (ok : Bool) (p : Polled D) (l : PollLoop D)
      → lo ≤ now
      → Past lo out
      → l.down_since ≡ first_of out
      → owner daemon_key p.state.engine ≡ owned_when (is_long after out)
      → p.state.engine.opts.docker_down_after ≡ after
      → Knows after now (next_outage out ok now) (after_poll w now ok p l)
  unfolding after_poll
  after_poll-Knows after lo now out true p l le past since held options =
      let up = owner-docker_up now p.state in
      record {
        since = refl;
        held = up.0;
        options = ap (λ (o : Options). o.docker_down_after) up.1 ∙ options;
        past = tt;
      }
  after_poll-Knows after lo now none false p l le past since held options =
      let first = ap (λ (d : Option ℕ). down_from d now) since in
      let down = owner-docker_down now (down_from l.down_since now) false p.state held in
      record {
        since = ap some first;
        held = down.0 ∙ ap owned_when (ground (arith, first, options));
        options = ap (λ (o : Options). o.docker_down_after) down.1 ∙ options;
        past = omega arith;
      }
  after_poll-Knows after lo now (some (t, last)) false p l le past since held options =
      let first = ap (λ (d : Option ℕ). down_from d now) since in
      let b = is_long after (some (t, last)) in
      let down = owner-docker_down now (down_from l.down_since now) b p.state held in
      record {
        since = ap some first;
        held = down.0 ∙ ap owned_when (ground (arith, first, options));
        options = ap (λ (o : Options). o.docker_down_after) down.1 ∙ options;
        past = omega arith;
      }

  after_poll-last_seen :
      (now : ℕ) (ok : Bool) (p : Polled D) (l : PollLoop D)
      → (after_poll w now ok p l).polled.last_seen ≡ p.last_seen
  unfolding after_poll
  after_poll-last_seen now true p l = refl
  after_poll-last_seen now false p l = refl

  -- A round, for what is known before it.
  poll_round-Knows :
      (after lo now : ℕ) (out : Option (ℕ × ℕ)) (l : PollLoop D)
      → IsPlain w
      → AllNamed l.polled.last_seen
      → lo ≤ now
      → l.down_since ≡ first_of out
      → owner daemon_key l.polled.state.engine ≡ owned_when (is_long after out)
      → l.polled.state.engine.opts.docker_down_after ≡ after
      → Past lo out
      → Knows after now (next_outage out (polling w now l).0 now) (poll_round w now l)
        × AllNamed (poll_round w now l).polled.last_seen
  unfolding poll_round
  poll_round-Knows after lo now out l plain named le since held options past =
      let own = owned_when (is_long after out) in
      let opts = l.polled.state.engine.opts in
      let checked =
        check_host-Held w daemon_key own opts now l.polled.state plain.host
          (record { owned = held; options = refl }) in
      let start = record l.polled { state = flush w now (check_host w now l.polled.state) } in
      let after_body =
        poll_once-Held w.rounds daemon_key own opts now start plain.container refl
          (named-other (is_long after out) l.polled.last_seen named)
          (flush-Held w daemon_key own opts now (check_host w now l.polled.state) checked) in
      (
        after_poll-Knows after lo now out (polling w now l).0 (polling w now l).1 l le past since
            after_body.owned
            (ap (λ (o : Options). o.docker_down_after) after_body.options ∙ options),
        subst AllNamed (sym (after_poll-last_seen now (polling w now l).0 (polling w now l).1 l))
            (poll_once-last_seen w.rounds now start plain.lists named),
      )

module _ {D : Type 0} where
  run_polls-Knows :
      (after lo : ℕ) (out : Option (ℕ × ℕ)) (ps : List (Loops D × ℕ)) (l : PollLoop D)
      → All (λ p. IsPlain p.0) ps
      → Advances lo ps
      → AllNamed l.polled.last_seen
      → l.down_since ≡ first_of out
      → owner daemon_key l.polled.state.engine ≡ owned_when (is_long after out)
      → l.polled.state.engine.opts.docker_down_after ≡ after
      → Past lo out
      → daemon_open (run_polls ps l).polled ≡ is_long after (outage out ps l)
  unfolding run_polls
  run_polls-Knows after lo out [] l plain adv named since held options past =
      owner-open (is_long after out) (lookup daemon_key l.polled.state.engine.active) held
  run_polls-Knows after lo out ((w, now) ∷ ps) l plain adv named since held options past =
      let (k, named') =
        poll_round-Knows w after lo now out l plain.0 named adv.0 since held options past in
      run_polls-Knows after now (next_outage out (polling w now l).0 now) ps (poll_round w now l)
        plain.1 adv.1 named' k.since k.held k.options k.past

-- The alert about the daemon is open after a round of the loop exactly if the polls since the last one that worked
-- all failed, and the time from the first to the last of them has reached the configured time, which is not
-- zero. The loop starts with the daemon up and its alert closed, the clock does not go back, no detector's
-- name leads to the daemon's key, and the containers that the daemon lists have identifiers.
pub run_polls-daemon_open :
    {D : Type 0} (ps : List (Loops D × ℕ)) (l : PollLoop D)
    → All (λ p. IsPlain p.0) ps
    → Advances 0 ps
    → AllNamed l.polled.last_seen
    → l.down_since ≡ none
    → daemon_open l.polled ≡ false
    → daemon_open (run_polls ps l).polled
      ≡ is_long l.polled.state.engine.opts.docker_down_after (outage none ps l)
run_polls-daemon_open ps l plain adv named since closed =
    run_polls-Knows l.polled.state.engine.opts.docker_down_after 0 none ps l plain adv named since
      (owner-closed (lookup daemon_key l.polled.state.engine.active) closed) refl tt
