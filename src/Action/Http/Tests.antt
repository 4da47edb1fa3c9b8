-- ===== src/Action/Http/Tests.antt =====
-- internal/action/http.go on an endpoint that is down at first.
use nodux.Base.{
  ℕ, ◌≡◌, refl, ◌+◌, ◌*◌, ◌≤◌, false, String, List, [], ◌∷◌, ◌++◌, none, some, arith, length, leb,
  if◌then◌else◌,
}
use nodux.Action.Route.{Notification}
use nodux.Action.Http.{
  status, posted, waited, World, HttpAction, new_http_action, close, http_attempts, http_queue_size,
  deliver, second, send, attempts, deliver_all, deliver_body, process, worker, post,
}
use nodux.Action.Http.Attempts.{tries, Ended, deliver-Ended}
use nodux.Action.Http.Queue.{
  Op, sending, working, closing, run, accepted, handled, overflows, messages, delivering, rendered,
  run-accepted, run-counted, close-drains,
}

abbrev world : World String
world = record {
  answer = λ log body. if leb 2 (tries log) then status 200 else status 503;
  gives_up = λ log. false;
  bodies = λ n. some (n.summary ∷ []);
}

abbrev note : ℕ → String → Notification String
note n text = record { incident_id = n; update = false; alerts = []; summary = text; digest = none }

abbrev action : HttpAction String
action = new_http_action "webhook"

delivered_at_third :
    (deliver world "down" action).1.log
    ≡ posted "down" (status 200)
      ∷ waited (second * 2)
      ∷ posted "down" (status 503)
      ∷ waited second
      ∷ posted "down" (status 503)
      ∷ []
unfolding deliver attempts new_http_action post
delivered_at_third = refl

abbrev ops : List (Op String)
ops = working ∷ closing ∷ sending (note 2 "b") ∷ sending (note 1 "a") ∷ []

after_ops : (run world action ops).sent ≡ 1
unfolding deliver attempts new_http_action post send close deliver_all deliver_body process worker
after_ops = refl

deliver-Ended_example :
    Ended world "down" http_attempts action.backoff action.log
      (deliver world "down" action).0
      (deliver world "down" action).1.log
deliver-Ended_example = deliver-Ended world "down" action

run-accepted_example :
    (handled world action ops ++ (run world action ops).queue
      ≡ action.queue ++ accepted world action ops)
    × ((run world action ops).log
        ≡ delivering world action.backoff (rendered world (handled world action ops)) action.log)
run-accepted_example = run-accepted world action ops

run-counted_example :
    (length (run world (new_http_action "webhook") ops).queue ≤ http_queue_size)
    × ((run world (new_http_action "webhook") ops).sent
          + (run world (new_http_action "webhook") ops).failed
        ≡ messages world (handled world (new_http_action "webhook") ops))
    × ((run world (new_http_action "webhook") ops).dropped
        ≡ overflows world (new_http_action "webhook") ops)
run-counted_example = run-counted world "webhook" ops

abbrev waiting : HttpAction String
waiting = run world action (sending (note 2 "b") ∷ sending (note 1 "a") ∷ [])

abbrev last_ops : List (Op String)
last_ops = working ∷ sending (note 3 "c") ∷ working ∷ []

close-drains_example :
    ((run world (close waiting) last_ops).queue ≡ [])
    × (handled world (close waiting) last_ops ≡ waiting.queue)
unfolding send new_http_action
close-drains_example = close-drains world waiting last_ops (omega arith)
