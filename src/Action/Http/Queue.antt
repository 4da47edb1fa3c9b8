-- ===== src/Action/Http/Queue.antt =====
-- internal/action/http.go: what becomes of the notifications that an action is given, over any order of
-- calls of Send, turns of the worker and Close.
use nodux.Base.{
  ℕ, suc, ◌≡◌, refl, sym, ap, ap₂, or_else, ◌∙◌, ◌⊎◌, inl, inr, Option-cases, ◌+◌, ◌-◌, ◌≤◌, true,
  String, List, [], ◌∷◌, ◌++◌, none, some, arith, length, length-append, append_assoc, append-nil,
}
use nodux.Action.Route.{Notification}
use nodux.Action.Http.{
  World, HttpAction, is_closed, queue_full, new_http_action, send, close, deliver_all, deliver_body,
  deliver, process, worker, http_queue_size, http_attempts, attempts, Entry,
}

pub data Op {ℓ} (D : Type ℓ) : Type ℓ where
  sending : Notification D → Op D
  working closing : Op D

List-cases {ℓ} : {A : Type ℓ} (xs : List A) → (xs ≡ []) ⊎ ((x : A) × (ys : List A) × (xs ≡ x ∷ ys))
List-cases [] = inl refl
List-cases (x ∷ xs) = inr (x, xs, refl)

module _ {ℓ} {D : Type ℓ} (w : World D) where
  abbrev pub step : Op D → HttpAction D → HttpAction D
  step (sending n) a = (send n a).1
  step working a = worker w a
  step closing a = close a

  -- The state that operations leave, the newest first.
  abbrev pub run : HttpAction D → List (Op D) → HttpAction D
  run a [] = a
  run a (op ∷ older) = step op (run a older)

  -- What one operation adds to the notifications that were accepted.
  abbrev accepts : Op D → HttpAction D → List (Notification D)
  accepts (sending n) a = elim (send n a).0 [ none ↦ n ∷ [] | some e ↦ [] ]
  accepts working a = []
  accepts closing a = []

  abbrev takes : Op D → HttpAction D → List (Notification D)
  takes (sending n) a = []
  takes working a = elim a.queue [ [] ↦ [] | n ∷ queue ↦ n ∷ [] ]
  takes closing a = []

  -- The notifications that were accepted, and those that the worker took, the oldest first.
  abbrev pub accepted : HttpAction D → List (Op D) → List (Notification D)
  accepted a [] = []
  accepted a (op ∷ older) = accepted a older ++ accepts op (run a older)

  abbrev pub handled : HttpAction D → List (Op D) → List (Notification D)
  handled a [] = []
  handled a (op ∷ older) = handled a older ++ takes op (run a older)

  -- How many notifications were turned away because the queue was full.
  abbrev pub overflows : HttpAction D → List (Op D) → ℕ
  overflows a [] = 0
  overflows a (sending n ∷ older) =
      (elim (send n (run a older)).0 [ none ↦ 0 | some is_closed ↦ 0 | some queue_full ↦ 1 ])
      + overflows a older
  overflows a (working ∷ older) = overflows a older
  overflows a (closing ∷ older) = overflows a older

  -- How many messages a notification makes; one that cannot be rendered counts once.
  abbrev pub messages : List (Notification D) → ℕ
  messages [] = 0
  messages (n ∷ ns) = (elim (w.bodies n) [ none ↦ 1 | some bodies ↦ length bodies ]) + messages ns

  messages-append :
      (xs ys : List (Notification D)) → messages (xs ++ ys) ≡ messages xs + messages ys
  messages-append [] ys = omega arith
  messages-append (x ∷ xs) ys = omega (arith, messages-append xs ys)

  -- Deliveries change the two counters and the log alone.
  deliver_all-kept :
      (bodies : List String) (a : HttpAction D)
      → ((deliver_all w bodies a).queue ≡ a.queue)
        × ((deliver_all w bodies a).closed ≡ a.closed)
        × ((deliver_all w bodies a).dropped ≡ a.dropped)
        × ((deliver_all w bodies a).sent + (deliver_all w bodies a).failed
            ≡ a.sent + a.failed + length bodies)
  unfolding deliver_all deliver_body deliver
  deliver_all-kept [] a = (refl, refl, refl, omega arith)
  deliver_all-kept (body ∷ bodies) a =
      ground (arith, deliver_all-kept bodies (deliver_body w body a))

  process-kept :
      (n : Notification D) (a : HttpAction D)
      → ((process w n a).queue ≡ a.queue)
        × ((process w n a).closed ≡ a.closed)
        × ((process w n a).dropped ≡ a.dropped)
        × ((process w n a).sent + (process w n a).failed ≡ a.sent + a.failed + messages (n ∷ []))
  unfolding process
  process-kept n a = elim (Option-cases (w.bodies n)) [
    | inl e ↦ ground (arith, e)
    | inr (bodies, e) ↦ ground (arith, e, deliver_all-kept bodies a)
  ]

  worker-kept :
      (a : HttpAction D)
      → ((worker w a).closed ≡ a.closed)
        × ((worker w a).dropped ≡ a.dropped)
        × (takes working a ++ (worker w a).queue ≡ a.queue)
        × ((worker w a).sent + (worker w a).failed ≡ a.sent + a.failed + messages (takes working a))
  unfolding worker
  worker-kept a = elim (List-cases a.queue) [
    | inl e ↦ ground (arith, e)
    | inr (n, queue, e) ↦ ground (arith, e, process-kept n (record a { queue = queue }))
  ]

  -- One operation takes from the front of the queue and adds at its end.
  step-queue :
      (op : Op D) (a : HttpAction D) → takes op a ++ (step op a).queue ≡ a.queue ++ accepts op a
  unfolding send close
  step-queue (sending n) a = ground (arith, append-nil a.queue)
  step-queue working a = (worker-kept a).2 ∙ sym (append-nil a.queue)
  step-queue closing a = sym (append-nil a.queue)

  -- The requests and waits for some bodies, one body after the other.
  abbrev pub delivering : ℕ → List String → List Entry → List Entry
  delivering backoff [] log = log
  delivering backoff (body ∷ bodies) log =
      delivering backoff bodies (attempts w (http_attempts - 1) backoff body log).1

  -- The bodies of some notifications; one that cannot be rendered has none.
  abbrev pub rendered : List (Notification D) → List String
  rendered [] = []
  rendered (n ∷ ns) = or_else (w.bodies n) [] ++ rendered ns

  rendered-append :
      (xs ys : List (Notification D)) → rendered (xs ++ ys) ≡ rendered xs ++ rendered ys
  rendered-append [] ys = refl
  rendered-append (x ∷ xs) ys =
      ap (λ bs. or_else (w.bodies x) [] ++ bs) (rendered-append xs ys)
      ∙ sym (append_assoc (or_else (w.bodies x) []) _ _)

  delivering-append :
      (backoff : ℕ) (xs ys : List String) (log : List Entry)
      → delivering backoff (xs ++ ys) log ≡ delivering backoff ys (delivering backoff xs log)
  delivering-append backoff [] ys log = refl
  delivering-append backoff (x ∷ xs) ys log = delivering-append backoff xs ys _

  deliver_all-log :
      (bodies : List String) (a : HttpAction D)
      → ((deliver_all w bodies a).log ≡ delivering a.backoff bodies a.log)
        × ((deliver_all w bodies a).backoff ≡ a.backoff)
  unfolding deliver_all
  deliver_all-log [] a = (refl, refl)
  deliver_all-log (body ∷ bodies) a =
      let rest = deliver_all-log bodies (deliver_body w body a) in
      let first = body-log in
      (rest.0 ∙ ap₂ (λ b l. delivering b bodies l) first.1 first.0, rest.1 ∙ first.1)
    where
      body-log :
          ((deliver_body w body a).log ≡ (attempts w (http_attempts - 1) a.backoff body a.log).1)
          × ((deliver_body w body a).backoff ≡ a.backoff)
      body-log = unfold deliver_body deliver in ground arith

  process-log :
      (n : Notification D) (a : HttpAction D)
      → ((process w n a).log ≡ delivering a.backoff (rendered (n ∷ [])) a.log)
        × ((process w n a).backoff ≡ a.backoff)
  unfolding process
  process-log n a = elim (Option-cases (w.bodies n)) [
    | inl e ↦ rw (e, process) (refl, refl)
    | inr (bodies, e) ↦ rw (e, process, append-nil bodies) (deliver_all-log bodies a)
  ]

  step-log :
      (op : Op D) (a : HttpAction D)
      → ((step op a).log ≡ delivering a.backoff (rendered (takes op a)) a.log)
        × ((step op a).backoff ≡ a.backoff)
  unfolding send close worker
  step-log (sending n) a = ground arith
  step-log working a = elim (List-cases a.queue) [
    | inl e ↦ rw (e, worker) (refl, refl)
    | inr (n, queue, e) ↦ rw (e, worker) (process-log n (record a { queue = queue }))
  ]
  step-log closing a = (refl, refl)

  run-log :
      (a : HttpAction D) (ops : List (Op D))
      → ((run a ops).log ≡ delivering a.backoff (rendered (handled a ops)) a.log)
        × ((run a ops).backoff ≡ a.backoff)
  run-log a [] = (refl, refl)
  run-log a (op ∷ older) =
      let before = run-log a older in
      let now = step-log op (run a older) in
      let next = rendered (takes op (run a older)) in
      (
        now.0
            ∙ ap₂ (λ b l. delivering b next l) before.1 before.0
            ∙ sym (delivering-append a.backoff (rendered (handled a older)) next a.log)
            ∙ ap (λ bs. delivering a.backoff bs a.log)
                (sym (rendered-append (handled a older) (takes op (run a older)))),
        now.1 ∙ before.1,
      )

  run-order :
      (a : HttpAction D) (ops : List (Op D))
      → handled a ops ++ (run a ops).queue ≡ a.queue ++ accepted a ops
  run-order a [] = sym (append-nil a.queue)
  run-order a (op ∷ older) =
      append_assoc (handled a older) (takes op (run a older)) (run a (op ∷ older)).queue
      ∙ ap (λ q. handled a older ++ q) (step-queue op (run a older))
      ∙ sym (append_assoc (handled a older) (run a older).queue (accepts op (run a older)))
      ∙ ap (λ q. q ++ accepts op (run a older)) (run-order a older)
      ∙ append_assoc a.queue (accepted a older) (accepts op (run a older))

  -- Over any operations: the notifications that the worker has taken, and after them those that wait, are
  -- in order those that waited at first and after them those that Send accepted; and what the action has
  -- requested and waited since is the delivery of the bodies of those that were taken, in that order, each
  -- body with its attempts once and nothing besides.
  pub run-accepted :
      (a : HttpAction D) (ops : List (Op D))
      → (handled a ops ++ (run a ops).queue ≡ a.queue ++ accepted a ops)
        × ((run a ops).log ≡ delivering a.backoff (rendered (handled a ops)) a.log)
  run-accepted a ops = (run-order a ops, (run-log a ops).0)

  run-queue_le :
      (a : HttpAction D) (ops : List (Op D))
      → length a.queue ≤ http_queue_size
      → length (run a ops).queue ≤ http_queue_size
  unfolding send close
  run-queue_le a [] le = le
  run-queue_le a (sending n ∷ older) le =
      ground (arith, run-queue_le a older le, length-append (run a older).queue (n ∷ []))
  run-queue_le a (working ∷ older) le = omega (
    arith,
    run-queue_le a older le,
    ap length (worker-kept (run a older)).2,
    length-append (takes working (run a older)) (worker w (run a older)).queue,
  )
  run-queue_le a (closing ∷ older) le = run-queue_le a older le

  run-counts :
      (a : HttpAction D) (ops : List (Op D))
      → ((run a ops).sent + (run a ops).failed ≡ a.sent + a.failed + messages (handled a ops))
        × ((run a ops).dropped ≡ a.dropped + overflows a ops)
  unfolding send close
  run-counts a [] = (omega arith, omega arith)
  run-counts a (sending n ∷ older) =
      ground (arith, run-counts a older, append-nil (handled a older))
  run-counts a (working ∷ older) = omega (
    arith,
    run-counts a older,
    worker-kept (run a older),
    messages-append (handled a older) (takes working (run a older)),
  )
  run-counts a (closing ∷ older) = ground (arith, run-counts a older, append-nil (handled a older))

  -- For a new action, after any operations: at most 100 notifications wait; each message of a notification
  -- that the worker took, and each notification that could not be rendered, is counted once as sent or as
  -- failed; and what is counted as dropped are the notifications that found the queue full.
  pub run-counted :
      (name : String) (ops : List (Op D))
      → let a = run (new_http_action name) ops in
        (length a.queue ≤ http_queue_size)
        × (a.sent + a.failed ≡ messages (handled (new_http_action name) ops))
        × (a.dropped ≡ overflows (new_http_action name) ops)
  unfolding new_http_action
  run-counted name ops = (
    run-queue_le (new_http_action name) ops (omega arith),
    omega (arith, run-counts (new_http_action name) ops),
    omega (arith, run-counts (new_http_action name) ops),
  )

  -- How many turns the worker had.
  abbrev pub turns : List (Op D) → ℕ
  turns [] = 0
  turns (sending n ∷ older) = turns older
  turns (working ∷ older) = suc (turns older)
  turns (closing ∷ older) = turns older

  worker-length : (a : HttpAction D) → length (worker w a).queue ≡ length a.queue - 1
  worker-length a = elim (List-cases a.queue) [
    | inl e ↦ ground (arith, e, worker-kept a)
    | inr (n, queue, e) ↦ ground (arith, e, worker-kept a)
  ]

  closed_queue :
      (a : HttpAction D) (ops : List (Op D))
      → a.closed ≡ true
      → ((run a ops).closed ≡ true) × (length (run a ops).queue ≡ length a.queue - turns ops)
  unfolding send close
  closed_queue a [] e = (e, omega arith)
  closed_queue a (sending n ∷ older) e = ground (arith, closed_queue a older e)
  closed_queue a (working ∷ older) e =
      ground (arith, closed_queue a older e, worker-kept (run a older), worker-length (run a older))
  closed_queue a (closing ∷ older) e = (refl, (closed_queue a older e).1)

  closed_accepted : (a : HttpAction D) (ops : List (Op D)) → a.closed ≡ true → accepted a ops ≡ []
  unfolding send
  closed_accepted a [] e = refl
  closed_accepted a (sending n ∷ older) e =
      ground (arith, closed_accepted a older e, closed_queue a older e)
  closed_accepted a (working ∷ older) e = ground (arith, closed_accepted a older e)
  closed_accepted a (closing ∷ older) e = ground (arith, closed_accepted a older e)

  -- Once Close was called nothing more is accepted, whatever is sent then, and as soon as the worker has
  -- had as many turns as notifications were pending, it has taken all of them.
  pub close-drains :
      (a : HttpAction D) (ops : List (Op D))
      → length a.queue ≤ turns ops
      → ((run (close a) ops).queue ≡ []) × (handled (close a) ops ≡ a.queue)
  unfolding close
  close-drains a ops le = (nothing, taken)
    where
      nothing : (run (close a) ops).queue ≡ []
      nothing = elim (List-cases (run (close a) ops).queue) [
        | inl e ↦ e
        | inr (n, queue, e) ↦
            absurd (omega (arith, le, closed_queue (close a) ops refl, ap length e))
      ]

      taken : handled (close a) ops ≡ a.queue
      taken =
          sym (append-nil (handled (close a) ops))
          ∙ ap (λ q. handled (close a) ops ++ q) (sym nothing)
          ∙ run-order (close a) ops
          ∙ ap (λ q. a.queue ++ q) (closed_accepted (close a) ops refl)
          ∙ append-nil a.queue
