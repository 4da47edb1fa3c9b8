-- ===== src/Action/Http.antt =====
-- internal/action/http.go: the queue of an action over HTTP and its worker. The endpoint is a parameter, as
-- are the rendering of a notification and whether Close gives up during a wait. A method is one step: the
-- mutex, the atomics and the goroutine are not modelled, and the counters do not wrap.
pub mod Attempts
pub mod Queue
pub mod Tests
use nodux.Base.{
  ℕ, zero, suc, ◌+◌, ◌-◌, ◌*◌, Bool, true, false, ◌||◌, String, List, [], ◌∷◌, ◌++◌, Option, none,
  some, if◌then◌else◌, ltb, leb, ◌==◌, length, nat_eq,
}
use nodux.Action.Route.{Notification}

abbrev pub http_attempts : ℕ
http_attempts = 3

abbrev pub http_queue_size : ℕ
http_queue_size = 100

-- What becomes of a request: it cannot be made, it gets no answer, or an answer with a status.
pub data Response : Type 0 where
  bad_request unreachable : Response
  status : ℕ → Response

-- The result of `post`: nil, or an error that says whether it is worth a retry.
pub data Posted : Type 0 where
  delivered : Posted
  failure : Bool → Posted

unfoldable pub post : Response → Posted
post bad_request = failure false
post unreachable = failure true
post (status n) = if ltb n 300 then delivered else failure (leb 500 n || n == 429)

-- What an action did, the newest first: a request with its answer, or a wait.
pub data Entry : Type 0 where
  posted : String → Response → Entry
  waited : ℕ → Entry

pub record World {ℓ} (D : Type ℓ) : Type ℓ where
  pub answer : List Entry → String → Response
  -- Whether `a.ctx` is cancelled before the wait is over.
  pub gives_up : List Entry → Bool
  pub bodies : Notification D → Option (List String)

pub record HttpAction {ℓ} (D : Type ℓ) : Type ℓ where
  pub name : String
  pub backoff : ℕ
  pub closed : Bool
  pub queue : List (Notification D)
  pub sent : ℕ
  pub failed : ℕ
  pub dropped : ℕ
  pub log : List Entry

pub record DeliveryStats : Type 0 where
  pub sent : ℕ
  pub failed : ℕ
  pub dropped : ℕ
  pub pending : ℕ

abbrev pub second : ℕ
second = 1000000000

pub data SendError : Type 0 where
  is_closed queue_full : SendError

module _ {ℓ} {D : Type ℓ} where
  unfoldable pub new_http_action : String → HttpAction D
  new_http_action name = record {
    name = name;
    backoff = second;
    closed = false;
    queue = [];
    sent = 0;
    failed = 0;
    dropped = 0;
    log = [];
  }

  -- A send on the channel goes through as long as it holds less than its size; `none` is no error.
  unfoldable pub send : Notification D → HttpAction D → Option SendError × HttpAction D
  send n a =
      if a.closed
      then (some is_closed, a)
      else if ltb (length a.queue) http_queue_size
      then (none, record a { queue = a.queue ++ n ∷ [] })
      else (some queue_full, record a { dropped = a.dropped + 1 })

  unfoldable pub stats : HttpAction D → DeliveryStats
  stats a = record {
    sent = a.sent;
    failed = a.failed;
    dropped = a.dropped;
    pending = length a.queue;
  }

  -- `Close`, up to the wait for the worker.
  unfoldable pub close : HttpAction D → HttpAction D
  close a = record a { closed = true }

module _ {ℓ} {D : Type ℓ} (w : World D) where
  -- The loop of `deliver`, with the attempts after this one: whether the body got through, and the log.
  unfoldable pub attempts : ℕ → ℕ → String → List Entry → Bool × List Entry
  unfolding post
  attempts zero delay body log =
      let answer = w.answer log body in
      elim (post answer) [
        | delivered ↦ (true, posted body answer ∷ log)
        | failure retry ↦ (false, posted body answer ∷ log)
      ]
  attempts (suc left) delay body log =
      let answer = w.answer log body in
      let log' = posted body answer ∷ log in
      elim (post answer) [
        | delivered ↦ (true, log')
        | failure retry ↦ elim retry [
          | true ↦
              if w.gives_up log'
              then (false, log')
              else attempts left (delay * 2) body (waited delay ∷ log')
          | false ↦ (false, log')
        ]
      ]

  unfoldable pub deliver : String → HttpAction D → Bool × HttpAction D
  unfolding attempts
  deliver body a =
      let (ok, log) = attempts (http_attempts - 1) a.backoff body a.log in
      (ok, record a { log = log })

  unfoldable pub deliver_body : String → HttpAction D → HttpAction D
  unfolding deliver
  deliver_body body a =
      let (ok, a') = deliver body a in
      if ok then record a' { sent = a'.sent + 1 } else record a' { failed = a'.failed + 1 }

  unfoldable pub deliver_all : List String → HttpAction D → HttpAction D
  unfolding deliver_body
  deliver_all [] a = a
  deliver_all (body ∷ bodies) a = deliver_all bodies (deliver_body body a)

  -- One turn of the worker's loop over the channel, for a notification taken from it.
  unfoldable pub process : Notification D → HttpAction D → HttpAction D
  unfolding deliver_all
  process n a = elim (w.bodies n) [
    | none ↦ record a { failed = a.failed + 1 }
    | some bodies ↦ deliver_all bodies a
  ]

  unfoldable pub worker : HttpAction D → HttpAction D
  unfolding process
  worker a = elim a.queue [ [] ↦ a | n ∷ queue ↦ process n (record a { queue = queue }) ]
