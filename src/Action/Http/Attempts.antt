-- ===== src/Action/Http/Attempts.antt =====
-- internal/action/http.go, deliver and post: how often a body is sent, and how it ends.
use nodux.Base.{
  ℕ, zero, suc, ◌≡◌, refl, ◌⊎◌, inl, inr, Bool-cases, ◌+◌, ◌*◌, ◌≤◌, ◌<◌, Bool, true, false, String,
  List, [], ◌∷◌, arith,
}
use nodux.Action.Http.{
  Response, Posted, delivered, failure, post, Entry, posted, waited, World, HttpAction, attempts,
  deliver, http_attempts,
}

abbrev pub tries : List Entry → ℕ
tries [] = 0
tries (posted body answer ∷ log) = suc (tries log)
tries (waited delay ∷ log) = tries log

abbrev pub time_waited : List Entry → ℕ
time_waited [] = 0
time_waited (posted body answer ∷ log) = time_waited log
time_waited (waited delay ∷ log) = delay + time_waited log

abbrev pub succeeded : Response → Bool
succeeded answer = elim (post answer) [ delivered ↦ true | failure retry ↦ false ]

-- A failure that no retry can help.
abbrev pub lasting : Response → Bool
lasting answer = elim (post answer) [
  | delivered ↦ false
  | failure true ↦ false
  | failure false ↦ true
]

-- The three results of a request.
Posted-cases : (p : Posted) → (p ≡ delivered) ⊎ (p ≡ failure true) ⊎ (p ≡ failure false)
Posted-cases delivered = inl refl
Posted-cases (failure true) = inr (inl refl)
Posted-cases (failure false) = inr (inr refl)

module _ {ℓ} {D : Type ℓ} (w : World D) where
  -- What precedes a request: nothing, or requests that each had a transient failure, each followed by a
  -- wait twice as long as the one before it, with Close not giving up.
  pub data Retried (body : String) (first : ℕ) (start : List Entry)
      : ℕ → ℕ → List Entry → Type 0 where
    at_once : Retried body first start 0 first start
    after_failure :
        {n delay : ℕ} {log : List Entry}
        → Retried body first start n delay log
        → post (w.answer log body) ≡ failure true
        → w.gives_up (posted body (w.answer log body) ∷ log) ≡ false
        → Retried body first start
            (suc n)
            (delay * 2)
            (waited delay ∷ posted body (w.answer log body) ∷ log)

  -- How a delivery of at most `most` requests ends: with one more request, which decides whether the body
  -- got through, and for a reason.
  pub record Ended (body : String) (most first : ℕ) (start : List Entry) (ok : Bool)
      (end_ : List Entry) : Type 0 where
    pub retries : ℕ
    pub delay : ℕ
    pub before : List Entry
    pub retried : Retried body first start retries delay before
    pub last : end_ ≡ posted body (w.answer before body) ∷ before
    pub outcome : ok ≡ succeeded (w.answer before body)
    pub bounded : retries < most
    pub reason :
        (succeeded (w.answer before body) ≡ true)
        ⊎ (lasting (w.answer before body) ≡ true)
        ⊎ (w.gives_up end_ ≡ true)
        ⊎ (suc retries ≡ most)

  attempts-tries :
      (left delay : ℕ) (body : String) (log : List Entry)
      → (tries log < tries (attempts w left delay body log).1)
        × (tries (attempts w left delay body log).1 ≤ tries log + left + 1)
  unfolding attempts
  attempts-tries zero delay body log = ground arith
  attempts-tries (suc left) delay body log = ground (
    arith,
    attempts-tries left (delay * 2) body (waited delay ∷ posted body (w.answer log body) ∷ log),
  )

  attempts-Ended :
      (left most first delay n : ℕ) (body : String) (start log : List Entry)
      → n + left + 1 ≡ most
      → Retried body first start n delay log
      → Ended body most first start
          (attempts w left delay body log).0
          (attempts w left delay body log).1
  unfolding attempts
  attempts-Ended zero most first delay n body start log e r = record {
    retries = n;
    delay = delay;
    before = log;
    retried = r;
    last = ground arith;
    outcome = ground arith;
    bounded = omega arith;
    reason = inr (inr (inr (omega arith)));
  }
  attempts-Ended (suc left) most first delay n body start log e r =
      elim (Posted-cases (post (w.answer log body))) [
        | inl p ↦ record {
          retries = n;
          delay = delay;
          before = log;
          retried = r;
          last = rw (p, attempts);
          outcome = rw (p, attempts, succeeded);
          bounded = omega arith;
          reason = inl (rw (p, succeeded));
        }
        | inr (inl p) ↦ elim (Bool-cases (w.gives_up (posted body (w.answer log body) ∷ log))) [
          | inl g ↦ record {
            retries = n;
            delay = delay;
            before = log;
            retried = r;
            last = rw (p, attempts, g);
            outcome = rw (p, attempts, g, succeeded);
            bounded = omega arith;
            reason = inr (inr (inl (rw (p, attempts, g) g)));
          }
          | inr g ↦
              rw (p, attempts, g)
                (attempts-Ended left most first (delay * 2) (suc n) body start _ (omega arith)
                  (after_failure r p g))
        ]
        | inr (inr p) ↦ record {
          retries = n;
          delay = delay;
          before = log;
          retried = r;
          last = rw (p, attempts);
          outcome = rw (p, attempts, succeeded);
          bounded = omega arith;
          reason = inr (inl (rw (p, lasting)));
        }
      ]

  attempts-waits :
      (delay : ℕ) (body : String) (log : List Entry)
      → time_waited (attempts w 2 delay body log).1 ≤ time_waited log + 3 * delay
  unfolding attempts
  attempts-waits delay body log = ground arith

  -- To deliver a body takes one to three requests, and the waits between them come to no more than three
  -- times the first delay.
  pub deliver-tries :
      (body : String) (a : HttpAction D)
      → (tries a.log < tries (deliver w body a).1.log)
        × (tries (deliver w body a).1.log ≤ tries a.log + http_attempts)
        × (time_waited (deliver w body a).1.log ≤ time_waited a.log + 3 * a.backoff)
  unfolding deliver
  deliver-tries body a =
      ground (arith, attempts-tries 2 a.backoff body a.log, attempts-waits a.backoff body a.log)

  -- A delivery makes at most three requests for the body, and counts as delivered exactly if the last of them
  -- was answered with a status below 300. Every request before the last had a transient failure, and a wait
  -- followed it that doubles each time; the delivery ends where a request got through, or failed for good, or
  -- Close gave up, or with the third request.
  pub deliver-Ended :
      (body : String) (a : HttpAction D)
      → Ended body http_attempts a.backoff a.log (deliver w body a).0 (deliver w body a).1.log
  unfolding deliver
  deliver-Ended body a =
      attempts-Ended 2 http_attempts a.backoff a.backoff 0 body a.log a.log (omega arith) at_once
