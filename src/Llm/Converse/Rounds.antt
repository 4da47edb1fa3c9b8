-- ===== src/Llm/Converse/Rounds.antt =====
-- internal/llm/anthropic.go, converse: the conversation ends, and only grows by appending.
use nodux.Base.{
  ℕ, zero, suc, ◌≡◌, refl, ◌+◌, ◌≤◌, ◌<◌, Bool, true, false, String, List, [], ◌∷◌, ◌++◌, none,
  some, length, arith,
}
use nodux.Llm.Converse.{
  World, Params, Reply, Result, Turn, rounds, converse, wants_tools, next_params, conclude,
  api_error,
}

-- Each request repeats the one before it and appends.
abbrev pub Grows : List Params → Type 0
Grows [] = Unit
Grows (p ∷ []) = Unit
Grows (p ∷ q ∷ ps) = ((more : List Turn) × (q.messages ≡ p.messages ++ more)) × Grows (q ∷ ps)

-- The tools are off in the request after `n` others.
abbrev pub OffAfter : ℕ → List Params → Type 0
OffAfter n [] = Unit
OffAfter zero (p ∷ ps) = p.tools_off ≡ true
OffAfter (suc n) (p ∷ ps) = OffAfter n ps

module _ (w : World) where
  -- Requests begin with the given one.
  abbrev Begins : Params → List Params → Type 0
  Begins p [] = ⊥
  Begins p (q ∷ qs) = q ≡ p

  -- A round is the last one or is followed by the next.
  rounds-cases {ℓ} :
      (P : List Params → Type ℓ) (use_tools : Bool) (max_chars left : ℕ) (p : Params)
      → P (p ∷ [])
      → ((r : Reply) → P (p ∷ (rounds w use_tools max_chars left (next_params w left r p)).0))
      → P (rounds w use_tools max_chars (suc left) p).0
  unfolding rounds
  rounds-cases P use_tools max_chars left p last more =
      elim (w.api p)
        as (λ o.
          P
            (elim o as (λ _. List Params × Result) [
              | none ↦ (p ∷ [], api_error)
              | some r ↦ elim (wants_tools w use_tools r) as (λ _. List Params × Result) [
                | true ↦
                    let rest = rounds w use_tools max_chars left (next_params w left r p) in
                    (p ∷ rest.0, rest.1)
                | false ↦ (p ∷ [], conclude w max_chars r)
              ]
            ]).0) [
              | none ↦ last
              | some r ↦
                  elim (wants_tools w use_tools r)
                    as (λ b.
                      P
                        (elim b as (λ _. List Params × Result) [
                          | true ↦
                              let rest =
                                rounds w use_tools max_chars left (next_params w left r p) in
                              (p ∷ rest.0, rest.1)
                          | false ↦ (p ∷ [], conclude w max_chars r)
                        ]).0) [ true ↦ more r | false ↦ last ]
            ]

  rounds_zero-cases {ℓ} :
      (P : List Params → Type ℓ) (use_tools : Bool) (max_chars : ℕ) (p : Params)
      → P (p ∷ [])
      → P (rounds w use_tools max_chars zero p).0
  unfolding rounds
  rounds_zero-cases P use_tools max_chars p last =
      elim (w.api p)
        as (λ o.
          P
            (elim o as (λ _. List Params × Result) [
              | none ↦ (p ∷ [], api_error)
              | some r ↦ (p ∷ [], conclude w max_chars r)
            ]).0) [ none ↦ last | some r ↦ last ]

  rounds-le :
      (use_tools : Bool) (max_chars left : ℕ) (p : Params)
      → length (rounds w use_tools max_chars left p).0 ≤ left + 1
  rounds-le use_tools max_chars zero p =
      rounds_zero-cases (λ ps. length ps ≤ 1) use_tools max_chars p (omega arith)
  rounds-le use_tools max_chars (suc left) p =
      rounds-cases (λ ps. length ps ≤ suc left + 1) use_tools max_chars left p (omega arith)
        (λ r. omega (arith, rounds-le use_tools max_chars left (next_params w left r p)))

  rounds-Begins :
      (use_tools : Bool) (max_chars left : ℕ) (p : Params)
      → Begins p (rounds w use_tools max_chars left p).0
  rounds-Begins use_tools max_chars zero p = rounds_zero-cases (Begins p) use_tools max_chars p refl
  rounds-Begins use_tools max_chars (suc left) p =
      rounds-cases (Begins p) use_tools max_chars left p refl (λ r. refl)

  -- A request that repeats the first of others, and then they.
  Grows-cons :
      (p q : Params) (qs : List Params)
      → Begins q qs
      → ((more : List Turn) × (q.messages ≡ p.messages ++ more))
      → Grows qs
      → Grows (p ∷ qs)
  Grows-cons p q [] b e g = absurd b
  Grows-cons p q (x ∷ xs) b (more, e) g = ((more, cc), g)

  rounds-Grows :
      (use_tools : Bool) (max_chars left : ℕ) (p : Params)
      → Grows (rounds w use_tools max_chars left p).0
  unfolding next_params
  rounds-Grows use_tools max_chars zero p = rounds_zero-cases Grows use_tools max_chars p tt
  rounds-Grows use_tools max_chars (suc left) p =
      rounds-cases Grows use_tools max_chars left p tt (λ r.
        Grows-cons p (next_params w left r p)
          (rounds w use_tools max_chars left (next_params w left r p)).0
          (rounds-Begins use_tools max_chars left (next_params w left r p)) (_, refl)
          (rounds-Grows use_tools max_chars left (next_params w left r p)))

  off : (qs : List Params) (q : Params) → Begins q qs → q.tools_off ≡ true → OffAfter 0 qs
  off [] q b e = absurd b
  off (x ∷ xs) q b e = cc

  rounds-OffAfter :
      (use_tools : Bool) (max_chars left : ℕ) (p : Params)
      → OffAfter (suc left) (rounds w use_tools max_chars (suc left) p).0
  unfolding next_params
  rounds-OffAfter use_tools max_chars zero p =
      rounds-cases (OffAfter 1) use_tools max_chars 0 p tt (λ r.
        off (rounds w use_tools max_chars 0 (next_params w 0 r p)).0 (next_params w 0 r p)
          (rounds-Begins use_tools max_chars 0 (next_params w 0 r p)) refl)
  rounds-OffAfter use_tools max_chars (suc left) p =
      rounds-cases (OffAfter (suc (suc left))) use_tools max_chars (suc left) p tt
        (λ r. rounds-OffAfter use_tools max_chars left (next_params w (suc left) r p))

  -- Whatever the API and the tools answer, a conversation ends: it sends at most one request more than
  -- the rounds of tool calls it may have.
  pub converse-length :
      (use_tools : Bool) (max_steps max_chars : ℕ) (question : String)
      → length (converse w use_tools max_steps max_chars question).0 ≤ max_steps + 1
  unfolding converse
  converse-length use_tools max_steps max_chars question = rounds-le use_tools max_chars max_steps _

  -- Where rounds of tool calls are allowed at all, each request of a conversation repeats the one before
  -- it and appends to it, and the request after the last round of tool calls has the tools turned off.
  pub converse-Grows :
      (use_tools : Bool) (max_steps max_chars : ℕ) (question : String)
      → 0 < max_steps
      → Grows (converse w use_tools max_steps max_chars question).0
        × OffAfter max_steps (converse w use_tools max_steps max_chars question).0
  unfolding converse
  converse-Grows use_tools zero max_chars question h = absurd (omega (arith, h))
  converse-Grows use_tools (suc n) max_chars question h =
      (rounds-Grows use_tools max_chars (suc n) _, rounds-OffAfter use_tools max_chars n _)
