-- ===== src/Incident/Choice.antt =====
-- internal/incident/incident.go: which incident an alert is filed under.
use nodux.Base.{
  ℕ, suc, ◌≤◌, ◌≡◌, refl, Bool, true, false, ◌&&◌, String, List, [], ◌∷◌, ◌++◌, Option, none, some,
  arith, nat_eq, string_eq, ltb→lt, All, Bool-cases, inl, inr, ◌⊎◌,
}
use mathlib.Core.List.{Memᴰ}
use native.Mathlib.Nat.{le_refl}
use nodux.Detector.Types.{Issue}
use nodux.Incident.{
  Grouper, Incident, add, add_firing, add_firing_at, attach, expire, choose, better, matches,
  subjects_of, modify, fresh, with_id, note_key,
}

module _ (subjects : List String) (is_host : Bool) where
  -- A list holds no match, or the chosen one is a match of the list and no match alerted later.
  abbrev pub Chosen : List Incident → Option Incident → Type 0
  Chosen incs none = All (λ c. matches c subjects is_host ≡ false) incs
  Chosen incs (some inc) =
      Memᴰ inc incs
      × (matches inc subjects is_host ≡ true)
      × All (λ c. matches c subjects is_host ≡ true → c.last ≤ inc.last) incs

  abbrev NotBelow : Option Incident → Incident → Type 0
  NotBelow none inc = Unit
  NotBelow (some b) inc = b.last ≤ inc.last

  -- The same with a best one so far.
  abbrev ChosenFrom : Option Incident → List Incident → Option Incident → Type 0
  ChosenFrom best incs none = (best ≡ none) × All (λ c. matches c subjects is_host ≡ false) incs
  ChosenFrom best incs (some inc) =
      ((best ≡ some inc) ⊎ (Memᴰ inc incs × (matches inc subjects is_host ≡ true)))
      × All (λ c. matches c subjects is_host ≡ true → c.last ≤ inc.last) incs
      × NotBelow best inc

  -- A candidate that replaces the best one.
  takes :
      (best : Option Incident) (x : Incident) (xs : List Incident) (r : Option Incident)
      → better best x ≡ true
      → matches x subjects is_host ≡ true
      → ChosenFrom (some x) xs r
      → ChosenFrom best (x ∷ xs) r
  takes best x xs none b m h = absurd (cc h.0)
  takes best x xs (some inc) b m h = (
    elim h.0 [ inl e ↦ inr (Memᴰ.head (cc), cc) | inr k ↦ inr (Memᴰ.tail k.0, k.1) ],
    (λ _. h.2, h.1),
    below best b,
  )
    where
      below : (o : Option Incident) → better o x ≡ true → NotBelow o inc
      below none e = tt
      below (some y) e = omega (arith, ltb→lt y.last x.last e)

  -- A candidate that does not.
  passes :
      (best : Option Incident) (x : Incident) (xs : List Incident) (r : Option Incident)
      → (better best x && matches x subjects is_host) ≡ false
      → ChosenFrom best xs r
      → ChosenFrom best (x ∷ xs) r
  passes none x xs none b h = (h.0, (b, h.1))
  passes (some y) x xs none b h = absurd (cc h.0)
  passes best x xs (some inc) b h = (
    elim h.0 [ inl e ↦ inl e | inr k ↦ inr (Memᴰ.tail k.0, k.1) ],
    (λ m. below best b m h.2, h.1),
    h.2,
  )
    where
      below :
          (o : Option Incident)
          → (better o x && matches x subjects is_host) ≡ false
          → matches x subjects is_host ≡ true
          → NotBelow o inc
          → x.last ≤ inc.last
      below none e m n = ground arith
      below (some y) e m n = ground arith

  choose-ChosenFrom :
      (best : Option Incident) (incs : List Incident)
      → ChosenFrom best incs (choose subjects is_host best incs)
  unfolding choose
  choose-ChosenFrom none [] = (refl, tt)
  choose-ChosenFrom (some b) [] = (inl refl, tt, le_refl b.last)
  choose-ChosenFrom best (x ∷ xs) =
      elim (Bool-cases (better best x && matches x subjects is_host)) [
        | inl e ↦
            rw (e, choose)
              (takes best x xs _ (ground arith) (ground arith) (choose-ChosenFrom (some x) xs))
        | inr e ↦ rw (e, choose) (passes best x xs _ e (choose-ChosenFrom best xs))
      ]

  choose-Chosen : (incs : List Incident) → Chosen incs (choose subjects is_host none incs)
  choose-Chosen incs = fits (choose subjects is_host none incs) (choose-ChosenFrom none incs)
    where
      fits : (o : Option Incident) → ChosenFrom none incs o → Chosen incs o
      fits none h = h.1
      fits (some inc) h = elim h.0 [ inl e ↦ absurd (cc e) | inr k ↦ (k.0, k.1, h.1) ]

-- The incident that an alert is filed under.
abbrev pub FiledUnder : ℕ → Issue → Grouper → Grouper → Option Incident → Type 0
FiledUnder now issue g g' none =
    (g'.next_id ≡ suc g.next_id)
    × (g'.opened
        ≡ g.opened
          ++ attach g.cfg now (subjects_of issue).0 (subjects_of issue).1
              (with_id (suc g.next_id) issue) (fresh (suc g.next_id))
            ∷ [])
    × (g'.by_key ≡ note_key issue.key (suc g.next_id) g.by_key)
FiledUnder now issue g g' (some inc) =
    (g'.next_id ≡ g.next_id)
    × (g'.opened
        ≡ modify inc.id
            (attach g.cfg now (subjects_of issue).0 (subjects_of issue).1 (with_id inc.id issue))
            g.opened)
    × (g'.by_key ≡ note_key issue.key inc.id g.by_key)

-- With grouping on, a firing alert is filed among the incidents that `expire` leaves open: under
-- one that matches it and than which no match has alerted later, with nothing else changed, or,
-- exactly when none matches, under a new incident with the next identifier. Its episode is noted
-- under the incident's identifier, and nothing becomes ready to send.
pub add-filed :
    (now : ℕ) (issue : Issue) (g : Grouper)
    → g.cfg.enabled ≡ true
    → issue.resolved ≡ false
    → (o : Option Incident) × Chosen
        (subjects_of issue).0
        (subjects_of issue).1
        (expire now g).opened
        o
      × FiledUnder now issue (expire now g) (add now issue g) o
      × ((add now issue g).ready ≡ g.ready)
unfolding add add_firing expire
add-filed now issue g on firing =
    simp (on, firing)
      (
        choose subjects is_host none g'.opened,
        choose-Chosen subjects is_host g'.opened,
        filed (choose subjects is_host none g'.opened),
        same (choose subjects is_host none g'.opened),
      )
  where
    g' : Grouper
    g' = expire now g

    subjects : List String
    subjects = (subjects_of issue).0

    is_host : Bool
    is_host = (subjects_of issue).1

    filed :
        (o : Option Incident)
        → FiledUnder now issue g' (add_firing_at o subjects is_host now issue g') o
    filed none = (refl, refl, refl)
    filed (some inc) = (refl, refl, refl)

    same : (o : Option Incident) → (add_firing_at o subjects is_host now issue g').ready ≡ g.ready
    same none = refl
    same (some inc) = refl
