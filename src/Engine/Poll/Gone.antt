-- ===== src/Engine/Poll/Gone.antt =====
-- internal/engine/engine.go, forgetGone in pollOnce: containers that are not listed any more.
use nodux.Base.{
  ℕ, ◌≡◌, ap, ◌∙◌, true, false, String, List, [], ◌∷◌, map, some, if_rule, Bool-cases, inl, inr,
  string_eq, ◌==◌, any, arith, if◌then◌else◌,
}
use nodux.Dict.{lookup}
use nodux.Engine.{Engine}
use nodux.Engine.Resolved.{owned_by, belongs, resolve_container-belongs, resolve_container-keeps}
use nodux.Engine.Upkeep.{forget_container, prune_images}
use nodux.Engine.Report.{report}
use nodux.Engine.Handle.{report_to}
use nodux.Engine.Notice.{State}
use nodux.Engine.Poll.{forget_one, forget_gone, poll_list, poll_once}
use nodux.Engine.Look.{Rounds, Polled, Listed}

prune_images-active : (now : ℕ) (e : Engine) → (prune_images now e).active ≡ e.active
unfolding prune_images
prune_images-active now e = ground arith

module _ {D : Type 0} (w : Rounds D) where
  forget_one-belongs :
      (now : ℕ) (id key : String) (s : State D)
      → belongs id key (forget_one w now id s).engine ≡ false
  unfolding forget_one report_to report
  forget_one-belongs now id key s =
      resolve_container-belongs now id key (forget_container id s.engine)

  forget_one-keeps :
      (now : ℕ) (id other key : String) (s : State D)
      → belongs other key s.engine ≡ false
      → belongs other key (forget_one w now id s).engine ≡ false
  unfolding forget_one report_to report forget_container
  forget_one-keeps now id other key s h =
      resolve_container-keeps now id other key (forget_container id s.engine) h

  forget_gone-keeps :
      (now : ℕ) (seen : List String) (other key : String) (ids : List String) (s : State D)
      → belongs other key s.engine ≡ false
      → belongs other key (forget_gone w now seen ids s).engine ≡ false
  unfolding forget_gone
  forget_gone-keeps now seen other key [] s h = h
  forget_gone-keeps now seen other key (id ∷ ids) s h =
      forget_gone-keeps now seen other key ids
        (if any (λ k. k == id) seen then s else forget_one w now id s)
        (if_rule (λ (d : State D). belongs other key d.engine ≡ false) (any (λ k. k == id) seen)
          (λ y. h) (λ n. forget_one-keeps now id other key s h))

  forget_gone-belongs :
      (now : ℕ) (seen : List String) (id key : String) (ids : List String) (s : State D)
      → any (λ k. k == id) ids ≡ true
      → any (λ k. k == id) seen ≡ false
      → belongs id key (forget_gone w now seen ids s).engine ≡ false
  unfolding forget_gone any
  forget_gone-belongs now seen id key [] s h gone = ground arith
  forget_gone-belongs now seen id key (k ∷ ids) s h gone = elim (Bool-cases (k == id)) [
    | inl y ↦
        forget_gone-keeps now seen id key ids _
          (rw ((string_eq.test_iff k id).0 y, gone) (forget_one-belongs now id key s))
    | inr n ↦ forget_gone-belongs now seen id key ids _ (ground arith) gone
  ]

  poll_list-belongs :
      (now : ℕ) (p : Polled D) (cs : List Listed) (id key : String)
      → any (λ k. k == id) p.last_seen ≡ true
      → any (λ k. k == id) (map (λ c. c.id) cs) ≡ false
      → belongs id key (poll_list w now cs p).state.engine ≡ false
  unfolding poll_list
  poll_list-belongs now p cs id key known gone =
      ap (λ m. owned_by id (lookup key m)) (prune_images-active now _)
      ∙ forget_gone-belongs now (map (λ c. c.id) cs) id key p.last_seen _ known gone

  -- A container that the poll before knew, and that the daemon does not list any more, has no open episode
  -- after a poll.
  pub poll_once-belongs :
      (now : ℕ) (p : Polled D) (cs : List Listed) (id key : String)
      → w.ping ≡ true
      → w.list_containers ≡ some cs
      → any (λ k. k == id) p.last_seen ≡ true
      → any (λ k. k == id) (map (λ c. c.id) cs) ≡ false
      → belongs id key (poll_once w now p).1.state.engine ≡ false
  unfolding poll_once
  poll_once-belongs now p cs id key up listed known gone =
      rw (up, listed) (poll_list-belongs now p cs id key known gone)
