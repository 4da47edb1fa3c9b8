-- ===== src/Config/Probes.antt =====
-- internal/config/config.go: validate of `ProbesConfig`.
pub mod Valid
use nodux.Base.{
  ℕ, suc, Bool, true, false, not, ◌&&◌, ◌||◌, String, List, [], ◌∷◌, ℤ, pos, negsuc, Option, none,
  some, if◌then◌else◌, ltb, ◌==◌, nat_eq, is_empty, count, ◌+◌,
}
use nodux.Action.Route.{is_nil}
use nodux.Config.{ProbeTarget, ProbesConfig}
use nodux.Config.Checks.{
  Check, Invalid, Field, wrong, key, at, named, guard, ◌followed_by◌, where_set, each,
  not_above_zero, below_zero, less, World, contains, check_url, not_positive, negative, is_missing,
  out_of_range, more_than_warning, duplicate, not_one_of, bad_host_port, bad_status, unfit_status,
  unfit_verify,
}

abbrev target_at : ℕ → Field
target_at i = at "probes.targets" i

abbrev target_named : String → String → Field
target_named name more = named "probes.targets" name more

-- `code < 100 || code > 599`.
unfoldable pub no_status : ℤ → Bool
no_status code = less code (pos 100) || less (pos 599) code

module _ {Float : Type 0} (w : World Float) where
  -- The switch over what a target is.
  unfoldable pub check_address : ProbeTarget → Check
  unfolding check_url guard
  check_address t =
      if not (is_empty t.url)
      then check_url w (target_named t.name ".url") t.url
      else if not (is_empty t.tcp)
      then guard (not (w.splits t.tcp)) (wrong (target_named t.name ".tcp") (bad_host_port t.tcp))
      else guard (not (w.splits t.tls)) (wrong (target_named t.name ".tls") (bad_host_port t.tls))

  -- One turn of the loop, with the names that were met.
  unfoldable pub check_target : ℕ → List String → ProbeTarget → Check
  unfolding guard ◌followed_by◌ each check_address no_status contains count where_set
  check_target i seen t =
      guard (is_empty t.name) (wrong (target_at i) is_missing)
      followed_by guard (contains seen t.name) (wrong (target_at i) (duplicate t.name))
      followed_by guard (not (count (λ v. not (is_empty v)) (t.url ∷ t.tcp ∷ t.tls ∷ []) == 1))
          (wrong (target_named t.name "") not_one_of)
      followed_by check_address t
      followed_by guard (not (is_nil t.status) && is_empty t.url)
          (wrong (target_named t.name "") unfit_status)
      followed_by each
          (λ code. guard (no_status code) (wrong (target_named t.name ".status") (bad_status code)))
          t.status
      followed_by guard (t.skip_verify && not (is_empty t.tcp))
          (wrong (target_named t.name "") unfit_verify)

  unfoldable pub check_targets : ℕ → List String → List ProbeTarget → Check
  unfolding check_target ◌followed_by◌
  check_targets i seen [] = none
  check_targets i seen (t ∷ ts) =
      check_target i seen t followed_by check_targets (suc i) (t.name ∷ seen) ts

  unfoldable pub validate_probes : ProbesConfig → Check
  unfolding check_targets guard ◌followed_by◌ where_set
  validate_probes p = where_set (not (is_nil p.targets)) (
      guard (not_above_zero p.interval_seconds) (wrong (key "probes.interval_seconds") not_positive)
      followed_by guard (not_above_zero p.timeout_seconds)
          (wrong (key "probes.timeout_seconds") not_positive)
      followed_by guard (not_above_zero p.failures) (wrong (key "probes.failures") not_positive)
      followed_by guard (below_zero p.cert_warn_days || below_zero p.cert_critical_days)
          (wrong (key "probes.cert_warn_days and cert_critical_days") negative)
      followed_by guard
          (less (pos 0) p.cert_warn_days && less p.cert_warn_days p.cert_critical_days)
          (wrong (key "probes.cert_critical_days") more_than_warning)
      followed_by check_targets 0 [] p.targets)
