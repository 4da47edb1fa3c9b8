-- ===== src/Config/Probes/Valid.antt =====
-- internal/config/config.go: the probes that validate of `ProbesConfig` accepts.
use nodux.Base.{
  ℕ, suc, ◌≡◌, ◌≢◌, ◌⊎◌, ◌↔◌, refl, true, false, not, String, List, [], ◌∷◌, ℤ, pos, is_empty,
  count, All,
}
use nodux.Config.{ProbeTarget, ProbesConfig}
use nodux.Config.Checks.{Decides, World, Positive, NonNegative, AtMost, IsHttp}
use nodux.Config.Checks.Decide.{
  guard-Decides, then-Decides, where_set-Decides, if-Decides, each-Decides, or_iff, and_iff,
  not_above_zero-Positive, below_zero-NonNegative, less-AtMost, empty_iff, full_iff, not_empty_iff,
  number_iff, nil_iff, contains_iff, true_iff, false_iff, check_url-Decides,
}
use nodux.Config.Probes.{no_status, check_address, check_target, check_targets, validate_probes}

module _ {Float : Type 0} (w : World Float) where
  -- A target can be reached: the first address that is set has its form.
  abbrev pub HasAddress : ProbeTarget → Type 0
  HasAddress t =
      ((t.url ≢ "") × IsHttp (w.parse_url t.url))
      ⊎ ((t.url ≡ "")
          × (((t.tcp ≢ "") × (w.splits t.tcp ≡ true)) ⊎ ((t.tcp ≡ "") × (w.splits t.tls ≡ true))))

  -- A status of HTTP.
  abbrev pub IsStatus : ℤ → Type 0
  IsStatus code = AtMost (pos 100) code × AtMost code (pos 599)

  -- A target has a name and one address, of the right form, and options that apply to it.
  abbrev pub IsTarget : ProbeTarget → Type 0
  IsTarget t =
      (count (λ v. not (is_empty v)) (t.url ∷ t.tcp ∷ t.tls ∷ []) ≡ 1)
      × (HasAddress t
          × (((t.status ≡ []) ⊎ (t.url ≢ ""))
              × (All IsStatus t.status × ((t.skip_verify ≡ false) ⊎ (t.tcp ≡ "")))))

  abbrev pub AreTargets : List String → List ProbeTarget → Type 0
  AreTargets seen [] = Unit
  AreTargets seen (t ∷ ts) =
      ((t.name ≢ "") × (All (λ v. v ≢ t.name) seen × IsTarget t)) × AreTargets (t.name ∷ seen) ts

  abbrev pub AreProbes : ProbesConfig → Type 0
  AreProbes p =
      (p.targets ≡ [])
      ⊎ (Positive p.interval_seconds
          × (Positive p.timeout_seconds
              × (Positive p.failures
                  × ((NonNegative p.cert_warn_days × NonNegative p.cert_critical_days)
                      × ((AtMost p.cert_warn_days (pos 0)
                            ⊎ AtMost p.cert_critical_days p.cert_warn_days)
                          × AreTargets [] p.targets)))))

  check_address-Decides : (t : ProbeTarget) → Decides (check_address w t) (HasAddress t)
  unfolding check_address
  check_address-Decides t =
      if-Decides _ _ _ (not_empty_iff t.url) (empty_iff t.url) (check_url-Decides w _ t.url) (
        if-Decides _ _ _ (not_empty_iff t.tcp) (empty_iff t.tcp)
          (guard-Decides _ _ (true_iff (w.splits t.tcp)))
          (guard-Decides _ _ (true_iff (w.splits t.tls))))

  no_status_iff : (code : ℤ) → (no_status code ≡ false) ↔ IsStatus code
  unfolding no_status
  no_status_iff code = or_iff _ _ (less-AtMost (pos 100) code) (less-AtMost code (pos 599))

  check_target-Decides :
      (i : ℕ) (seen : List String) (t : ProbeTarget)
      → Decides
          (check_target w i seen t)
          ((t.name ≢ "") × (All (λ v. v ≢ t.name) seen × IsTarget t))
  unfolding check_target
  check_target-Decides i seen t = then-Decides _ _ (guard-Decides _ _ (full_iff t.name)) (
      then-Decides _ _ (guard-Decides _ _ (contains_iff seen t.name)) (
        then-Decides _ _ (guard-Decides _ _ (number_iff _ 1)) (
          then-Decides _ _ (check_address-Decides t) (
            then-Decides _ _ (guard-Decides _ _ (and_iff _ _ (nil_iff t.status) (full_iff t.url))) (
              then-Decides _ _
                (each-Decides _ (λ code. guard-Decides _ _ (no_status_iff code)) t.status)
                (guard-Decides _ _ (and_iff _ _ (false_iff t.skip_verify) (empty_iff t.tcp))))))))

  check_targets-Decides :
      (i : ℕ) (seen : List String) (ts : List ProbeTarget)
      → Decides (check_targets w i seen ts) (AreTargets seen ts)
  unfolding check_targets
  check_targets-Decides i seen [] = (λ e. tt, λ p. refl)
  check_targets-Decides i seen (t ∷ ts) =
      then-Decides _ _ (check_target-Decides i seen t)
        (check_targets-Decides (suc i) (t.name ∷ seen) ts)

  -- The probes are accepted exactly if there are none, or the times and the count of failures are positive,
  -- the days before a certificate ends are not negative, with the critical ones at most those of the
  -- warning where that is on, and each target has a name of its own, one address, of the right form, and
  -- only options that apply to it.
  pub validate_probes-Decides : (p : ProbesConfig) → Decides (validate_probes w p) (AreProbes p)
  unfolding validate_probes
  validate_probes-Decides p = where_set-Decides _ _ (nil_iff p.targets) (
      then-Decides _ _ (guard-Decides _ _ (not_above_zero-Positive p.interval_seconds)) (
        then-Decides _ _ (guard-Decides _ _ (not_above_zero-Positive p.timeout_seconds)) (
          then-Decides _ _ (guard-Decides _ _ (not_above_zero-Positive p.failures)) (
            then-Decides _ _
              (guard-Decides _ _ (
                or_iff _ _ (below_zero-NonNegative p.cert_warn_days)
                  (below_zero-NonNegative p.cert_critical_days)))
              (then-Decides _ _
                (guard-Decides _ _ (
                  and_iff _ _ (less-AtMost p.cert_warn_days (pos 0))
                    (less-AtMost p.cert_critical_days p.cert_warn_days)))
                (check_targets-Decides 0 [] p.targets))))))
