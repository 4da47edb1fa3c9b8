-- ===== src/Config/Validate/Valid.antt =====
-- internal/config/config.go: the configurations that validate accepts.
use nodux.Base.{
  ℕ, suc, ◌≡◌, ◌≢◌, ◌⊎◌, inl, inr, refl, true, not, String, List, [], ◌∷◌, pos, none, some, All,
  if◌then◌else◌,
}
use nodux.Digest.Schedule.{Parsers, Schedule, ScheduleError, parse_schedule}
use nodux.Config.{
  Config, WebhookConfig, HeartbeatConfig, LlmConfig, DigestConfig, ReceiverConfig, ActionsConfig,
}
use nodux.Config.Checks.{
  Decides, World, Positive, NonNegative, AtMost, IsHttp, guard, wrong, key, bad_schedule,
  is_missing, bad_choice, bad_path, bad_pattern, bad_host_port, not_positive, out_of_range,
  duplicate, at, no_state_dir,
}
use nodux.Config.Checks.Decide.{
  guard-Decides, then-Decides, where_set-Decides, each-Decides, or_iff, and_iff,
  not_above_zero-Positive, below_zero-NonNegative, less-AtMost, same_iff, empty_iff, full_iff,
  contains_iff, true_iff, false_iff, check_url-Decides, some-none,
}
use nodux.Config.Probes.Valid.{AreProbes, validate_probes-Decides}
use nodux.Config.Receiver.Valid.{IsReceiver, validate_receiver-Decides}
use nodux.Config.Validate.Measures.{
  Off, IsIncidents, AreDetectors, IsHost, check_positive-Decides, check_non_negative-Decides,
  off-Decides, check_incidents-Decides, check_detectors-Decides, check_host-Decides,
}
use nodux.Config.Validate.{
  check_webhook, check_receivers, check_actions, check_heartbeat, check_llm, check_digest,
  check_global, validate,
}

module _ {Float : Type 0} (w : World Float) where
  abbrev pub IsWebhook : WebhookConfig → Type 0
  IsWebhook wh = Off wh.enabled (
      IsHttp (w.parse_url wh.url)
      × (((wh.format ≡ "json") ⊎ (wh.format ≡ "slack")) × Positive wh.timeout_seconds))

  check_webhook-Decides : (wh : WebhookConfig) → Decides (check_webhook w wh) (IsWebhook wh)
  unfolding check_webhook
  check_webhook-Decides wh = off-Decides wh.enabled _ (
      then-Decides _ _ (check_url-Decides w (key "actions.webhook.url") wh.url) (
        then-Decides _ _
          (guard-Decides _ (wrong (key "actions.webhook.format") (bad_choice wh.format))
            (and_iff _ _ (same_iff wh.format "json") (same_iff wh.format "slack")))
          (check_positive-Decides "actions.webhook.timeout_seconds" wh.timeout_seconds)))

  -- Each receiver is well formed, and no name is met twice.
  abbrev pub AreReceivers : List String → List ReceiverConfig → Type 0
  AreReceivers seen [] = Unit
  AreReceivers seen (r ∷ rs) =
      IsReceiver w r × (All (λ v. v ≢ r.name) seen × AreReceivers (r.name ∷ seen) rs)

  check_receivers-Decides :
      (i : ℕ) (seen : List String) (rs : List ReceiverConfig)
      → Decides (check_receivers w i seen rs) (AreReceivers seen rs)
  unfolding check_receivers
  check_receivers-Decides i seen [] = (λ e. tt, λ p. refl)
  check_receivers-Decides i seen (r ∷ rs) = then-Decides _ _ (validate_receiver-Decides w r) (
      then-Decides _ _
        (guard-Decides _ (wrong (at "actions.receivers" i) (duplicate r.name))
          (contains_iff seen r.name))
        (check_receivers-Decides (suc i) (r.name ∷ seen) rs))

  abbrev pub AreActions : ActionsConfig → Type 0
  AreActions c =
      IsWebhook c.webhook
      × AreReceivers (if c.webhook.enabled then "webhook" ∷ [] else []) c.receivers

  check_actions-Decides : (c : ActionsConfig) → Decides (check_actions w c) (AreActions c)
  unfolding check_actions
  check_actions-Decides c =
      then-Decides _ _ (check_webhook-Decides c.webhook) (check_receivers-Decides 0 _ c.receivers)

  abbrev pub IsHeartbeat : HeartbeatConfig → Type 0
  IsHeartbeat hb = Off hb.enabled (IsHttp (w.parse_url hb.url) × Positive hb.interval_seconds)

  check_heartbeat-Decides : (hb : HeartbeatConfig) → Decides (check_heartbeat w hb) (IsHeartbeat hb)
  unfolding check_heartbeat
  check_heartbeat-Decides hb = off-Decides hb.enabled _ (
      then-Decides _ _ (check_url-Decides w (key "heartbeat.url") hb.url)
        (check_positive-Decides "heartbeat.interval_seconds" hb.interval_seconds))

  abbrev pub IsEffort : String → Type 0
  IsEffort e = (e ≡ "low") ⊎ ((e ≡ "medium") ⊎ ((e ≡ "high") ⊎ ((e ≡ "xhigh") ⊎ (e ≡ "max"))))

  abbrev pub IsLlm : LlmConfig → Type 0
  IsLlm l = Off l.enabled (
      (l.api_key ≢ "")
      × ((l.model ≢ "")
          × (((l.base_url ≡ "") ⊎ IsHttp (w.parse_url l.base_url))
              × (Positive l.timeout_seconds
                  × (NonNegative l.max_per_hour
                      × (IsEffort l.effort
                          × (NonNegative l.max_steps × AtMost l.max_steps (pos 10))))))))

  check_llm-Decides : (l : LlmConfig) → Decides (check_llm w l) (IsLlm l)
  unfolding check_llm
  check_llm-Decides l = off-Decides l.enabled _ (
      then-Decides _ _ (guard-Decides _ (wrong (key "llm.api_key") is_missing) (full_iff l.api_key))
        (then-Decides _ _ (guard-Decides _ (wrong (key "llm.model") is_missing) (full_iff l.model))
          (then-Decides _ _
            (where_set-Decides _ _ (empty_iff l.base_url)
              (check_url-Decides w (key "llm.base_url") l.base_url))
            (then-Decides _ _ (check_positive-Decides "llm.timeout_seconds" l.timeout_seconds) (
              then-Decides _ _ (check_non_negative-Decides "llm.max_per_hour" l.max_per_hour) (
                then-Decides _ _
                  (guard-Decides _ (wrong (key "llm.effort") (bad_choice l.effort)) (
                    and_iff _ _ (same_iff l.effort "low") (
                      and_iff _ _ (same_iff l.effort "medium") (
                        and_iff _ _ (same_iff l.effort "high")
                          (and_iff _ _ (same_iff l.effort "xhigh") (same_iff l.effort "max"))))))
                  (guard-Decides _ (wrong (key "llm.max_steps") out_of_range) (
                    or_iff _ _ (below_zero-NonNegative l.max_steps)
                      (less-AtMost l.max_steps (pos 10))))))))))

  -- `ParseSchedule` accepts a schedule.
  abbrev pub IsScheduled : ScheduleError ⊎ Schedule → Type 0
  IsScheduled (inl e) = ⊥
  IsScheduled (inr s) = Unit

  IsScheduled-Decides :
      (s : ScheduleError ⊎ Schedule)
      → Decides
          (elim s [ inl e ↦ some (wrong (key "digest") bad_schedule) | inr s ↦ none ])
          (IsScheduled s)
  IsScheduled-Decides (inl e) = (λ f. absurd (some-none _ f), λ p. absurd p)
  IsScheduled-Decides (inr s) = (λ f. tt, λ p. refl)

  abbrev pub IsDigest : Parsers → String → DigestConfig → Type 0
  IsDigest ps state_dir d =
      Off d.enabled ((state_dir ≢ "") × IsScheduled (parse_schedule ps d.every d.at d.weekday))

  check_digest-Decides :
      (ps : Parsers) (state_dir : String) (d : DigestConfig)
      → Decides (check_digest w ps state_dir d) (IsDigest ps state_dir d)
  unfolding check_digest
  check_digest-Decides ps state_dir d = off-Decides d.enabled _ (
      then-Decides _ _ (guard-Decides _ (wrong (key "digest") no_state_dir) (full_iff state_dir))
        (IsScheduled-Decides (parse_schedule ps d.every d.at d.weekday)))

  abbrev pub IsGlobal : Config Float → Type 0
  IsGlobal c =
      (w.is_level c.log_level ≡ true)
      × (Positive c.poll_interval_seconds
          × (NonNegative c.alert_cooldown_minutes
              × (((c.state_dir ≡ "") ⊎ (w.is_abs c.state_dir ≡ true))
                  × (((c.state_dir ≡ "") ⊎ Positive c.history.retention_days)
                      × ((c.docker.socket_path ≢ "")
                          × NonNegative c.docker.down_alert_after_seconds)))))

  check_global-Decides : (c : Config Float) → Decides (check_global w c) (IsGlobal c)
  unfolding check_global
  check_global-Decides c =
      then-Decides _ _
        (guard-Decides _ (wrong (key "log_level") (bad_choice c.log_level))
          (true_iff (w.is_level c.log_level)))
        (then-Decides _ _ (check_positive-Decides "poll_interval_seconds" c.poll_interval_seconds) (
          then-Decides _ _
            (check_non_negative-Decides "alert_cooldown_minutes" c.alert_cooldown_minutes)
            (then-Decides _ _
              (guard-Decides _ (wrong (key "state_dir") (bad_path c.state_dir))
                (and_iff _ _ (empty_iff c.state_dir) (true_iff (w.is_abs c.state_dir))))
              (then-Decides _ _
                (guard-Decides _ (wrong (key "history.retention_days") not_positive) (
                  and_iff _ _ (empty_iff c.state_dir)
                    (not_above_zero-Positive c.history.retention_days)))
                (then-Decides _ _
                  (guard-Decides _ (wrong (key "docker.socket_path") is_missing)
                    (full_iff c.docker.socket_path))
                  (check_non_negative-Decides "docker.down_alert_after_seconds"
                    c.docker.down_alert_after_seconds))))))

  -- The configurations that nodux runs with.
  abbrev pub IsConfig : Parsers → Config Float → Type 0
  IsConfig ps c =
      IsGlobal c
      × (AreDetectors w c.detectors
          × (IsHost w c.host
              × (IsIncidents c.incidents
                  × (All (λ p. w.compiles p ≡ true) c.redact.patterns
                      × (AreProbes w c.probes
                          × (AreActions c.actions
                              × (NonNegative c.silences.deploy_grace_seconds
                                  × (((c.server.listen ≡ "") ⊎ (w.splits c.server.listen ≡ true))
                                      × (IsHeartbeat c.heartbeat
                                          × (IsLlm c.llm
                                              × (IsDigest ps c.state_dir c.digest
                                                  × Off c.chat_ops.telegram.enabled
                                                      (c.chat_ops.telegram.token ≢ ""))))))))))))

  -- A configuration is accepted exactly if each part that is on has what it needs: counts, periods and
  -- windows that the parts divide by or wait for are positive and others not negative, percentages lie
  -- between 0 and 100, URLs and addresses have their form, names are not repeated, texts are among those
  -- that are known, and the digest has a schedule and a history.
  pub validate-Decides :
      (ps : Parsers) (c : Config Float) → Decides (validate w ps c) (IsConfig ps c)
  unfolding validate
  validate-Decides ps c = then-Decides _ _ (check_global-Decides c) (
      then-Decides _ _ (check_detectors-Decides w c.detectors) (
        then-Decides _ _ (check_host-Decides w c.host) (
          then-Decides _ _ (check_incidents-Decides c.incidents) (
            then-Decides _ _
              (each-Decides
                (λ p. guard (not (w.compiles p)) (wrong (key "redact.patterns") (bad_pattern p)))
                (λ p. guard-Decides _ _ (true_iff (w.compiles p))) c.redact.patterns)
              (then-Decides _ _ (validate_probes-Decides w c.probes) (
                then-Decides _ _ (check_actions-Decides c.actions) (
                  then-Decides _ _
                    (check_non_negative-Decides "silences.deploy_grace_seconds"
                      c.silences.deploy_grace_seconds)
                    (then-Decides _ _
                      (guard-Decides _ (wrong (key "server.listen") (bad_host_port c.server.listen))
                        (and_iff _ _ (empty_iff c.server.listen)
                          (true_iff (w.splits c.server.listen))))
                      (then-Decides _ _ (check_heartbeat-Decides c.heartbeat) (
                        then-Decides _ _ (check_llm-Decides c.llm) (
                          then-Decides _ _ (check_digest-Decides ps c.state_dir c.digest) (
                            guard-Decides _ (wrong (key "chatops.telegram.token") is_missing) (
                              and_iff _ _ (false_iff c.chat_ops.telegram.enabled)
                                (full_iff c.chat_ops.telegram.token))))))))))))))
