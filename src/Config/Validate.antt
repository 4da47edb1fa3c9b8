-- ===== src/Config/Validate.antt =====
-- internal/config/config.go: validate of `Config`. `digest.ParseSchedule` is that of Digest/Schedule.antt.
pub mod Measures
pub mod Valid
use nodux.Base.{
  ℕ, suc, Bool, true, false, not, ◌&&◌, ◌||◌, String, List, [], ◌∷◌, ℤ, pos, negsuc, Option, none,
  some, inl, inr, if◌then◌else◌, ◌==◌, string_eq, is_empty,
}
use nodux.Action.Route.{is_nil}
use nodux.Digest.Schedule.{Parsers, parse_schedule}
use nodux.Config.{
  Config, DetectorsConfig, HostConfig, IncidentsConfig, WebhookConfig, HeartbeatConfig, LlmConfig,
  DigestConfig, PressureConfig, ReceiverConfig, ActionsConfig, CrashLoopConfig, DiskForecastConfig,
}
use nodux.Config.Checks.{
  Check, Field, Problem, World, wrong, key, at, guard, ◌followed_by◌, where_set, each,
  not_above_zero, below_zero, less, contains, check_threshold, check_url, not_positive, negative,
  is_missing, out_of_range, bad_choice, bad_path, bad_pattern, bad_host_port, duplicate,
  no_state_dir, bad_schedule,
}
use nodux.Config.Probes.{validate_probes}
use nodux.Config.Receiver.{validate_receiver}

unfoldable pub check_positive : String → ℤ → Check
unfolding guard
check_positive field n = guard (not_above_zero n) (wrong (key field) not_positive)

unfoldable pub check_non_negative : String → ℤ → Check
unfolding guard
check_non_negative field n = guard (below_zero n) (wrong (key field) negative)

unfoldable pub check_crash_loop : CrashLoopConfig → Check
unfolding check_positive ◌followed_by◌ where_set
check_crash_loop c = where_set c.enabled (
    check_positive "detectors.crashloop.restart_threshold" c.restart_threshold
    followed_by check_positive "detectors.crashloop.window_minutes" c.window_minutes)

unfoldable pub check_forecast : DiskForecastConfig → Check
unfolding check_positive ◌followed_by◌ where_set
check_forecast f = where_set f.enabled (
    check_positive "host.disk.forecast.window_minutes" f.window_minutes
    followed_by check_positive "host.disk.forecast.horizon_hours" f.horizon_hours)

unfoldable pub check_incidents : IncidentsConfig → Check
unfolding check_positive check_non_negative ◌followed_by◌ where_set
check_incidents c = where_set c.enabled (
    check_non_negative "incidents.group_wait_seconds" c.group_wait_seconds
    followed_by check_positive "incidents.window_minutes" c.window_minutes)

module _ {Float : Type 0} (w : World Float) where
  unfoldable pub check_detectors : DetectorsConfig Float → Check
  unfolding check_crash_loop check_threshold guard ◌followed_by◌ where_set
  check_detectors d =
      check_crash_loop d.crash_loop
      followed_by where_set d.memory.enabled
          (check_threshold w "detectors.memory" d.memory.threshold_percent d.memory.for_seconds)
      followed_by guard (d.expected.enabled && below_zero d.expected.grace_seconds)
          (wrong (key "detectors.expected.grace_seconds") negative)
      followed_by where_set d.cpu_throttle.enabled (
          check_threshold w "detectors.cpu_throttle" d.cpu_throttle.threshold_percent
            d.cpu_throttle.for_seconds)

  unfoldable pub check_signal : String → Float → Check
  unfolding guard
  check_signal field v =
      guard (w.less_than_zero v || w.over_hundred v) (wrong (key field) out_of_range)

  -- The loop over the signals is over a map, whose order Go leaves open; which of several bad ones the error
  -- names is open with it.
  unfoldable pub check_pressure : PressureConfig Float → Check
  unfolding check_signal check_non_negative ◌followed_by◌ where_set
  check_pressure p = where_set p.enabled (
      check_signal "host.pressure.memory_some_percent" p.memory_some
      followed_by check_signal "host.pressure.memory_full_percent" p.memory_full
      followed_by check_signal "host.pressure.io_some_percent" p.io_some
      followed_by check_signal "host.pressure.io_full_percent" p.io_full
      followed_by check_signal "host.pressure.cpu_some_percent" p.cpu_some
      followed_by check_non_negative "host.pressure.for_seconds" p.for_seconds)

  unfoldable pub check_host : HostConfig Float → Check
  unfolding check_forecast check_pressure check_threshold guard ◌followed_by◌ where_set
  check_host h =
      guard ((h.disk.enabled || h.disk.forecast.enabled) && is_nil h.disk.paths)
        (wrong (key "host.disk.paths") is_missing)
      followed_by where_set h.disk.enabled
          (check_threshold w "host.disk" h.disk.threshold_percent (pos 0))
      followed_by check_forecast h.disk.forecast
      followed_by check_pressure h.pressure
      followed_by where_set h.memory.enabled
          (check_threshold w "host.memory" h.memory.threshold_percent h.memory.for_seconds)
      followed_by where_set h.cpu.enabled
          (check_threshold w "host.cpu" h.cpu.threshold_percent h.cpu.for_seconds)
      followed_by guard
          ((h.memory.enabled || (h.cpu.enabled || (h.pressure.enabled || h.oom.enabled)))
            && is_empty h.proc_path)
          (wrong (key "host.proc_path") is_missing)

  unfoldable pub check_webhook : WebhookConfig → Check
  unfolding check_url check_positive guard ◌followed_by◌ where_set
  check_webhook wh = where_set wh.enabled (
      check_url w (key "actions.webhook.url") wh.url
      followed_by guard (not (wh.format == "json") && not (wh.format == "slack"))
          (wrong (key "actions.webhook.format") (bad_choice wh.format))
      followed_by check_positive "actions.webhook.timeout_seconds" wh.timeout_seconds)

  -- The loop over the receivers, with the names that were met. The position that Go puts before an error of
  -- a receiver is left out.
  unfoldable pub check_receivers : ℕ → List String → List ReceiverConfig → Check
  unfolding validate_receiver guard contains ◌followed_by◌
  check_receivers i seen [] = none
  check_receivers i seen (r ∷ rs) =
      validate_receiver w r
      followed_by guard (contains seen r.name) (wrong (at "actions.receivers" i) (duplicate r.name))
      followed_by check_receivers (suc i) (r.name ∷ seen) rs

  unfoldable pub check_actions : ActionsConfig → Check
  unfolding check_webhook check_receivers ◌followed_by◌
  check_actions c =
      check_webhook c.webhook
      followed_by check_receivers 0 (if c.webhook.enabled then "webhook" ∷ [] else []) c.receivers

  unfoldable pub check_heartbeat : HeartbeatConfig → Check
  unfolding check_url check_positive ◌followed_by◌ where_set
  check_heartbeat hb = where_set hb.enabled (
      check_url w (key "heartbeat.url") hb.url
      followed_by check_positive "heartbeat.interval_seconds" hb.interval_seconds)

  unfoldable pub check_llm : LlmConfig → Check
  unfolding check_url check_positive check_non_negative guard ◌followed_by◌ where_set
  check_llm l = where_set l.enabled (
      guard (is_empty l.api_key) (wrong (key "llm.api_key") is_missing)
      followed_by guard (is_empty l.model) (wrong (key "llm.model") is_missing)
      followed_by where_set (not (is_empty l.base_url))
          (check_url w (key "llm.base_url") l.base_url)
      followed_by check_positive "llm.timeout_seconds" l.timeout_seconds
      followed_by check_non_negative "llm.max_per_hour" l.max_per_hour
      followed_by guard
          (not (l.effort == "low")
            && (not (l.effort == "medium")
                && (not (l.effort == "high")
                    && (not (l.effort == "xhigh") && not (l.effort == "max")))))
          (wrong (key "llm.effort") (bad_choice l.effort))
      followed_by guard (below_zero l.max_steps || less (pos 10) l.max_steps)
          (wrong (key "llm.max_steps") out_of_range))

  unfoldable pub check_digest : Parsers → String → DigestConfig → Check
  unfolding guard ◌followed_by◌ where_set parse_schedule
  check_digest ps state_dir d = where_set d.enabled (
      guard (is_empty state_dir) (wrong (key "digest") no_state_dir)
      followed_by (elim (parse_schedule ps d.every d.at d.weekday) [
        | inl e ↦ some (wrong (key "digest") bad_schedule)
        | inr s ↦ none
      ]))

  -- The checks, up to the detectors.
  unfoldable pub check_global : Config Float → Check
  unfolding guard ◌followed_by◌ where_set check_positive check_non_negative
  check_global c =
      guard (not (w.is_level c.log_level)) (wrong (key "log_level") (bad_choice c.log_level))
      followed_by check_positive "poll_interval_seconds" c.poll_interval_seconds
      followed_by check_non_negative "alert_cooldown_minutes" c.alert_cooldown_minutes
      followed_by guard (not (is_empty c.state_dir) && not (w.is_abs c.state_dir))
          (wrong (key "state_dir") (bad_path c.state_dir))
      followed_by guard (not (is_empty c.state_dir) && not_above_zero c.history.retention_days)
          (wrong (key "history.retention_days") not_positive)
      followed_by guard (is_empty c.docker.socket_path)
          (wrong (key "docker.socket_path") is_missing)
      followed_by check_non_negative "docker.down_alert_after_seconds"
          c.docker.down_alert_after_seconds

  unfoldable pub validate : Parsers → Config Float → Check
  unfolding check_global check_detectors check_host check_incidents each guard validate_probes
      check_actions check_non_negative check_heartbeat check_llm check_digest ◌followed_by◌
  validate ps c =
      check_global c
      followed_by check_detectors c.detectors
      followed_by check_host c.host
      followed_by check_incidents c.incidents
      followed_by each
          (λ p. guard (not (w.compiles p)) (wrong (key "redact.patterns") (bad_pattern p)))
          c.redact.patterns
      followed_by validate_probes w c.probes
      followed_by check_actions c.actions
      followed_by check_non_negative "silences.deploy_grace_seconds" c.silences.deploy_grace_seconds
      followed_by guard (not (is_empty c.server.listen) && not (w.splits c.server.listen))
          (wrong (key "server.listen") (bad_host_port c.server.listen))
      followed_by check_heartbeat c.heartbeat
      followed_by check_llm c.llm
      followed_by check_digest ps c.state_dir c.digest
      followed_by guard (c.chat_ops.telegram.enabled && is_empty c.chat_ops.telegram.token)
          (wrong (key "chatops.telegram.token") is_missing)
