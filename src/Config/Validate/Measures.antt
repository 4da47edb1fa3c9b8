-- ===== src/Config/Validate/Measures.antt =====
-- internal/config/config.go: the measures that validate accepts.
use nodux.Base.{◌≡◌, ◌≢◌, ◌⊎◌, Bool, false, String, [], ℤ, pos}
use nodux.Config.{
  DetectorsConfig, HostConfig, IncidentsConfig, PressureConfig, CrashLoopConfig, DiskForecastConfig,
}
use nodux.Config.Checks.{
  Check, Decides, World, Positive, NonNegative, where_set, wrong, key, negative, is_missing,
}
use nodux.Config.Checks.Decide.{
  guard-Decides, then-Decides, where_set-Decides, or_iff, and_iff, not_above_zero-Positive,
  below_zero-NonNegative, full_iff, some_iff, false_iff, check_threshold-Decides, IsThreshold,
}
use nodux.Config.Validate.{
  check_positive, check_non_negative, check_crash_loop, check_forecast, check_incidents,
  check_detectors, check_signal, check_pressure, check_host,
}

-- A part that is off, or holds what it must.
abbrev pub Off : Bool → Type 0 → Type 0
Off enabled P = (enabled ≡ false) ⊎ P

pub check_positive-Decides :
    (field : String) (n : ℤ) → Decides (check_positive field n) (Positive n)
unfolding check_positive
check_positive-Decides field n = guard-Decides _ _ (not_above_zero-Positive n)

pub check_non_negative-Decides :
    (field : String) (n : ℤ) → Decides (check_non_negative field n) (NonNegative n)
unfolding check_non_negative
check_non_negative-Decides field n = guard-Decides _ _ (below_zero-NonNegative n)

pub off-Decides :
    {P : Type 0} (enabled : Bool) (c : Check)
    → Decides c P
    → Decides (where_set enabled c) (Off enabled P)
off-Decides enabled c h = where_set-Decides enabled c (false_iff enabled) h

abbrev pub IsCrashLoop : CrashLoopConfig → Type 0
IsCrashLoop c = Off c.enabled (Positive c.restart_threshold × Positive c.window_minutes)

abbrev pub IsForecast : DiskForecastConfig → Type 0
IsForecast f = Off f.enabled (Positive f.window_minutes × Positive f.horizon_hours)

abbrev pub IsIncidents : IncidentsConfig → Type 0
IsIncidents c = Off c.enabled (NonNegative c.group_wait_seconds × Positive c.window_minutes)

pub check_crash_loop-Decides : (c : CrashLoopConfig) → Decides (check_crash_loop c) (IsCrashLoop c)
unfolding check_crash_loop
check_crash_loop-Decides c = off-Decides c.enabled _ (
    then-Decides _ _ (check_positive-Decides _ c.restart_threshold)
      (check_positive-Decides _ c.window_minutes))

pub check_forecast-Decides : (f : DiskForecastConfig) → Decides (check_forecast f) (IsForecast f)
unfolding check_forecast
check_forecast-Decides f = off-Decides f.enabled _ (
    then-Decides _ _ (check_positive-Decides _ f.window_minutes)
      (check_positive-Decides _ f.horizon_hours))

pub check_incidents-Decides : (c : IncidentsConfig) → Decides (check_incidents c) (IsIncidents c)
unfolding check_incidents
check_incidents-Decides c = off-Decides c.enabled _ (
    then-Decides _ _ (check_non_negative-Decides _ c.group_wait_seconds)
      (check_positive-Decides _ c.window_minutes))

module _ {Float : Type 0} (w : World Float) where
  abbrev pub AreDetectors : DetectorsConfig Float → Type 0
  AreDetectors d =
      IsCrashLoop d.crash_loop
      × (Off d.memory.enabled (IsThreshold w d.memory.threshold_percent d.memory.for_seconds)
          × (Off d.expected.enabled (NonNegative d.expected.grace_seconds)
              × Off d.cpu_throttle.enabled
                  (IsThreshold w d.cpu_throttle.threshold_percent d.cpu_throttle.for_seconds)))

  pub check_detectors-Decides :
      (d : DetectorsConfig Float) → Decides (check_detectors w d) (AreDetectors d)
  unfolding check_detectors
  check_detectors-Decides d = then-Decides _ _ (check_crash_loop-Decides d.crash_loop) (
      then-Decides _ _
        (off-Decides d.memory.enabled _
          (check_threshold-Decides w "detectors.memory" _ d.memory.for_seconds))
        (then-Decides _ _
          (guard-Decides _ (wrong (key "detectors.expected.grace_seconds") negative) (
            and_iff _ _ (false_iff d.expected.enabled)
              (below_zero-NonNegative d.expected.grace_seconds)))
          (off-Decides d.cpu_throttle.enabled _
            (check_threshold-Decides w "detectors.cpu_throttle" _ d.cpu_throttle.for_seconds))))

  abbrev pub IsSignal : Float → Type 0
  IsSignal v = (w.less_than_zero v ≡ false) × (w.over_hundred v ≡ false)

  abbrev pub IsPressure : PressureConfig Float → Type 0
  IsPressure p = Off p.enabled (
      IsSignal p.memory_some
      × (IsSignal p.memory_full
          × (IsSignal p.io_some
              × (IsSignal p.io_full × (IsSignal p.cpu_some × NonNegative p.for_seconds)))))

  check_signal-Decides :
      (field : String) (v : Float) → Decides (check_signal w field v) (IsSignal v)
  unfolding check_signal
  check_signal-Decides field v =
      guard-Decides _ _ (or_iff _ _ (false_iff (w.less_than_zero v)) (false_iff (w.over_hundred v)))

  check_pressure-Decides : (p : PressureConfig Float) → Decides (check_pressure w p) (IsPressure p)
  unfolding check_pressure
  check_pressure-Decides p = off-Decides p.enabled _ (
      then-Decides _ _ (check_signal-Decides _ p.memory_some) (
        then-Decides _ _ (check_signal-Decides _ p.memory_full) (
          then-Decides _ _ (check_signal-Decides _ p.io_some) (
            then-Decides _ _ (check_signal-Decides _ p.io_full) (
              then-Decides _ _ (check_signal-Decides _ p.cpu_some)
                (check_non_negative-Decides _ p.for_seconds))))))

  abbrev pub IsHost : HostConfig Float → Type 0
  IsHost h =
      (((h.disk.enabled ≡ false) × (h.disk.forecast.enabled ≡ false)) ⊎ (h.disk.paths ≢ []))
      × (Off h.disk.enabled (IsThreshold w h.disk.threshold_percent (pos 0))
          × (IsForecast h.disk.forecast
              × (IsPressure h.pressure
                  × (Off h.memory.enabled
                        (IsThreshold w h.memory.threshold_percent h.memory.for_seconds)
                      × (Off h.cpu.enabled (IsThreshold w h.cpu.threshold_percent h.cpu.for_seconds)
                          × (((h.memory.enabled ≡ false)
                                × ((h.cpu.enabled ≡ false)
                                    × ((h.pressure.enabled ≡ false) × (h.oom.enabled ≡ false))))
                              ⊎ (h.proc_path ≢ "")))))))

  pub check_host-Decides : (h : HostConfig Float) → Decides (check_host w h) (IsHost h)
  unfolding check_host
  check_host-Decides h =
      then-Decides _ _
        (guard-Decides _ _ (
          and_iff _ _ (or_iff _ _ (false_iff h.disk.enabled) (false_iff h.disk.forecast.enabled))
            (some_iff h.disk.paths)))
        (then-Decides _ _
          (off-Decides h.disk.enabled _ (check_threshold-Decides w "host.disk" _ (pos 0)))
          (then-Decides _ _ (check_forecast-Decides h.disk.forecast) (
            then-Decides _ _ (check_pressure-Decides h.pressure) (
              then-Decides _ _
                (off-Decides h.memory.enabled _
                  (check_threshold-Decides w "host.memory" _ h.memory.for_seconds))
                (then-Decides _ _
                  (off-Decides h.cpu.enabled _
                    (check_threshold-Decides w "host.cpu" _ h.cpu.for_seconds))
                  (guard-Decides _ (wrong (key "host.proc_path") is_missing) (
                    and_iff _ _
                      (or_iff _ _ (false_iff h.memory.enabled) (
                        or_iff _ _ (false_iff h.cpu.enabled)
                          (or_iff _ _ (false_iff h.pressure.enabled) (false_iff h.oom.enabled))))
                      (full_iff h.proc_path))))))))
