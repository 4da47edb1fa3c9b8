-- ===== src/Config/Default.antt =====
-- internal/config/config.go: Default, the configuration of an empty file, and what a receiver has unless it
-- says otherwise. The numbers of `float64` come from a conversion of whole numbers.
use nodux.Base.{ℕ, Bool, true, false, [], ◌∷◌, pos, or_else}
use nodux.Config.{Config, ReceiverConfig}

module _ {Float : Type 0} (float : ℕ → Float) where
  unfoldable pub default : Config Float
  default = record {
    hostname = "";
    log_level = "info";
    poll_interval_seconds = pos 15;
    alert_cooldown_minutes = pos 10;
    state_dir = "/var/lib/nodux";
    history = record { retention_days = pos 30 };
    docker = record { socket_path = "/var/run/docker.sock"; down_alert_after_seconds = pos 60 };
    exclude_containers = [];
    detectors = record {
      crash_loop = record { enabled = true; restart_threshold = pos 3; window_minutes = pos 5 };
      oom = record { enabled = true };
      unhealthy = record { enabled = true };
      exit = record { enabled = true; ignore_exit_codes = pos 0 ∷ [] };
      memory = record { enabled = true; threshold_percent = float 90; for_seconds = pos 60 };
      expected = record { enabled = true; containers = []; grace_seconds = pos 60 };
      cpu_throttle = record { enabled = true; threshold_percent = float 25; for_seconds = pos 300 };
    };
    host = record {
      proc_path = "/proc";
      disk = record {
        enabled = true;
        paths = "/" ∷ [];
        threshold_percent = float 90;
        forecast = record { enabled = true; window_minutes = pos 60; horizon_hours = pos 12 };
      };
      memory = record { enabled = true; threshold_percent = float 90; for_seconds = pos 300 };
      cpu = record { enabled = true; threshold_percent = float 95; for_seconds = pos 600 };
      pressure = record {
        enabled = true;
        memory_some = float 10;
        memory_full = float 0;
        io_some = float 0;
        io_full = float 10;
        cpu_some = float 0;
        for_seconds = pos 60;
      };
      oom = record { enabled = true };
    };
    probes = record {
      interval_seconds = pos 30;
      timeout_seconds = pos 5;
      failures = pos 2;
      cert_warn_days = pos 14;
      cert_critical_days = pos 3;
      targets = [];
    };
    incidents = record { enabled = true; group_wait_seconds = pos 30; window_minutes = pos 10 };
    redact = record { defaults = true; patterns = [] };
    actions = record {
      webhook = record {
        enabled = false;
        url = "";
        format = "json";
        headers = [];
        timeout_seconds = pos 5;
      };
      receivers = [];
    };
    silences = record { deploy_grace_seconds = pos 120 };
    server = record { socket_path = "/run/nodux/nodux.sock"; listen = "" };
    heartbeat = record { enabled = false; url = ""; interval_seconds = pos 60 };
    llm = record {
      enabled = false;
      api_key = "${ANTHROPIC_API_KEY}";
      model = "claude-opus-5-5";
      base_url = "";
      effort = "low";
      max_steps = pos 4;
      timeout_seconds = pos 90;
      max_per_hour = pos 30;
    };
    digest = record { enabled = false; every = "daily"; at = "09:00"; weekday = "monday" };
    chat_ops = record {
      telegram = record {
        enabled = false;
        token = "${NODUX_TELEGRAM_TOKEN}";
        allowed_chat_ids = [];
      };
    };
  }

unfoldable pub resolved : ReceiverConfig → Bool
resolved r = or_else r.send_resolved true

unfoldable pub digests : ReceiverConfig → Bool
digests r = or_else r.digest true
