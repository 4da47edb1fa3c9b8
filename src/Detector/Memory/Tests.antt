-- ===== src/Detector/Memory/Tests.antt =====
-- internal/detector/memory.go on a container that is near its limit, with whole numbers for percentages.
use nodux.Base.{◌≡◌, refl, ◌*◌, ◌/◌, true, [], ◌∷◌, none, is_zero, ltb}
use nodux.Dict.{lookup}
use nodux.Detector.Types.{ContainerSnapshot, no_container}
use nodux.Detector.Labels.{Parsers}
use nodux.Detector.Gate.{Gate}
use nodux.Detector.Gate.Tests.{naturals}
use nodux.Detector.Memory.{Percents, MemoryDetector, new, check, save_state}
use nodux.Detector.Memory.Restart.{restarted, check-load_state}

abbrev percents : Percents naturals
percents = record {
  percent = λ a b. (a * 100) / b;
  parse_percent = λ s. none;
  at_most_zero = is_zero;
  over_hundred = λ v. ltb 100 v;
  print = λ v. "";
  encodes = λ v. true;
}

abbrev parsers : Parsers
parsers = record {
  trim_space = λ s. s;
  split_comma = λ s. s ∷ [];
  parse_bool = λ s. none;
  atoi = λ s. none;
  parse_go_duration = λ s. none;
}

abbrev web : ContainerSnapshot
web = record no_container { id = "c1"; status = "running"; memory_used = 95; memory_limit = 100 }

abbrev firing_gate : Gate naturals
firing_gate = record { threshold = 90; sustain = 60; above_since = 40; firing = true }

abbrev detector : MemoryDetector naturals
detector = record { threshold = 90; sustain = 60; state = ("c1", firing_gate) ∷ [] }

check-load_state_example :
    (check naturals percents parsers 200 web (
      restarted naturals percents parsers
        (save_state naturals percents detector)
        (new naturals 90 60))).0
    ≡ (check naturals percents parsers 200 web detector).0
unfolding lookup
check-load_state_example =
    check-load_state naturals percents parsers 90 60 200 web firing_gate detector (refl, tt)
      ((λ f. refl), tt) refl refl
