-- ===== src/Detector/HostOom/Tests.antt =====
-- internal/detector/hostoom.go: three kills, one of which a container explains.
use nodux.Base.{List, [], ◌∷◌}
use nodux.Detector.HostOom.{HostOomDetector, new, counter}
use nodux.Detector.HostOom.Tally.{Op, checks, events}

abbrev two_polls : List Op
two_polls =
    checks 100 (counter 5) ∷ events 105 ∷ checks 110 (counter 8) ∷ checks 150 (counter 8) ∷ []

abbrev fresh : HostOomDetector
fresh = new 30 600
