-- ===== src/Detector/Expected/Tests.antt =====
-- internal/detector/expected.go: a database that goes down between two checks, as the input of the
-- instance.
use nodux.Base.{ℕ, ◌≡◌, ◌+◌, ◌&&◌, leb, refl, [], ◌∷◌, String, List, any, string_eq}
use nodux.Dict.{lookup}
use nodux.Detector.Expected.{new, check}
use nodux.Detector.Expected.Late.{reported}
use nodux.Detector.Expected.Grace.{Round, run, down_at, first_down, check-reported}

abbrev at_time : ℕ → String → Round
at_time now status = record {
  now = now;
  statuses = ("db", status) ∷ ("web", "running") ∷ [];
  labeled = "web" ∷ [];
}

abbrev earlier : List Round
earlier = at_time 140 "exited" ∷ at_time 100 "exited" ∷ at_time 60 "running" ∷ []

down_since_100 : first_down "db" ("db" ∷ []) earlier 170 ≡ 100
unfolding lookup any
down_since_100 = refl

check-reported_example :
    reported "db"
      (check 170 (at_time 170 "exited").statuses ("web" ∷ []) (run (new ("db" ∷ []) 60) earlier)).0
    ≡ (down_at "db" ("db" ∷ []) (at_time 170 "exited")
        && leb (first_down "db" ("db" ∷ []) earlier 170 + 60) 170)
check-reported_example = check-reported ("db" ∷ []) 60 earlier (at_time 170 "exited") "db"
