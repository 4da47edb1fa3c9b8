-- ===== src/Probe/Tests.antt =====
-- internal/probe/probe.go on a site that fails three times, internal/probe/cert.go on a certificate that
-- expires.
use nodux.Base.{
  ℕ, ◌≤◌, true, count, arith, Option, ◌≡◌, refl, inl, false, String, [], ◌∷◌, none, some, pos, leb,
  or_else, positive,
}
use nodux.Probe.{Url, Target, Prober, Probed, new, check}
use nodux.Probe.Cert.{CertDetector, on_target, critical_on, check-later}
use nodux.Probe.Cert
use nodux.Probe.Streak.{reported, streak, run, check-reported-streak}

abbrev site : Target
site = record {
  name = "site";
  url = "https://example.org";
  tcp = "";
  tls = "";
  container = "";
  status = [];
  skip_verify = false;
}

abbrev down : Target → Probed
down t = record { cert = none; err = some "timed out" }

abbrev parsed : String → Option Url
parsed s = some (record { scheme = "https"; host = "example.org"; escaped_path = "" })

check-reported-streak_example :
    reported "site"
      (check parsed 100 down
        (run parsed 100 (new (site ∷ []) (pos 0) (pos 3)) (down ∷ down ∷ []))).0
    ≡ leb (or_else (positive (pos 3)) 1) (streak site (down ∷ down ∷ down ∷ []))
check-reported-streak_example =
    check-reported-streak parsed (site ∷ []) (pos 0) (pos 3) 100 down (down ∷ down ∷ []) site
      (tt, tt) (inl refl)

abbrev failing : Prober
failing = record (new (site ∷ []) (pos 0) (pos 3)) {
  state = ("site", record { failures = 2; last_err = "timed out"; cert = none }) ∷ [];
}

abbrev expiring : Prober
expiring = record failing {
  state =
      (
        "site",
        record {
          failures = 0;
          last_err = "";
          cert = some (record {
            target = "site";
            subject = "example.org";
            issuer = "an authority";
            not_after = 100;
            leaf = true;
          });
        },
      )
      ∷ [];
}

abbrev cert_detector : CertDetector
cert_detector = record { warn = 30; critical = 7 }

abbrev undated : ℕ → String
undated n = "a date"

check-later_example :
    (count (on_target "site") (Cert.check undated 80 cert_detector expiring)
      ≤ count (on_target "site") (Cert.check undated 95 cert_detector expiring))
    × (count (critical_on "site") (Cert.check undated 80 cert_detector expiring)
        ≤ count (critical_on "site") (Cert.check undated 95 cert_detector expiring))
check-later_example = check-later undated 80 95 cert_detector expiring "site" (omega arith)
