-- ===== src/Probe/Cert.antt =====
-- internal/probe/cert.go: the alerts on certificates that expire. The printing of a date is a parameter. A
-- difference of two times does not reach the longest duration, where Go's saturates, and the hours of a
-- duration are not rounded, where Go counts them in a float64.
use nodux.Base.{
  ℕ, ◌+◌, ◌-◌, ◌*◌, ◌/◌, ◌≤◌, Bool, true, false, refl, ap, ◌≡◌, ◌&&◌, String, List, [], ◌∷◌, ◌++◌,
  if◌then◌else◌, ltb, leb, ◌==◌, nat_eq, string_eq, count, arith,
}
use nodux.Detector.Types.{
  Issue, Message, no_issue, severity_critical, severity_warning, literal, number, printed,
}
use nodux.Probe.{CertInfo, Prober, certs}

pub record CertDetector : Type 0 where
  pub warn : ℕ
  pub critical : ℕ

abbrev hours : ℕ
hours = 3600000000000

unfoldable pub days : ℕ → Message
days d =
    let n = d / (24 * hours) in
    if ltb d (24 * hours)
    then number (d / hours) ∷ literal "h" ∷ []
    else if n == 1
    then literal "1 day" ∷ []
    else number n ∷ literal " days" ∷ []

module _ (format : ℕ → String) where
  unfoldable pub cert_message : ℕ → CertInfo → Message
  unfolding days
  cert_message now c =
      (if c.leaf then literal "certificate " else literal "intermediate certificate ")
      ∷ printed c.subject
      ∷ literal " "
      ∷ ((if leb c.not_after now
            then literal "expired " ∷ (days (now - c.not_after) ++ literal " ago" ∷ [])
            else literal "expires in " ∷ days (c.not_after - now))
          ++ literal " ("
            ∷ printed (format c.not_after)
            ∷ literal ", issued by "
            ∷ printed c.issuer
            ∷ literal ")"
            ∷ [])

  unfoldable pub cert_issue : ℕ → CertDetector → CertInfo → Issue
  unfolding cert_message
  cert_issue now d c = record no_issue {
    detector = "tls_cert";
    severity = if leb c.not_after (now + d.critical) then severity_critical else severity_warning;
    message = cert_message now c;
    resource = c.target;
    detected_at = now;
  }

  -- The loop over the certificates.
  unfoldable pub check_certs : ℕ → CertDetector → List CertInfo → List Issue
  unfolding cert_issue
  check_certs now d [] = []
  check_certs now d (c ∷ cs) =
      let rest = check_certs now d cs in
      if ltb (now + d.warn) c.not_after then rest else cert_issue now d c ∷ rest

  unfoldable pub check : ℕ → CertDetector → Prober → List Issue
  unfolding check_certs
  check now d p = check_certs now d (certs p)

-- The alerts on a target, and the critical ones.
abbrev pub on_target : String → Issue → Bool
on_target name i = i.resource == name

abbrev pub critical_on : String → Issue → Bool
critical_on name i = i.resource == name && i.severity == severity_critical

is_critical :
    (b : Bool) → ((if b then severity_critical else severity_warning) == severity_critical) ≡ b
is_critical true = refl
is_critical false = refl

count-turn :
    (p : Issue → Bool) (b : Bool) (i : Issue) (is : List Issue)
    → count p (if b then is else i ∷ is) ≡ (if b then 0 else if p i then 1 else 0) + count p is
unfolding count
count-turn p true i is = omega arith
count-turn p false i is = ground arith

le_between : {a b c d : ℕ} → a ≡ c → b ≡ d → c ≤ d → a ≤ b
le_between p q le = omega arith

-- What one certificate adds to a count, at two times.
hit_le :
    (w e : ℕ) {now later : ℕ} {h i j : Bool} {x y : ℕ}
    → now ≤ later
    → x ≤ y
    → i ≡ h
    → j ≡ h
    → (if ltb (now + w) e then 0 else if i then 1 else 0) + x
      ≤ (if ltb (later + w) e then 0 else if j then 1 else 0) + y
hit_le w e le xy p q = ground arith

critical_hit_le :
    (w k e : ℕ) (h : Bool) {now later : ℕ} {i j : Bool} {x y : ℕ}
    → now ≤ later
    → x ≤ y
    → i ≡ (h && leb e (now + k))
    → j ≡ (h && leb e (later + k))
    → (if ltb (now + w) e then 0 else if i then 1 else 0) + x
      ≤ (if ltb (later + w) e then 0 else if j then 1 else 0) + y
critical_hit_le w k e h le xy p q = ground arith

module _ (format : ℕ → String) where
  critical_on-cert_issue :
      (now : ℕ) (d : CertDetector) (name : String) (c : CertInfo)
      → critical_on name (cert_issue format now d c)
        ≡ (c.target == name && leb c.not_after (now + d.critical))
  unfolding cert_issue
  critical_on-cert_issue now d name c =
      ap (λ b. c.target == name && b) (is_critical (leb c.not_after (now + d.critical)))

  on_target-cert_issue :
      (now : ℕ) (d : CertDetector) (name : String) (c : CertInfo)
      → on_target name (cert_issue format now d c) ≡ (c.target == name)
  unfolding cert_issue
  on_target-cert_issue now d name c = refl

  check_certs-none :
      (now later : ℕ) (d : CertDetector) (name : String)
      → (count (on_target name) (check_certs format now d [])
          ≤ count (on_target name) (check_certs format later d []))
        × (count (critical_on name) (check_certs format now d [])
            ≤ count (critical_on name) (check_certs format later d []))
  unfolding check_certs count
  check_certs-none now later d name = (omega arith, omega arith)

  check_certs-turn :
      (p : Issue → Bool) (now : ℕ) (d : CertDetector) (c : CertInfo) (cs : List CertInfo)
      → count p (check_certs format now d (c ∷ cs))
        ≡ (if ltb (now + d.warn) c.not_after
            then 0
            else if p (cert_issue format now d c)
            then 1
            else 0)
          + count p (check_certs format now d cs)
  unfolding check_certs
  check_certs-turn p now d c cs =
      count-turn p (ltb (now + d.warn) c.not_after) (cert_issue format now d c)
        (check_certs format now d cs)

  check_certs-later :
      (now later : ℕ) (d : CertDetector) (name : String) (cs : List CertInfo)
      → now ≤ later
      → (count (on_target name) (check_certs format now d cs)
          ≤ count (on_target name) (check_certs format later d cs))
        × (count (critical_on name) (check_certs format now d cs)
            ≤ count (critical_on name) (check_certs format later d cs))
  check_certs-later now later d name [] le = check_certs-none now later d name
  check_certs-later now later d name (c ∷ cs) le =
      let rest = check_certs-later now later d name cs le in
      (
        le_between (check_certs-turn (on_target name) now d c cs)
            (check_certs-turn (on_target name) later d c cs)
            (hit_le d.warn c.not_after le rest.0 (on_target-cert_issue now d name c)
              (on_target-cert_issue later d name c)),
        le_between (check_certs-turn (critical_on name) now d c cs)
            (check_certs-turn (critical_on name) later d c cs)
            (critical_hit_le d.warn d.critical c.not_after (c.target == name) le rest.1
              (critical_on-cert_issue now d name c) (critical_on-cert_issue later d name c)),
      )

  -- Time alone ends no alert on a certificate and makes none less severe: as long as the prober sees the
  -- same certificates, a later check has for each target at least as many alerts, and at least as many
  -- critical ones.
  pub check-later :
      (now later : ℕ) (d : CertDetector) (p : Prober) (name : String)
      → now ≤ later
      → (count (on_target name) (check format now d p)
          ≤ count (on_target name) (check format later d p))
        × (count (critical_on name) (check format now d p)
            ≤ count (critical_on name) (check format later d p))
  unfolding check
  check-later now later d p name le = check_certs-later now later d name (certs p) le
