-- ===== src/Probe.antt =====
-- internal/probe/probe.go: the failures of each target and the certificates that were seen. What a request,
-- a connect or a handshake comes to is a parameter, as is the parsing of a URL. The mutex and the goroutines
-- of one Check are not modelled: its results are there when it counts them.
pub mod Cert
pub mod Streak
pub mod Restart
pub mod Tests
use Prim.Native.String.{◌++◌ as str_append}
use nodux.Base.{
  ℕ, zero, suc, ◌+◌, Bool, true, false, not, ◌&&◌, ◌||◌, String, List, [], ◌∷◌, map, any, Option,
  none, some, ℤ, pos, positive, or_else, if◌then◌else◌, ltb, leb, ◌==◌, nat_eq, string_eq, is_empty,
  is_some,
}
use nodux.Dict.{Dict, lookup, insert, retain}
use nodux.Action.Route.{is_nil}
use nodux.Detector.Types.{Issue, no_issue, no_container, severity_critical, literal, number}

pub record Target : Type 0 where
  pub name : String
  pub url : String
  pub tcp : String
  pub tls : String
  pub container : String
  pub status : List ℕ
  pub skip_verify : Bool

pub record CertInfo : Type 0 where
  pub target : String
  pub subject : String
  pub issuer : String
  pub not_after : ℕ
  pub leaf : Bool

pub record Config : Type 0 where
  pub targets : List Target
  pub timeout : ℕ
  pub failures : ℕ

pub record TargetState : Type 0 where
  pub failures : ℕ
  pub last_err : String
  pub cert : Option CertInfo

pub record Prober : Type 0 where
  pub cfg : Config
  pub state : Dict String TargetState

abbrev pub no_state : TargetState
no_state = record { failures = 0; last_err = ""; cert = none }

-- The state of a new prober; a repeated name has one state.
unfoldable pub new_states : List Target → Dict String TargetState
new_states [] = []
new_states (t ∷ ts) = insert t.name no_state (new_states ts)

abbrev pub default_timeout : ℕ
default_timeout = 5000000000

unfoldable pub new : List Target → ℤ → ℤ → Prober
unfolding new_states
new targets timeout failures = record {
  cfg = record {
    targets = targets;
    timeout = or_else (positive timeout) default_timeout;
    failures = or_else (positive failures) 1;
  };
  state = new_states targets;
}

-- What a probe comes to: the certificate that was recorded, and the error.
pub record Probed : Type 0 where
  pub cert : Option CertInfo
  pub err : Option String

-- The statuses that count as up.
unfoldable pub accepts : List ℕ → ℕ → Bool
accepts status code =
    if is_nil status then leb 200 code && ltb code 400 else any (λ s. s == code) status

-- What `url.Parse` makes of a URL, `none` for an error, and `EscapedPath`.
pub record Url : Type 0 where
  pub scheme : String
  pub host : String
  pub escaped_path : String

unfoldable pub display_url : Option Url → String
display_url none = "(invalid URL)"
display_url (some u) =
    if is_empty u.host
    then "(invalid URL)"
    else str_append (str_append (str_append u.scheme "://") u.host) u.escaped_path

unfoldable pub describe : (String → Option Url) → Target → String
unfolding display_url
describe parse_url t =
    if not (is_empty t.url)
    then str_append "GET " (display_url (parse_url t.url))
    else if not (is_empty t.tcp)
    then str_append "TCP connect to " t.tcp
    else str_append "TLS handshake with " t.tls

-- The last certificate that was seen.
abbrev last_cert : Option CertInfo → Option CertInfo → Option CertInfo
last_cert none before = before
last_cert (some c) before = some c

-- The state of a target after a probe. Each target has one, from `New` on.
unfoldable pub update_state : Probed → TargetState → TargetState
update_state r st = elim r.err [
  | none ↦ record { failures = 0; last_err = ""; cert = last_cert r.cert st.cert }
  | some err ↦ record {
    failures = st.failures + 1;
    last_err = err;
    cert = last_cert r.cert st.cert;
  }
]

module _ (parse_url : String → Option Url) where
  unfoldable pub probe_issue : ℕ → Config → Target → String → Issue
  unfolding describe
  probe_issue now cfg t err = record no_issue {
    detector = "probe";
    severity = severity_critical;
    message =
        literal (describe parse_url t)
        ∷ literal ": "
        ∷ literal err
        ∷ (if ltb 1 cfg.failures
            then literal " (" ∷ number cfg.failures ∷ literal " checks in a row)" ∷ []
            else []);
    resource = t.name;
    container = record no_container { name = t.container };
    detected_at = now;
  }

  -- One turn of the loop of `Check`, for a target whose state there is.
  unfoldable pub check_target : ℕ → Config → Target → Probed → TargetState → Option Issue
  unfolding update_state probe_issue
  check_target now cfg t r st = elim r.err [
    | none ↦ none
    | some err ↦
        if ltb (update_state r st).failures cfg.failures
        then none
        else some (probe_issue now cfg t err)
  ]

  unfoldable pub check_targets :
      ℕ
      → Config
      → (Target → Probed)
      → List Target
      → Dict String TargetState
      → List Issue × Dict String TargetState
  unfolding check_target update_state
  check_targets now cfg probe [] m = ([], m)
  check_targets now cfg probe (t ∷ ts) m =
      let st = or_else (lookup t.name m) no_state in
      let r = probe t in
      let (issues, m') = check_targets now cfg probe ts (insert t.name (update_state r st) m) in
      ((elim (check_target now cfg t r st) [ none ↦ issues | some i ↦ i ∷ issues ]), m')

  unfoldable pub check : ℕ → (Target → Probed) → Prober → List Issue × Prober
  unfolding check_targets
  check now probe p =
      let (issues, m) = check_targets now p.cfg probe p.cfg.targets p.state in
      (issues, record p { state = m })

unfoldable pub certs_of : Dict String TargetState → List Target → List CertInfo
certs_of m [] = []
certs_of m (t ∷ ts) = elim (or_else (lookup t.name m) no_state).cert [
  | none ↦ certs_of m ts
  | some c ↦ c ∷ certs_of m ts
]

unfoldable pub certs : Prober → List CertInfo
unfolding certs_of
certs p = certs_of p.state p.cfg.targets

-- A state that is worth saving.
abbrev pub is_saved : String → TargetState → Bool
is_saved name st = ltb 0 st.failures || is_some st.cert

unfoldable pub save_state : Prober → Dict String TargetState
save_state p = retain is_saved p.state

-- The loop of `LoadState`: targets that are no longer configured are dropped.
unfoldable pub load_states :
    Dict String TargetState → Dict String TargetState → Dict String TargetState
load_states [] m = m
load_states ((name, st) ∷ saved) m =
    load_states saved (if is_some (lookup name m) then insert name st m else m)

unfoldable pub load_state : Dict String TargetState → Prober → Prober
unfolding load_states
load_state saved p = record p { state = load_states saved p.state }
