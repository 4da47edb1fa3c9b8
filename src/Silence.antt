-- ===== src/Silence.antt =====
-- internal/silence/silence.go: silences set by hand and automatic deploy windows.
-- A method takes the clock's reading as `now`. `path.Match` of Go's standard library is the section
-- parameter `path_match`: `none` is its error, the pattern is malformed.
pub mod Decide
pub mod Windows
pub mod Valid
pub mod Lifecycle
pub mod Listed
pub mod Save
pub mod Tests
use nodux.Base.{
  ℕ, ◌+◌, Bool, true, false, not, ◌&&◌, ◌||◌, String, List, [], ◌∷◌, ◌++◌, Option, none, some,
  HasEq, string_eq, nat_eq, ◌==◌, ◌≡◌, ◌↔◌, arith, if◌then◌else◌, ℤ, positive, str_lt, inl, inr,
  ◌⊎◌, ltb, is_empty, is_some, or_else, any, map,
}
use Prim.Native.String.{◌++◌ as str_append}
use mathlib.Core.Option
use nodux.Sort.{sort_by}
use nodux.Dict.{Dict, lookup, insert, delete, retain}

pub record Matcher : Type 0 where
  pub target : String
  pub detector : String
  pub container : String
  pub project : String
  pub resource : String

pub record Subject : Type 0 where
  pub detector : String
  pub container : String
  pub project : String
  pub resource : String
  pub one_off : Bool

pub record Silence : Type 0 where
  pub id : String
  pub matcher : Matcher
  pub comment : String
  pub created : ℕ
  pub until : ℕ

pub record Window : Type 0 where
  pub scope : String
  pub name : String
  pub until : ℕ

abbrev pub WindowKey : Type 0
WindowKey = String × String

abbrev pub key_test : WindowKey → WindowKey → Bool
key_test (s, n) (t, m) = s == t && n == m

pub key_test_iff : (a b : WindowKey) → (key_test a b ≡ true) ↔ (a ≡ b)
key_test_iff (s, n) (t, m) = ground (arith, string_eq.test_iff s t, string_eq.test_iff n m)

instance abbrev pub key_eq : HasEq WindowKey
key_eq = record { test = key_test; test_iff = key_test_iff }

pub record Store : Type 0 where
  pub silences : Dict String Silence
  pub windows : Dict WindowKey ℕ

unfoldable pub new : Store
new = record { silences = []; windows = [] }

-- An entry that has not ended.
abbrev pub lasts : ℕ → ℕ → Bool
lasts now until = ltb now until

unfoldable pub prune : ℕ → Store → Store
prune now st = record {
  silences = retain (λ id s. lasts now s.until) st.silences;
  windows = retain (λ k until. lasts now until) st.windows;
}

-- `Remove` reports whether it found the silence.
unfoldable pub remove : String → Store → Store × Bool
remove id st =
    if is_some (lookup id st.silences)
    then (record st { silences = delete id st.silences }, true)
    else (st, false)

abbrev pub container_scope : String
container_scope = "container"

abbrev pub project_scope : String
project_scope = "project"

-- One round of the loop of `Deploy`. A missing window reads as the zero time.
unfoldable pub extend : WindowKey → ℕ → Dict WindowKey ℕ → Dict WindowKey ℕ
extend k until m =
    if not (is_empty k.1) && ltb (or_else (lookup k m) 0) until then insert k until m else m

unfoldable pub deploy : String → String → ℕ → Store → Store
deploy container project until st = record st {
  windows =
      extend (project_scope, project) until (extend (container_scope, container) until st.windows);
}

-- A parser's or a validator's error texts are not kept apart further.
pub data AddError : Type 0 where
  bad_pattern empty_matcher not_positive : AddError

-- Why an alert is silenced: the text after "deploy of", "deploy of compose project", "silence".
pub data Reason : Type 0 where
  deploy_of deploy_of_project silence : String → Reason

module _ (path_match : String → String → Option Bool) where
  -- `glob`: an error of `path.Match` counts as no match.
  unfoldable pub glob : String → String → Bool
  glob pattern s =
      if pattern == "*"
      then true
      else if is_empty s
      then false
      else or_else (path_match pattern s) false

  abbrev pub well_formed : String → Bool
  well_formed f = is_empty f || is_some (path_match f "")

  -- The error of `Validate`, `none` for nil: the loop reports the first malformed pattern, and only
  -- then is an empty matcher reported.
  unfoldable pub validate : Matcher → Option AddError
  validate m =
      if well_formed m.target
        && well_formed m.detector
        && well_formed m.container
        && well_formed m.project
        && well_formed m.resource
      then (if is_empty m.target
            && is_empty m.detector
            && is_empty m.container
            && is_empty m.project
            && is_empty m.resource
          then some empty_matcher
          else none)
      else some bad_pattern

  abbrev pub valid : Matcher → Bool
  valid m = not (is_some (validate m))

  -- `Matcher.Matches`.
  unfoldable pub matches : Matcher → Subject → Bool
  unfolding glob
  matches m s =
      if not (valid m)
      then false
      else if not (is_empty m.target)
          && not (glob m.target s.container)
          && not (glob m.target s.resource)
      then false
      else (is_empty m.detector || glob m.detector s.detector)
        && (is_empty m.container || glob m.container s.container)
        && (is_empty m.project || glob m.project s.project)
        && (is_empty m.resource || glob m.resource s.resource)

  -- `Add`: `id` is the text of four random bytes.
  unfoldable pub add : ℕ → String → Matcher → ℤ → String → Store → (Store × Silence) ⊎ AddError
  add now id m d comment st = elim (validate m) [
    | some e ↦ inr e
    | none ↦ elim (positive d) [
      | none ↦ inr not_positive
      | some n ↦
          let s : Silence = record {
            id = id;
            matcher = m;
            comment = comment;
            created = now;
            until = now + n;
          } in
          inl (record st { silences = insert id s st.silences }, s)
    ]
  ]

  -- The loop over the silences.
  unfoldable pub first_match : Subject → Dict String Silence → Option Silence
  first_match s [] = none
  first_match s ((id, sil) ∷ rest) = if matches sil.matcher s then some sil else first_match s rest

  -- `Silenced`, behind the pruning.
  unfoldable pub decide : Subject → Store → Option Reason
  decide s st =
      if not (is_empty s.container) && not s.one_off && is_open (container_scope, s.container)
      then some (deploy_of s.container)
      else if not (is_empty s.project) && not s.one_off && is_open (project_scope, s.project)
      then some (deploy_of_project s.project)
      else Option.map (λ sil. silence sil.id) (first_match s st.silences)
    where
      is_open : WindowKey → Bool
      is_open k = is_some (lookup k st.windows)

  -- The reason is `none` where the method returns false.
  unfoldable pub silenced : ℕ → Subject → Store → Option Reason × Store
  silenced now s st = let st' = prune now st in (decide s st', st')

pub record Saved : Type 0 where
  pub silences : List Silence
  pub windows : List Window

abbrev pub values {ℓ κ} : {K : Type ℓ} {V : Type κ} → Dict K V → List V
values [] = []
values ((k, v) ∷ m) = v ∷ values m

-- `sort.Slice` of `List`: soonest to end first, then by identifier.
abbrev pub before : Silence → Silence → Bool
before a b = if not (a.until == b.until) then ltb a.until b.until else str_lt a.id b.id

unfoldable pub list : ℕ → Store → List Silence × Store
list now st = let st' = prune now st in (sort_by before (values st'.silences), st')

abbrev pub window_of : WindowKey × ℕ → Window
window_of (k, until) = record { scope = k.0; name = k.1; until = until }

abbrev pub window_before : Window → Window → Bool
window_before a b =
    if not (a.scope == b.scope) then str_lt a.scope b.scope else str_lt a.name b.name

-- `Windows`.
unfoldable pub list_windows : ℕ → Store → List Window × Store
list_windows now st =
    let st' = prune now st in (sort_by window_before (map window_of st'.windows), st')

-- `SaveState` reads the clock twice; the JSON text is not modelled.
unfoldable pub save_state : ℕ → ℕ → Store → Saved × Store
save_state now now' st =
    let (silences, st') = list now st in
    let (windows, st'') = list_windows now' st' in
    (record { silences = silences; windows = windows }, st'')

abbrev pub load_window : Window → Dict WindowKey ℕ → Dict WindowKey ℕ
load_window w m =
    if (w.scope == container_scope || w.scope == project_scope)
      && not (is_empty w.name)
      && ltb (or_else (lookup (w.scope, w.name) m) 0) w.until
    then insert (w.scope, w.name) w.until m
    else m

unfoldable pub load_windows : List Window → Dict WindowKey ℕ → Dict WindowKey ℕ
load_windows [] m = m
load_windows (w ∷ ws) m = load_windows ws (load_window w m)

module _ (path_match : String → String → Option Bool) where
  abbrev pub load_silence : Silence → Dict String Silence → Dict String Silence
  load_silence s m =
      if not (is_empty s.id) && valid path_match s.matcher then insert s.id s m else m

  unfoldable pub load_silences : List Silence → Dict String Silence → Dict String Silence
  load_silences [] m = m
  load_silences (s ∷ ss) m = load_silences ss (load_silence s m)

  unfoldable pub load_state : ℕ → Saved → Store → Store
  load_state now sv st = prune now (record {
    silences = load_silences sv.silences st.silences;
    windows = load_windows sv.windows st.windows;
  })
