-- ===== src/Silence/Tests.antt =====
-- internal/silence/silence.go: a deploy of one service while another is silenced, as tests and as
-- the input of the instances. `path.Match` is here the equality of texts, which is what it is for
-- patterns without special characters.
use nodux.Base.{
  ◌≡◌, refl, ◌↔◌, Bool, true, false, String, List, [], ◌∷◌, Option, some, arith, string_eq, ◌==◌,
  pos, All, is_some,
}
use nodux.Dict.{lookup, insert, retain}
use nodux.Silence.{
  Matcher, Subject, Store, WindowKey, key_eq, new, add, deploy, extend, silenced, decide,
  first_match, matches, validate, prune, save_state, load_state,
}
use nodux.Silence.Valid.{Op, HasId, adds, deploys, run, step, IsStore, run-IsStore}
use nodux.Silence.Decide.{IsSilenced, silenced-IsSilenced}
use nodux.Silence.Lifecycle.{window_end}
use nodux.Silence.Save.{load_state-save_state}

abbrev same_text : String → String → Option Bool
same_text pattern s = some (pattern == s)

abbrev api_matcher : Matcher
api_matcher = record { target = "api"; detector = ""; container = ""; project = ""; resource = "" }

abbrev api : Subject
api = record {
  detector = "unhealthy";
  container = "api";
  project = "shop";
  resource = "";
  one_off = false;
}

abbrev web_crash : Subject
web_crash = record {
  detector = "exit";
  container = "web";
  project = "shop";
  resource = "";
  one_off = true;
}

abbrev history : List Op
history = adds 100 "1f2e3d4c" api_matcher (pos 50) "" ∷ deploys "web" "shop" 160 ∷ []

history-HasId : All HasId history
history-HasId = (ground (arith, string_eq.test_iff "1f2e3d4c" ""), (tt, tt))

store : Store
store = run same_text new history

store-IsStore : IsStore same_text store
unfolding store
store-IsStore = run-IsStore same_text history history-HasId

run-IsStore_example : IsStore same_text (run same_text new history)
run-IsStore_example = run-IsStore same_text history history-HasId

-- The deploy of one container of the project holds back a probe of the other, not a crash.
deploy_silences : is_some (silenced same_text 150 api store).0 ≡ true
unfolding store run step add validate deploy extend silenced prune decide first_match matches lookup
    insert retain new
deploy_silences = refl

crash_passes : is_some (silenced same_text 150 web_crash store).0 ≡ false
unfolding store run step add validate deploy extend silenced prune decide first_match matches lookup
    insert retain new
crash_passes = refl

silenced-IsSilenced_example :
    (is_some (silenced same_text 150 api store).0 ≡ true) ↔ IsSilenced same_text 150 api store
silenced-IsSilenced_example =
    silenced-IsSilenced same_text 150 api store store-IsStore.silences.distinct
      store-IsStore.windows.distinct

load_state-save_state_example :
    let st' = load_state same_text 140 (save_state 120 121 store).0 new in
    ((id : String) → lookup id st'.silences ≡ lookup id (prune 140 store).silences)
    × ((k : WindowKey) → window_end k st' ≡ window_end k (prune 140 store))
load_state-save_state_example =
    load_state-save_state same_text 120 121 140 store store-IsStore (omega arith) (omega arith)
