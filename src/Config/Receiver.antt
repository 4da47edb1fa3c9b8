-- ===== src/Config/Receiver.antt =====
-- internal/config/config.go: validate of `ReceiverConfig`.
pub mod Valid
use Prim.Native.String.{◌++◌ as str_append}
use nodux.Base.{
  ℕ, Bool, true, false, not, ◌&&◌, ◌||◌, String, List, [], ◌∷◌, map, ℤ, pos, negsuc, Option, none,
  some, if◌then◌else◌, ◌==◌, string_eq, nat_eq, is_empty, select, str_lt,
}
use nodux.Dict.{Dict, delete}
use nodux.Sort.{sort_by}
use nodux.Action.Route.{is_nil}
use nodux.Config.{ReceiverConfig}
use nodux.Config.Checks.{
  Check, Field, Url, wrong, key, named, guard, ◌followed_by◌, where_set, each, below_zero, World,
  check_url, negative, is_missing, bad_choice, bad_pattern, no_topic, foreign,
}

-- `n != 0`.
abbrev pub not_zero : ℤ → Bool
not_zero (pos n) = not (n == 0)
not_zero (negsuc n) = true

-- The fields that belong to one type of receiver, and whether they are set.
unfoldable pub foreign_fields : ReceiverConfig → Dict String Bool
foreign_fields r =
    ("url", not (is_empty r.url))
    ∷ ("format", not (is_empty r.format))
    ∷ ("headers", not (is_nil r.headers))
    ∷ ("bot_token", not (is_empty r.bot_token))
    ∷ ("chat_id", not (is_empty r.chat_id))
    ∷ ("thread_id", not_zero r.thread_id)
    ∷ ("api_url", not (is_empty r.api_url))
    ∷ ("token", not (is_empty r.token))
    ∷ []

unfoldable pub without : List String → Dict String Bool → Dict String Bool
unfolding delete
without [] fields = fields
without (name ∷ allowed) fields = without allowed (delete name fields)

-- The names of the fields that are set although the type does not allow them.
unfoldable pub bad_fields : List String → ReceiverConfig → Dict String Bool
unfolding foreign_fields without select
bad_fields allowed r = select (λ f. f.1) (without allowed (foreign_fields r))

unfoldable pub check_foreign : List String → ReceiverConfig → Check
unfolding bad_fields guard
check_foreign allowed r =
    guard (not (is_nil (bad_fields allowed r)))
      (wrong (key r.name) (foreign (sort_by str_lt (map (λ f. f.0) (bad_fields allowed r)))))

module _ {Float : Type 0} (w : World Float) where
  -- `u` is not nil once the URL has been checked.
  unfoldable pub lacks_topic : Option Url → Bool
  lacks_topic none = true
  lacks_topic (some u) = is_empty (w.trim_slashes u.path)

  abbrev field_of : ReceiverConfig → String → Field
  field_of r more = named "actions.receivers" r.name more

  -- The switch over the type, and the fields of other types.
  unfoldable pub check_kind : ReceiverConfig → Check
  unfolding check_url guard ◌followed_by◌ check_foreign lacks_topic where_set
  check_kind r =
      if r.kind == "webhook"
      then check_url w (field_of r ".url") r.url
        followed_by guard
            (not (is_empty r.format) && (not (r.format == "json") && not (r.format == "slack")))
            (wrong (key r.name) (bad_choice r.format))
        followed_by check_foreign ("url" ∷ "format" ∷ "headers" ∷ []) r
      else if r.kind == "telegram"
      then guard (is_empty r.bot_token || is_empty r.chat_id) (wrong (key r.name) is_missing)
        followed_by where_set (not (is_empty r.api_url))
            (check_url w (field_of r ".api_url") r.api_url)
        followed_by check_foreign ("bot_token" ∷ "chat_id" ∷ "thread_id" ∷ "api_url" ∷ []) r
      else if r.kind == "ntfy"
      then check_url w (field_of r ".url") r.url
        followed_by guard (lacks_topic (w.parse_url r.url)) (wrong (key r.name) no_topic)
        followed_by check_foreign ("url" ∷ "token" ∷ []) r
      else some (wrong (key r.name) (bad_choice r.kind))

  unfoldable pub validate_receiver : ReceiverConfig → Check
  unfolding check_kind guard ◌followed_by◌ each
  validate_receiver r =
      guard (is_empty r.name) (wrong (key "name") is_missing)
      followed_by each
          (λ s.
            guard (not (s == "warning") && not (s == "critical"))
              (wrong (key r.name) (bad_choice s)))
          r.severities
      followed_by each (λ d. guard (not (w.is_pattern d)) (wrong (key r.name) (bad_pattern d)))
          r.detectors
      followed_by guard (below_zero r.timeout_seconds) (wrong (key r.name) negative)
      followed_by check_kind r
