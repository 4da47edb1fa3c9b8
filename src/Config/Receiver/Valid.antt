-- ===== src/Config/Receiver/Valid.antt =====
-- internal/config/config.go: the receivers that validate of `ReceiverConfig` accepts.
use nodux.Base.{
  differ_iff, ◌≡◌, ◌≢◌, ◌⊎◌, ◌↔◌, refl, ap, Bool, true, false, not, String, List, [], ◌∷◌, ℤ, pos,
  negsuc, Option, none, some, is_empty, All, arith, select, nat_eq,
}
use nodux.Action.Route.{is_nil}
use nodux.Dict.{Dict, delete}
use nodux.Config.{ReceiverConfig}
use nodux.Config.Checks.{Decides, World, Url, NonNegative, IsHttp}
use nodux.Config.Checks.Decide.{
  guard-Decides, then-Decides, where_set-Decides, if-Decides, each-Decides, or_iff, and_iff,
  below_zero-NonNegative, some-none, same_iff, empty_iff, full_iff, nil_iff, true_iff,
  check_url-Decides,
}
use nodux.Config.Receiver.{
  not_zero, foreign_fields, without, bad_fields, check_foreign, lacks_topic, check_kind,
  validate_receiver,
}

-- What it means that none of some fields is set.
Unset : Dict String Bool → Type 0 → Type 0
Unset fields Q = (not (is_nil (select (λ (f : String × Bool). f.1) fields)) ≡ false) ↔ Q

Unset-cons :
    {P : Type 0} (Q : Type 0) (name : String) (b : Bool) (rest : Dict String Bool)
    → ((b ≡ false) ↔ P)
    → Unset rest Q
    → Unset ((name, b) ∷ rest) (P × Q)
unfolding Unset select
Unset-cons Q name true rest h k =
    (λ e. absurd (ground (arith, e)), λ p. absurd (ground (arith, h.1 p.0)))
Unset-cons Q name false rest h k = (λ e. (h.0 refl, k.0 e), λ p. k.1 p.1)

Unset-nil : Unset [] (Unit {0})
unfolding Unset select
Unset-nil = (λ e. tt, λ p. refl)

check_foreign-Decides :
    {Q : Type 0} (allowed : List String) (r : ReceiverConfig)
    → Unset (without allowed (foreign_fields r)) Q
    → Decides (check_foreign allowed r) Q
unfolding Unset check_foreign bad_fields
check_foreign-Decides allowed r u = guard-Decides _ _ u

unset_iff : (s : String) → (not (is_empty s) ≡ false) ↔ (s ≡ "")
unset_iff s = empty_iff s

zero_iff : (n : ℤ) → (not_zero n ≡ false) ↔ (n ≡ pos 0)
zero_iff (pos n) = (λ e. ap pos (ground (arith, e)), λ p. ground (arith, p))
zero_iff (negsuc n) = (λ e. absurd (ground (arith, e)), λ p. absurd (ground (arith, p)))

module _ {Float : Type 0} (w : World Float) where
  abbrev pub HasTopic : Option Url → Type 0
  HasTopic none = ⊥
  HasTopic (some u) = w.trim_slashes u.path ≢ ""

  topic_iff : (u : Option Url) → (lacks_topic w u ≡ false) ↔ HasTopic u
  unfolding lacks_topic
  topic_iff none = (λ e. absurd (ground (arith, e)), λ p. absurd p)
  topic_iff (some u) = full_iff (w.trim_slashes u.path)

  abbrev pub IsWebhook : ReceiverConfig → Type 0
  IsWebhook r =
      IsHttp (w.parse_url r.url)
      × (((r.format ≡ "") ⊎ ((r.format ≡ "json") ⊎ (r.format ≡ "slack")))
          × ((r.bot_token ≡ "")
              × ((r.chat_id ≡ "")
                  × ((r.thread_id ≡ pos 0) × ((r.api_url ≡ "") × ((r.token ≡ "") × Unit))))))

  abbrev pub IsTelegram : ReceiverConfig → Type 0
  IsTelegram r =
      ((r.bot_token ≢ "") × (r.chat_id ≢ ""))
      × (((r.api_url ≡ "") ⊎ IsHttp (w.parse_url r.api_url))
          × ((r.url ≡ "") × ((r.format ≡ "") × ((r.headers ≡ []) × ((r.token ≡ "") × Unit)))))

  abbrev pub IsNtfy : ReceiverConfig → Type 0
  IsNtfy r =
      IsHttp (w.parse_url r.url)
      × (HasTopic (w.parse_url r.url)
          × ((r.format ≡ "")
              × ((r.headers ≡ [])
                  × ((r.bot_token ≡ "")
                      × ((r.chat_id ≡ "") × ((r.thread_id ≡ pos 0) × ((r.api_url ≡ "") × Unit)))))))

  abbrev pub IsKind : ReceiverConfig → Type 0
  IsKind r =
      ((r.kind ≡ "webhook") × IsWebhook r)
      ⊎ ((r.kind ≢ "webhook")
          × (((r.kind ≡ "telegram") × IsTelegram r)
              ⊎ ((r.kind ≢ "telegram")
                  × (((r.kind ≡ "ntfy") × IsNtfy r) ⊎ ((r.kind ≢ "ntfy") × ⊥)))))

  -- A receiver has a name, filters and a timeout that make sense, and the fields of its type alone.
  abbrev pub IsReceiver : ReceiverConfig → Type 0
  IsReceiver r =
      (r.name ≢ "")
      × (All (λ s. (s ≡ "warning") ⊎ (s ≡ "critical")) r.severities
          × (All (λ d. w.is_pattern d ≡ true) r.detectors
              × (NonNegative r.timeout_seconds × IsKind r)))

  webhook_unset :
      (r : ReceiverConfig)
      → Decides (check_foreign ("url" ∷ "format" ∷ "headers" ∷ []) r) (
          (r.bot_token ≡ "")
          × ((r.chat_id ≡ "")
              × ((r.thread_id ≡ pos 0) × ((r.api_url ≡ "") × ((r.token ≡ "") × Unit)))))
  unfolding foreign_fields without delete
  webhook_unset r = check_foreign-Decides ("url" ∷ "format" ∷ "headers" ∷ []) r (
      Unset-cons _ _ _ _ (unset_iff r.bot_token) (
        Unset-cons _ _ _ _ (unset_iff r.chat_id) (
          Unset-cons _ _ _ _ (zero_iff r.thread_id) (
            Unset-cons _ _ _ _ (unset_iff r.api_url)
              (Unset-cons _ _ _ _ (unset_iff r.token) Unset-nil)))))

  telegram_unset :
      (r : ReceiverConfig)
      → Decides
          (check_foreign ("bot_token" ∷ "chat_id" ∷ "thread_id" ∷ "api_url" ∷ []) r)
          ((r.url ≡ "") × ((r.format ≡ "") × ((r.headers ≡ []) × ((r.token ≡ "") × Unit))))
  unfolding foreign_fields without delete
  telegram_unset r =
      check_foreign-Decides ("bot_token" ∷ "chat_id" ∷ "thread_id" ∷ "api_url" ∷ []) r (
        Unset-cons _ _ _ _ (unset_iff r.url) (
          Unset-cons _ _ _ _ (unset_iff r.format) (
            Unset-cons _ _ _ _ (nil_iff r.headers)
              (Unset-cons _ _ _ _ (unset_iff r.token) Unset-nil))))

  ntfy_unset :
      (r : ReceiverConfig)
      → Decides (check_foreign ("url" ∷ "token" ∷ []) r) (
          (r.format ≡ "")
          × ((r.headers ≡ [])
              × ((r.bot_token ≡ "")
                  × ((r.chat_id ≡ "") × ((r.thread_id ≡ pos 0) × ((r.api_url ≡ "") × Unit))))))
  unfolding foreign_fields without delete
  ntfy_unset r = check_foreign-Decides ("url" ∷ "token" ∷ []) r (
      Unset-cons _ _ _ _ (unset_iff r.format) (
        Unset-cons _ _ _ _ (nil_iff r.headers) (
          Unset-cons _ _ _ _ (unset_iff r.bot_token) (
            Unset-cons _ _ _ _ (unset_iff r.chat_id) (
              Unset-cons _ _ _ _ (zero_iff r.thread_id)
                (Unset-cons _ _ _ _ (unset_iff r.api_url) Unset-nil))))))

  check_kind-Decides : (r : ReceiverConfig) → Decides (check_kind w r) (IsKind r)
  unfolding check_kind
  check_kind-Decides r =
      if-Decides _ _ _ (same_iff r.kind "webhook") (differ_iff r.kind "webhook")
        (then-Decides _ _ (check_url-Decides w _ r.url) (
          then-Decides _ _
            (guard-Decides _ _ (
              and_iff _ _ (empty_iff r.format)
                (and_iff _ _ (same_iff r.format "json") (same_iff r.format "slack"))))
            (webhook_unset r)))
        (if-Decides _ _ _ (same_iff r.kind "telegram") (differ_iff r.kind "telegram")
          (then-Decides _ _
            (guard-Decides _ _ (or_iff _ _ (full_iff r.bot_token) (full_iff r.chat_id)))
            (then-Decides _ _
              (where_set-Decides _ _ (empty_iff r.api_url) (check_url-Decides w _ r.api_url))
              (telegram_unset r)))
          (if-Decides _ _ _ (same_iff r.kind "ntfy") (differ_iff r.kind "ntfy")
            (then-Decides _ _ (check_url-Decides w _ r.url)
              (then-Decides _ _ (guard-Decides _ _ (topic_iff (w.parse_url r.url))) (ntfy_unset r)))
            (λ e. absurd (some-none _ e), λ p. absurd p)))

  -- A receiver is accepted exactly if it has a name, its severities are warning or critical, its detector
  -- patterns are well formed, its timeout is not negative, it is a webhook, Telegram or ntfy receiver with
  -- the fields that its type needs, of the right form, and no field of another type is set.
  pub validate_receiver-Decides :
      (r : ReceiverConfig) → Decides (validate_receiver w r) (IsReceiver r)
  unfolding validate_receiver
  validate_receiver-Decides r = then-Decides _ _ (guard-Decides _ _ (full_iff r.name)) (
      then-Decides _ _
        (each-Decides _
          (λ s. guard-Decides _ _ (and_iff _ _ (same_iff s "warning") (same_iff s "critical")))
          r.severities)
        (then-Decides _ _
          (each-Decides _ (λ d. guard-Decides _ _ (true_iff (w.is_pattern d))) r.detectors)
          (then-Decides _ _ (guard-Decides _ _ (below_zero-NonNegative r.timeout_seconds))
            (check_kind-Decides r))))
