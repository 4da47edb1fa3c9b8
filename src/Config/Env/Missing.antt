-- ===== src/Config/Env/Missing.antt =====
-- internal/config/config.go, expandEnv: which variables the error names.
use Prim.Native.String.{◌++◌ as str_append}
use nodux.Base.{
  ℕ, suc, ◌≡◌, refl, ap₂, sym, ◌∙◌, inl, inr, Bool, String, List, [], ◌∷◌, ◌++◌, if◌then◌else◌,
  select, str_lt, arith,
}
use nodux.Dict.{Dict}
use nodux.Sort.{sort_by}
use nodux.Action.Route.{is_nil}
use nodux.Config.{
  Config, WebhookConfig, ReceiverConfig, ProbeTarget, HeartbeatConfig, LlmConfig, TelegramConfig,
}
use nodux.Config.Checks.{Field, key, named}
use nodux.Config.Env.Filled.{on_texts, filled, expand_fields-filled}
use nodux.Config.Env.{
  Env, Part, plain, variable, Reference, is_missing, expand_parts, expand, expand_headers,
  expand_webhook, receiver_field, expand_receiver, expand_receivers, expand_targets,
  expand_heartbeat, expand_llm, expand_telegram, expand_fields, expand_env,
}

select-append :
    {A : Type 0} (p : A → Bool) (xs ys : List A) → select p (xs ++ ys) ≡ select p xs ++ select p ys
unfolding select
select-append p [] ys = refl
select-append p (x ∷ xs) ys = ground (arith, select-append p xs ys)

-- The variables that a text refers to.
abbrev pub in_parts : Field → List Part → List Reference
in_parts field [] = []
in_parts field (plain s ∷ ps) = in_parts field ps
in_parts field (variable name ∷ ps) = record { name = name; field = field } ∷ in_parts field ps

module _ (env : Env) where
  abbrev pub in_text : Field → String → List Reference
  in_text field s = in_parts field (env.parts s)

  abbrev pub in_headers : (String → Field) → Dict String String → List Reference
  in_headers field [] = []
  in_headers field ((k, v) ∷ headers) = in_text (field k) v ++ in_headers field headers

  abbrev pub in_webhook : WebhookConfig → List Reference
  in_webhook wh =
      if wh.enabled
      then in_text (key "actions.webhook.url") wh.url
        ++ in_headers (λ k. key (str_append "actions.webhook.headers." k)) wh.headers
      else []

  abbrev pub in_receiver : ℕ → ReceiverConfig → List Reference
  in_receiver i r =
      in_text (receiver_field i r ".url") r.url
      ++ (in_text (receiver_field i r ".api_url") r.api_url
          ++ (in_text (receiver_field i r ".bot_token") r.bot_token
              ++ (in_text (receiver_field i r ".chat_id") r.chat_id
                  ++ (in_text (receiver_field i r ".token") r.token
                      ++ in_headers (λ k. receiver_field i r (str_append ".headers." k))
                          r.headers))))

  abbrev pub in_receivers : ℕ → List ReceiverConfig → List Reference
  in_receivers i [] = []
  in_receivers i (r ∷ rs) = in_receiver i r ++ in_receivers (suc i) rs

  abbrev pub in_targets : List ProbeTarget → List Reference
  in_targets [] = []
  in_targets (t ∷ ts) = in_text (named "probes.targets" t.name ".url") t.url ++ in_targets ts

  abbrev pub in_heartbeat : HeartbeatConfig → List Reference
  in_heartbeat hb = if hb.enabled then in_text (key "heartbeat.url") hb.url else []

  abbrev pub in_llm : LlmConfig → List Reference
  in_llm l =
      if l.enabled
      then in_text (key "llm.api_key") l.api_key ++ in_text (key "llm.base_url") l.base_url
      else []

  abbrev pub in_telegram : TelegramConfig → List Reference
  in_telegram tg = if tg.enabled then in_text (key "chatops.telegram.token") tg.token else []

  -- The variables that the texts of the parts that are on refer to.
  abbrev pub references : {Float : Type 0} → Config Float → List Reference
  references c =
      in_webhook c.actions.webhook
      ++ (in_receivers 0 c.actions.receivers
          ++ (in_targets c.probes.targets
              ++ (in_heartbeat c.heartbeat ++ (in_llm c.llm ++ in_telegram c.chat_ops.telegram))))

  abbrev pub unset : List Reference → List Reference
  unset rs = select (λ r. is_missing env r.name) rs

  -- What is missing in two parts is missing in one or the other.
  unset-both :
      (ms ns xs ys : List Reference) → ms ≡ unset xs → ns ≡ unset ys → ms ++ ns ≡ unset (xs ++ ys)
  unset-both ms ns xs ys e f =
      ap₂ (λ a b. a ++ b) e f ∙ sym (select-append (λ r. is_missing env r.name) xs ys)

  expand_parts-missing :
      (field : Field) (ps : List Part) → (expand_parts env field ps).1 ≡ unset (in_parts field ps)
  unfolding expand_parts select
  expand_parts-missing field [] = refl
  expand_parts-missing field (plain s ∷ ps) = expand_parts-missing field ps
  expand_parts-missing field (variable name ∷ ps) = ground (arith, expand_parts-missing field ps)

  expand-missing : (field : Field) (s : String) → (expand env field s).1 ≡ unset (in_text field s)
  unfolding expand
  expand-missing field s = expand_parts-missing field (env.parts s)

  expand_headers-missing :
      (field : String → Field) (headers : Dict String String)
      → (expand_headers env field headers).1 ≡ unset (in_headers field headers)
  unfolding expand_headers select
  expand_headers-missing field [] = refl
  expand_headers-missing field ((k, v) ∷ headers) =
      unset-both _ _ (in_text (field k) v) (in_headers field headers) (expand-missing (field k) v)
        (expand_headers-missing field headers)

  expand_webhook-missing : (wh : WebhookConfig) → (expand_webhook env wh).1 ≡ unset (in_webhook wh)
  unfolding expand_webhook select
  expand_webhook-missing wh = ground (
    arith,
    unset-both _ _ (in_text (key "actions.webhook.url") wh.url)
        (in_headers (λ k. key (str_append "actions.webhook.headers." k)) wh.headers)
        (expand-missing (key "actions.webhook.url") wh.url)
        (expand_headers-missing (λ k. key (str_append "actions.webhook.headers." k)) wh.headers),
  )

  expand_receiver-missing :
      (i : ℕ) (r : ReceiverConfig) → (expand_receiver env i r).1 ≡ unset (in_receiver i r)
  unfolding expand_receiver
  expand_receiver-missing i r =
      unset-both _ _ (in_text (receiver_field i r ".url") r.url) _ (expand-missing _ r.url) (
        unset-both _ _ (in_text (receiver_field i r ".api_url") r.api_url) _
          (expand-missing _ r.api_url)
          (unset-both _ _ (in_text (receiver_field i r ".bot_token") r.bot_token) _
            (expand-missing _ r.bot_token)
            (unset-both _ _ (in_text (receiver_field i r ".chat_id") r.chat_id) _
              (expand-missing _ r.chat_id)
              (unset-both _ _ (in_text (receiver_field i r ".token") r.token) _
                (expand-missing _ r.token)
                (expand_headers-missing (λ k. receiver_field i r (str_append ".headers." k))
                  r.headers)))))

  expand_receivers-missing :
      (i : ℕ) (rs : List ReceiverConfig) → (expand_receivers env i rs).1 ≡ unset (in_receivers i rs)
  unfolding expand_receivers select
  expand_receivers-missing i [] = refl
  expand_receivers-missing i (r ∷ rs) =
      unset-both _ _ (in_receiver i r) (in_receivers (suc i) rs) (expand_receiver-missing i r)
        (expand_receivers-missing (suc i) rs)

  expand_targets-missing :
      (ts : List ProbeTarget) → (expand_targets env ts).1 ≡ unset (in_targets ts)
  unfolding expand_targets select
  expand_targets-missing [] = refl
  expand_targets-missing (t ∷ ts) =
      unset-both _ _ (in_text (named "probes.targets" t.name ".url") t.url) (in_targets ts)
        (expand-missing _ t.url) (expand_targets-missing ts)

  expand_heartbeat-missing :
      (hb : HeartbeatConfig) → (expand_heartbeat env hb).1 ≡ unset (in_heartbeat hb)
  unfolding expand_heartbeat select
  expand_heartbeat-missing hb = ground (arith, expand-missing (key "heartbeat.url") hb.url)

  expand_llm-missing : (l : LlmConfig) → (expand_llm env l).1 ≡ unset (in_llm l)
  unfolding expand_llm select
  expand_llm-missing l = ground (
    arith,
    unset-both _ _ (in_text (key "llm.api_key") l.api_key) (in_text (key "llm.base_url") l.base_url)
        (expand-missing (key "llm.api_key") l.api_key)
        (expand-missing (key "llm.base_url") l.base_url),
  )

  expand_telegram-missing :
      (tg : TelegramConfig) → (expand_telegram env tg).1 ≡ unset (in_telegram tg)
  unfolding expand_telegram select
  expand_telegram-missing tg =
      ground (arith, expand-missing (key "chatops.telegram.token") tg.token)

  module _ {Float : Type 0} where
    expand_fields-missing : (c : Config Float) → (expand_fields env c).1 ≡ unset (references c)
    unfolding expand_fields
    expand_fields-missing c =
        unset-both _ _ (in_webhook c.actions.webhook) _ (expand_webhook-missing c.actions.webhook) (
          unset-both _ _ (in_receivers 0 c.actions.receivers) _
            (expand_receivers-missing 0 c.actions.receivers)
            (unset-both _ _ (in_targets c.probes.targets) _
              (expand_targets-missing c.probes.targets)
              (unset-both _ _ (in_heartbeat c.heartbeat) _ (expand_heartbeat-missing c.heartbeat) (
                unset-both _ _ (in_llm c.llm) _ (expand_llm-missing c.llm)
                  (expand_telegram-missing c.chat_ops.telegram)))))

    -- `expandEnv` succeeds exactly if every variable that a text of a part that is on refers to is set and not
    -- empty; then each of those texts has the values in the places of its variables, and nothing else of the
    -- configuration is changed. Otherwise its error names, in the order of the texts that it prints, each
    -- reference to a variable that is unset or empty.
    pub expand_env-unset :
        (c : Config Float)
        → expand_env env c ≡ (
            if is_nil (unset (references c))
            then inr (on_texts (filled env) c)
            else inl (sort_by (λ a b. str_lt (env.text a) (env.text b)) (unset (references c))))
    unfolding expand_env
    expand_env-unset c =
        ap₂
          (λ ms (c' : Config Float).
            if is_nil ms
            then inr c'
            else inl (sort_by (λ a b. str_lt (env.text a) (env.text b)) ms))
          (expand_fields-missing c) (expand_fields-filled env c)
