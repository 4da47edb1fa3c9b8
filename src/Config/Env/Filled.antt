-- ===== src/Config/Env/Filled.antt =====
-- internal/config/config.go, expandEnv: what the texts become.
use Prim.Native.String.{◌++◌ as str_append}
use nodux.Base.{
  ℕ, suc, ◌≡◌, refl, ap, ap₂, String, List, [], ◌∷◌, map, if◌then◌else◌, or_else, Bool, true, false,
}
use nodux.Dict.{Dict}
use nodux.Config.{
  Config, WebhookConfig, ReceiverConfig, ProbeTarget, HeartbeatConfig, LlmConfig, TelegramConfig,
}
use nodux.Config.Checks.{Field, key, named}
use nodux.Config.Env.{
  Env, Part, plain, variable, expand_parts, expand, expand_headers, expand_webhook, receiver_field,
  expand_receiver, expand_receivers, expand_targets, expand_heartbeat, expand_llm, expand_telegram,
  expand_fields,
}

-- The texts in which variables may stand: of parts that can be switched on, if they are on.
abbrev pub on_headers : (String → String) → Dict String String → Dict String String
on_headers f headers = map (λ h. (h.0, f h.1)) headers

abbrev pub on_webhook : (String → String) → WebhookConfig → WebhookConfig
on_webhook f wh =
    if wh.enabled then record wh { url = f wh.url; headers = on_headers f wh.headers } else wh

abbrev pub on_receiver : (String → String) → ReceiverConfig → ReceiverConfig
on_receiver f r = record r {
  url = f r.url;
  api_url = f r.api_url;
  bot_token = f r.bot_token;
  chat_id = f r.chat_id;
  token = f r.token;
  headers = on_headers f r.headers;
}

abbrev pub on_target : (String → String) → ProbeTarget → ProbeTarget
on_target f t = record t { url = f t.url }

abbrev pub on_heartbeat : (String → String) → HeartbeatConfig → HeartbeatConfig
on_heartbeat f hb = if hb.enabled then record hb { url = f hb.url } else hb

abbrev pub on_llm : (String → String) → LlmConfig → LlmConfig
on_llm f l = if l.enabled then record l { api_key = f l.api_key; base_url = f l.base_url } else l

abbrev pub on_telegram : (String → String) → TelegramConfig → TelegramConfig
on_telegram f tg = if tg.enabled then record tg { token = f tg.token } else tg

-- Every such text of a configuration changed by one function, and nothing else.
abbrev pub on_texts : {Float : Type 0} → (String → String) → Config Float → Config Float
on_texts f c = record c {
  actions = record {
    webhook = on_webhook f c.actions.webhook;
    receivers = map (on_receiver f) c.actions.receivers;
  };
  probes = record c.probes { targets = map (on_target f) c.probes.targets };
  heartbeat = on_heartbeat f c.heartbeat;
  llm = on_llm f c.llm;
  chat_ops = record { telegram = on_telegram f c.chat_ops.telegram };
}

if_first :
    {A B : Type 0} (on : Bool) {x x' : A} (y : A) (m n : B)
    → x ≡ x'
    → (let r : A × B = if on then (x, m) else (y, n) in r.0) ≡ (if on then x' else y)
if_first true y m n h = h
if_first false y m n h = refl

module _ (env : Env) where
  -- A text with the values of its variables.
  abbrev pub value_of : Part → String
  value_of (plain s) = s
  value_of (variable name) = or_else (env.lookup_env name) ""

  abbrev pub joined : List Part → String
  joined [] = ""
  joined (p ∷ ps) = str_append (value_of p) (joined ps)

  abbrev pub filled : String → String
  filled s = joined (env.parts s)

  expand_parts-joined : (field : Field) (ps : List Part) → (expand_parts env field ps).0 ≡ joined ps
  unfolding expand_parts
  expand_parts-joined field [] = refl
  expand_parts-joined field (plain s ∷ ps) = ap (str_append s) (expand_parts-joined field ps)
  expand_parts-joined field (variable name ∷ ps) =
      ap (str_append (or_else (env.lookup_env name) "")) (expand_parts-joined field ps)

  expand-filled : (field : Field) (s : String) → (expand env field s).0 ≡ filled s
  unfolding expand
  expand-filled field s = expand_parts-joined field (env.parts s)

  expand_headers-filled :
      (field : String → Field) (headers : Dict String String)
      → (expand_headers env field headers).0 ≡ on_headers filled headers
  unfolding expand_headers
  expand_headers-filled field [] = refl
  expand_headers-filled field ((k, v) ∷ headers) =
      ap₂ (λ (w : String) (hs : Dict String String). (k, w) ∷ hs) (expand-filled (field k) v)
        (expand_headers-filled field headers)

  expand_webhook-filled : (wh : WebhookConfig) → (expand_webhook env wh).0 ≡ on_webhook filled wh
  unfolding expand_webhook
  expand_webhook-filled wh = if_first wh.enabled wh _ [] (
      ap₂ (λ u hs. record wh { url = u; headers = hs })
        (expand-filled (key "actions.webhook.url") wh.url)
        (expand_headers-filled (λ k. key (str_append "actions.webhook.headers." k)) wh.headers))

  expand_receiver-filled :
      (i : ℕ) (r : ReceiverConfig) → (expand_receiver env i r).0 ≡ on_receiver filled r
  unfolding expand_receiver
  expand_receiver-filled i r = rw (
    expand-filled (receiver_field i r ".url") r.url,
    expand-filled (receiver_field i r ".api_url") r.api_url,
    expand-filled (receiver_field i r ".bot_token") r.bot_token,
    expand-filled (receiver_field i r ".chat_id") r.chat_id,
    expand-filled (receiver_field i r ".token") r.token,
    expand_headers-filled (λ k. receiver_field i r (str_append ".headers." k)) r.headers,
  )

  expand_receivers-filled :
      (i : ℕ) (rs : List ReceiverConfig)
      → (expand_receivers env i rs).0 ≡ map (on_receiver filled) rs
  unfolding expand_receivers
  expand_receivers-filled i [] = refl
  expand_receivers-filled i (r ∷ rs) =
      ap₂ (λ x xs. x ∷ xs) (expand_receiver-filled i r) (expand_receivers-filled (suc i) rs)

  expand_targets-filled :
      (ts : List ProbeTarget) → (expand_targets env ts).0 ≡ map (on_target filled) ts
  unfolding expand_targets
  expand_targets-filled [] = refl
  expand_targets-filled (t ∷ ts) =
      ap₂ (λ u xs. record t { url = u } ∷ xs)
        (expand-filled (named "probes.targets" t.name ".url") t.url) (expand_targets-filled ts)

  expand_heartbeat-filled :
      (hb : HeartbeatConfig) → (expand_heartbeat env hb).0 ≡ on_heartbeat filled hb
  unfolding expand_heartbeat
  expand_heartbeat-filled hb =
      if_first hb.enabled hb _ []
        (ap (λ u. record hb { url = u }) (expand-filled (key "heartbeat.url") hb.url))

  expand_llm-filled : (l : LlmConfig) → (expand_llm env l).0 ≡ on_llm filled l
  unfolding expand_llm
  expand_llm-filled l = if_first l.enabled l _ [] (
      ap₂ (λ k u. record l { api_key = k; base_url = u })
        (expand-filled (key "llm.api_key") l.api_key)
        (expand-filled (key "llm.base_url") l.base_url))

  expand_telegram-filled :
      (tg : TelegramConfig) → (expand_telegram env tg).0 ≡ on_telegram filled tg
  unfolding expand_telegram
  expand_telegram-filled tg =
      if_first tg.enabled tg _ []
        (ap (λ t. record tg { token = t }) (expand-filled (key "chatops.telegram.token") tg.token))

  pub expand_fields-filled :
      {Float : Type 0} (c : Config Float) → (expand_fields env c).0 ≡ on_texts filled c
  unfolding expand_fields
  expand_fields-filled c = rw (
    expand_webhook-filled c.actions.webhook,
    expand_receivers-filled 0 c.actions.receivers,
    expand_targets-filled c.probes.targets,
    expand_heartbeat-filled c.heartbeat,
    expand_llm-filled c.llm,
    expand_telegram-filled c.chat_ops.telegram,
  )
