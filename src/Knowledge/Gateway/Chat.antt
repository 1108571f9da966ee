-- ===== src/Knowledge/Gateway/Chat.antt =====
-- server/routes/gateway.ts: the handler of POST /v1/chat/completions.
pub mod Guarded
use ob2_turbo_quant.Common.{
  ℕ, Bool, true, false, not, ◌&&◌, Option, none, some, List, [], ◌∷◌, if◌then◌else◌, Text, codes,
  is_empty, option_or,
}
use ob2_turbo_quant.Common.JsMap
use ob2_turbo_quant.Users.{read, Permission, Domains, AuthContext, has_permission}
use ob2_turbo_quant.Knowledge.{
  Request, Reply, ChatMessage, build_context, build_multi_context, list_domains,
}
use ob2_turbo_quant.Knowledge.Run.{
  Outcome, halt, go, Run, ◌>>=◌, ◌>>◌, pass, answer, require, require_some, ask,
}
use ob2_turbo_quant.Knowledge.Gateway.{last_user_query, augment_with_context}
use ob2_turbo_quant.Knowledge.Gateway.Prefix.{resolve_domain}

-- The body; `messages` is `none` where it is no array. The sampling parameters only pass through.
pub record ChatRequest : Type 0 where
  pub model : Text
  pub messages : Option (List ChatMessage)
  pub stream : Option Bool

-- The refusals by their types, and the two answers of the provider: a text, or a stream.
pub data ChatAnswer : Type 0 where
  authentication_error permission_error no_domain_access upstream_error : ChatAnswer
  invalid_request_error : Text → ChatAnswer
  streamed completed : (model content : Text) → ChatAnswer

abbrev pub status_of : ChatAnswer → ℕ
status_of authentication_error = 403
status_of permission_error = 403
status_of no_domain_access = 403
status_of upstream_error = 502
status_of (invalid_request_error message) = 400
status_of (streamed model content) = 200
status_of (completed model content) = 200

-- What the handler takes of the rest of the server, with the two fixed texts of the system message.
pub record GatewayEnv : Type 0 where
  pub sidecar : Request → Option Reply
  pub chat : List ChatMessage → Option Text
  pub chat_stream : List ChatMessage → Option Text
  pub total_token_budget : ℕ
  pub sign : Text → Text
  pub decimal : ℕ → Text
  pub encode : Text → Text
  pub public_url : Text
  pub now_sec : ℕ
  pub instructions : Text
  pub citing : Text

-- `await sidecar.call(…)` within a `try` that goes on without what throws.
unfoldable pub try_ask : (Request → Option Reply) → Request → Run ChatAnswer (Option Reply)
try_ask sidecar request = (go (sidecar request), request ∷ [])

-- `if (auth?.service_only)`
abbrev pub is_service : Option AuthContext → Bool
is_service none = false
is_service (some auth) = auth.service_only

-- `!!auth?.global_admin`
abbrev pub is_admin : Option AuthContext → Bool
is_admin none = false
is_admin (some auth) = auth.global_admin

-- `auth && !isAdmin`
abbrev pub not_admin : Option AuthContext → Bool
not_admin none = false
not_admin (some auth) = not auth.global_admin

-- `auth && !hasPermission(auth, domain, "read")`
abbrev pub may_read : Option AuthContext → Text → Bool
may_read none domain = true
may_read (some auth) domain = has_permission auth domain read

abbrev pub domains_of : Option Reply → List Text
domains_of none = []
domains_of (some r) = r.domain_names

-- `Object.keys(auth.domains)`
abbrev pub domain_keys : Domains → List Text
domain_keys [] = []
domain_keys ((d, p) ∷ ds) = d ∷ domain_keys ds

abbrev pub has_none : List Text → Bool
has_none [] = true
has_none (d ∷ ds) = false

-- `req.messages`, not empty.
abbrev pub messages_of : ChatRequest → Option (List ChatMessage)
messages_of req = elim req.messages [ none ↦ none | some [] ↦ none | some (m ∷ ms) ↦ some (m ∷ ms) ]

-- `req.model || "ob2"`
abbrev pub model_of : ChatRequest → Text
model_of req = if is_empty req.model then codes "ob2" else req.model

module _ (g : GatewayEnv) where
  -- The messages with what was retrieved, or as they are where nothing was.
  abbrev pub augmented : List ChatMessage → Option Reply → List ChatMessage
  augmented messages none = messages
  augmented messages (some ctx) =
      augment_with_context g.sign g.decimal g.encode g.instructions g.citing g.public_url g.now_sec
        messages ctx

  unfoldable pub retrieve_one : Text → List ChatMessage → Run ChatAnswer (List ChatMessage)
  retrieve_one domain messages = do
    ctx ← try_ask g.sidecar (build_context domain (last_user_query messages) g.total_token_budget)
    pass (augmented messages ctx)

  -- The domains that a chat without a domain may look into: all of them for an administrator.
  unfoldable pub user_candidates : Bool → Domains → Run ChatAnswer (List Text)
  user_candidates true domains = do r ← try_ask g.sidecar list_domains; pass (domains_of r)
  user_candidates false domains = pass (domain_keys domains)

  unfoldable pub candidates : Option AuthContext → Run ChatAnswer (List Text)
  candidates none = pass []
  candidates (some auth) = user_candidates auth.global_admin auth.domains

  unfoldable pub retrieve_multi : List Text → List ChatMessage → Run ChatAnswer (List ChatMessage)
  retrieve_multi domains messages =
      let query = last_user_query messages in
      let retrieved : Run ChatAnswer (List ChatMessage) =
        try_ask g.sidecar (build_multi_context domains query g.total_token_budget) >>= λ ctx.
        pass (augmented messages ctx) in
      if not (is_empty query) && not (has_none domains) then retrieved else pass messages

  unfoldable pub retrieve_any :
      Option AuthContext → List ChatMessage → Run ChatAnswer (List ChatMessage)
  retrieve_any auth messages = do
    domains ← candidates auth
    require (not (not_admin auth && has_none domains)) no_domain_access
    retrieve_multi domains messages

  -- The messages for the model.
  unfoldable pub ground :
      Option AuthContext → Option Text → List ChatMessage → Run ChatAnswer (List ChatMessage)
  ground auth none messages = retrieve_any auth messages
  ground auth (some domain) messages =
      require (may_read auth domain) permission_error >> retrieve_one domain messages

  -- The call of the provider.
  unfoldable pub forward : Text → Bool → List ChatMessage → Run ChatAnswer ChatAnswer
  forward model true messages = require_some (g.chat_stream messages) upstream_error >>= λ content.
      pass (streamed model content)
  forward model false messages =
      require_some (g.chat messages) upstream_error >>= λ content. pass (completed model content)

  -- `body` is `none` where it is no JSON.
  unfoldable pub chat_completions :
      Option AuthContext → Option ChatRequest → Run ChatAnswer ChatAnswer
  chat_completions auth body = do
    require (not (is_service auth)) authentication_error
    req ← require_some body (invalid_request_error (codes "invalid JSON body"))
    sent ← require_some (messages_of req) (invalid_request_error (codes "messages[] is required"))
    let (domain, messages) = resolve_domain (model_of req) sent
    grounded ← ground auth domain messages
    forward (model_of req) (option_or req.stream false) grounded
