-- ===== src/Knowledge/Gateway/Chat/Guarded.antt =====
-- What a chat asks of the sidecar, and what becomes of one whose retrieval fails.
use ob2_turbo_quant.Common.{
  ◌≡◌, refl, ◌⊎◌, any, Option-cases, Bool, true, false, not, ◌&&◌, Option, none, some, List, [],
  ◌∷◌, Text, All, Bool-cases, inl, inr, if◌then◌else◌, is_empty, option_or, text_eq, text_eq_iff,
  All-imp,
}
use ob2_turbo_quant.Users.{read, Domains, AuthContext, has_permission}
use ob2_turbo_quant.Knowledge.{
  ChatMessage, Request, list_domains, build_context, build_multi_context,
}
use ob2_turbo_quant.Knowledge.Run.{
  go, KeepsTo, >>=-KeepsTo, require-KeepsTo, require_some-KeepsTo, if-KeepsTo, Ends, >>=_outcome,
  >>=-Ends-KeepsTo,
}
use ob2_turbo_quant.Knowledge.Gateway.{last_user_query}
use ob2_turbo_quant.Knowledge.Gateway.Prefix.{resolve_domain}
use ob2_turbo_quant.Knowledge.Gateway.Chat.{
  ChatRequest, GatewayEnv, authentication_error, permission_error, no_domain_access, upstream_error,
  user_candidates, try_ask, is_service, may_read, domain_keys, has_none, messages_of, model_of,
  retrieve_one, candidates, retrieve_multi, retrieve_any, ground, forward, chat_completions,
}

-- The domain has a grant of the user's, whatever the grant says.
abbrev IsGranted : Domains → Text → Type 0
IsGranted ds d = any (text_eq d) (domain_keys ds) ≡ true

keys-IsGranted : (ds : Domains) → All (IsGranted ds) (domain_keys ds)
unfolding any
keys-IsGranted [] = tt
keys-IsGranted ((e, p) ∷ ds) = (
  rw ((text_eq_iff e e).1 refl) refl,
  All-imp
      (λ d h. elim (Bool-cases (text_eq d e)) [ inl same ↦ rw same refl | inr other ↦ rw other h ])
      (domain_keys ds) (keys-IsGranted ds),
)

-- The domain that the message or the model names, where there is one.
abbrev named_in : Text → Option (List ChatMessage) → Option Text
named_in model none = none
named_in model (some sent) = (resolve_domain model sent).0

abbrev pub named_domain : Option ChatRequest → Option Text
named_domain none = none
named_domain (some req) = named_in (model_of req) (messages_of req)

-- What a chat may ask for: the context of the domain that was named, for a caller who may read it;
-- and without one, the list of all domains, for a global administrator, and the context of several
-- domains, each granted to the caller, or any for a global administrator.
abbrev pub MayAsk : AuthContext → Option Text → Request → Type 0
MayAsk auth (some named) (build_context domain query budget) =
    (domain ≡ named) × (has_permission auth named read ≡ true)
MayAsk auth none list_domains = auth.global_admin ≡ true
MayAsk auth none (build_multi_context domains query budget) =
    (auth.global_admin ≡ true) ⊎ All (IsGranted auth.domains) domains
MayAsk auth named request = ⊥

module _ (g : GatewayEnv) (auth : AuthContext) where
  abbrev AreOpen : List Text → Type 0
  AreOpen ds = (auth.global_admin ≡ true) ⊎ All (IsGranted auth.domains) ds

  user_candidates-KeepsTo :
      (is_global : Bool)
      → auth.global_admin ≡ is_global
      → KeepsTo (MayAsk auth none) (user_candidates g is_global auth.domains)
        × Ends AreOpen (user_candidates g is_global auth.domains)
  unfolding user_candidates try_ask
  user_candidates-KeepsTo true h = ((h, tt), inl h)
  user_candidates-KeepsTo false h = (tt, inr (keys-IsGranted auth.domains))

  retrieve_multi-KeepsTo :
      (ds : List Text) (messages : List ChatMessage)
      → AreOpen ds
      → KeepsTo (MayAsk auth none) (retrieve_multi g ds messages)
  unfolding retrieve_multi try_ask
  retrieve_multi-KeepsTo ds messages h =
      if-KeepsTo (MayAsk auth none) (not (is_empty (last_user_query messages)) && not (has_none ds))
        _ _ (h, tt) tt

  ground-KeepsTo :
      (domain : Option Text) (messages : List ChatMessage)
      → KeepsTo (MayAsk auth domain) (ground g (some auth) domain messages)
  unfolding ground retrieve_one retrieve_any candidates try_ask
  ground-KeepsTo none messages =
      let (made, ends) = user_candidates-KeepsTo auth.global_admin refl in
      >>=-Ends-KeepsTo (MayAsk auth none) AreOpen (user_candidates g auth.global_admin auth.domains)
        _ made ends
        (λ ds h.
          require-KeepsTo (MayAsk auth none) _ no_domain_access _
            (λ assigned. retrieve_multi-KeepsTo ds messages h))
  ground-KeepsTo (some domain) messages =
      require-KeepsTo (MayAsk auth (some domain)) (may_read (some auth) domain) permission_error _
        (λ may. ((refl, may), tt))

  forward-KeepsTo :
      (P : Request → Type 0) (model : Text) (stream : Bool) (messages : List ChatMessage)
      → KeepsTo P (forward g model stream messages)
  unfolding forward
  forward-KeepsTo P model true messages =
      require_some-KeepsTo P (g.chat_stream messages) upstream_error _ (λ content e. tt)
  forward-KeepsTo P model false messages =
      require_some-KeepsTo P (g.chat messages) upstream_error _ (λ content e. tt)

  -- A chat that names a domain, in its message or its model, asks the sidecar for the context of that
  -- domain and nothing else, and only for a caller who may read the domain. A chat that names none
  -- asks for the list of all domains only for a global administrator, and for the context of several
  -- domains only where the caller is one or has a grant of each of them, be it one that is no level.
  pub chat_completions-KeepsTo :
      (body : Option ChatRequest)
      → KeepsTo (MayAsk auth (named_domain body)) (chat_completions g (some auth) body)
  unfolding chat_completions
  chat_completions-KeepsTo none =
      require-KeepsTo (MayAsk auth none) (not (is_service (some auth))) authentication_error _
        (λ person. tt)
  chat_completions-KeepsTo (some req) = elim (Option-cases (messages_of req)) [
    | inl missing ↦ rw missing (
        require-KeepsTo (MayAsk auth none) (not (is_service (some auth))) authentication_error _
          (λ person. tt))
    | inr (sent, given) ↦
        let (domain, messages) = resolve_domain (model_of req) sent in
        rw given (
          require-KeepsTo (MayAsk auth domain) (not (is_service (some auth))) authentication_error _
            (λ person.
              >>=-KeepsTo (MayAsk auth domain) (ground g (some auth) domain messages) _
                (ground-KeepsTo domain messages)
                (λ grounded.
                  forward-KeepsTo (MayAsk auth domain) (model_of req) (option_or req.stream false)
                    grounded)))
  ]

-- The chat is one that the caller may have: of a domain that the caller may read, or of any domain by
-- an administrator or a user with at least one domain.
abbrev allowed : Option AuthContext → Option Text → Bool
allowed auth (some domain) = may_read auth domain
allowed none none = true
allowed (some auth) none =
    if auth.global_admin then true else not (has_none (domain_keys auth.domains))

abbrev pub offline : GatewayEnv → GatewayEnv
offline g = record g { sidecar = λ r. none }

retrieve_multi-offline :
    (g : GatewayEnv) (ds : List Text) (messages : List ChatMessage)
    → (retrieve_multi (offline g) ds messages).0 ≡ go messages
unfolding retrieve_multi try_ask
retrieve_multi-offline g ds messages =
    elim (Bool-cases (not (is_empty (last_user_query messages)) && not (has_none ds))) [
      | inl some_domains ↦ rw some_domains refl
      | inr no_domain ↦ rw no_domain refl
    ]

ground-offline :
    (g : GatewayEnv) (auth : Option AuthContext) (domain : Option Text)
    (messages : List ChatMessage)
    → allowed auth domain ≡ true
    → (ground (offline g) auth domain messages).0 ≡ go messages
unfolding ground retrieve_one retrieve_any candidates user_candidates try_ask
ground-offline g auth (some domain) messages h = rw h refl
ground-offline g none none messages h = retrieve_multi-offline g [] messages
ground-offline g (some auth) none messages h = elim (Bool-cases auth.global_admin) [
  | inl global ↦ rw global (retrieve_multi-offline g [] messages)
  | inr local ↦
      let assigned : not (has_none (domain_keys auth.domains)) ≡ true = rw local at h in
      rw (local, assigned) (retrieve_multi-offline g (domain_keys auth.domains) messages)
]

-- While the sidecar answers nothing, a chat that its caller may have is answered all the same: the
-- provider gets the messages without any context, and its answer is the answer.
pub chat_completions-offline :
    (g : GatewayEnv) (auth : Option AuthContext) (req : ChatRequest) (sent : List ChatMessage)
    → is_service auth ≡ false
    → messages_of req ≡ some sent
    → let (domain, messages) = resolve_domain (model_of req) sent in
      allowed auth domain ≡ true
      → (chat_completions (offline g) auth (some req)).0
        ≡ (forward g (model_of req) (option_or req.stream false) messages).0
unfolding chat_completions forward
chat_completions-offline g auth req sent person has_messages may =
    let (domain, messages) = resolve_domain (model_of req) sent in
    rw (person, has_messages)
      (>>=_outcome (ground (offline g) auth domain messages) _ messages
        (ground-offline g auth domain messages may))
