-- ===== src/Users/Access.antt =====
-- server/users.ts: who a request comes from. `now` is the time of the session lookup and `sign`
-- the HMAC of the session cookies.
pub mod Bootstrap
pub mod Known
pub mod Bearer
use ob2_turbo_quant.Common.{
  ℕ, Bool, true, false, not, ◌&&◌, Option, none, some, List, [], ◌∷◌, if◌then◌else◌, Text, text_key,
  text_eq, codes, is_empty, starts_with, drop, find, option_or,
}
use ob2_turbo_quant.Common.JsMap
use ob2_turbo_quant.Auth.Sessions.{SessionStore, resolve_session}
use ob2_turbo_quant.Users.{
  Permission, Domains, UserRecord, AuthContext, Config, admin_name, has_permission,
}
use ob2_turbo_quant.Users.Store.{UserStore, reload_if_changed, has_real_global_admin}

abbrev pub context_of : UserRecord → AuthContext
context_of u = record {
  username = u.username;
  email = u.email;
  global_admin = u.global_admin;
  domains = u.domains;
  service_only = false;
}

-- The virtual user of the single-key mode.
abbrev pub bootstrap_context : AuthContext
bootstrap_context = record {
  username = admin_name;
  email = none;
  global_admin = true;
  domains = [];
  service_only = false;
}

-- The context of the service token without a user to act as.
abbrev pub service_context : AuthContext
service_context = record {
  username = codes "_openwebui_service";
  email = none;
  global_admin = true;
  domains = [];
  service_only = true;
}

-- The single-key mode, closed once a real admin exists.
unfoldable pub bootstrap : UserStore → Option AuthContext × UserStore
bootstrap st =
    let (closed, st') = has_real_global_admin st in
    (if closed then none else some bootstrap_context, st')

unfoldable pub resolve_auth : Text → Config → UserStore → Option AuthContext × UserStore
resolve_auth key config st =
    let st' = reload_if_changed st in
    elim (JsMap.get key st'.users) [
      | some user ↦ (some (context_of user), st')
      | none ↦ if text_eq key config.brain_key then bootstrap st' else (none, st')
    ]

unfoldable pub resolve_auth_by_username : Text → UserStore → Option AuthContext × UserStore
resolve_auth_by_username username st =
    let st' = reload_if_changed st in
    if text_eq username admin_name
    then bootstrap st'
    else elim (find (λ u. text_eq u.username username) (JsMap.values st'.users)) [
      | none ↦ (none, st')
      | some u ↦ (some (context_of u), st')
    ]

-- What a middleware does with a request: pass it on under a context, or answer with a status.
pub data Decision : Type 0 where
  proceed : AuthContext → Decision
  answer : ℕ → Decision

-- `cookie` is the decoded value of the session cookie, where the `Cookie` header has one.
pub record Headers : Type 0 where
  pub x_brain_key : Option Text
  pub cookie : Option Text
  pub authorization : Option Text
  pub x_ob2_user : Option Text
  pub x_openwebui_user_name : Option Text

unfoldable pub mcp_auth : Config → Headers → UserStore → Decision × UserStore
mcp_auth config h st = elim (JsMap.kept (λ k. not (is_empty k)) h.x_brain_key) [
  | none ↦ (answer 401, st)
  | some key ↦
      let (auth, st') = resolve_auth key config st in
      (elim auth [ none ↦ answer 401 | some a ↦ proceed a ], st')
]

-- `a || b || ""`
unfoldable pub impersonated_name : Headers → Text
impersonated_name h =
    let own = option_or h.x_ob2_user [] in
    if is_empty own then option_or h.x_openwebui_user_name [] else own

-- The path of `Authorization: Bearer <key>`.
unfoldable pub bearer_key : Config → Headers → Text → UserStore → Decision × UserStore
bearer_key config h key st =
    let service = config.openwebui_service_token in
    let target = impersonated_name h in
    let (as_target, st₁) = resolve_auth_by_username target st in
    let (as_key, st₂) = resolve_auth key config st in
    if not (is_empty service) && text_eq key service
    then (if is_empty target
        then (proceed service_context, st)
        else (elim as_target [ none ↦ answer 403 | some a ↦ proceed a ], st₁))
    else (elim as_key [ none ↦ answer 401 | some a ↦ proceed a ], st₂)

unfoldable pub bearer_header : Config → Headers → UserStore → Decision × UserStore
bearer_header config h st = elim h.authorization [
  | none ↦ (answer 401, st)
  | some header ↦
      if starts_with (codes "Bearer ") header
      then bearer_key config h (drop 7 header) st
      else (answer 401, st)
]

module _ (sign : Text → Text) where
  -- The user of a session, where the cookie names a live one.
  unfoldable pub session_user :
      ℕ → Headers → UserStore → SessionStore → Option AuthContext × UserStore × SessionStore
  session_user now h st ss = elim h.cookie [
    | none ↦ (none, st, ss)
    | some token ↦
        let (entry, ss') = resolve_session sign now token ss in
        elim entry [
          | none ↦ (none, st, ss')
          | some e ↦ let (auth, st') = resolve_auth_by_username e.username st in (auth, st', ss')
        ]
  ]

  unfoldable pub bearer_auth :
      Config → ℕ → Headers → UserStore → SessionStore → Decision × UserStore × SessionStore
  bearer_auth config now h st ss =
      let (user, st', ss') = session_user now h st ss in
      let (decision, st'') = bearer_header config h st' in
      elim user [ some a ↦ (proceed a, st', ss') | none ↦ (decision, st'', ss') ]

-- `requireDomainPerm`, with the context that the earlier middleware has set and the domain that
-- the extractor found: `none` lets the request pass.
unfoldable pub require_domain_perm : Permission → Option AuthContext → Option Text → Option ℕ
require_domain_perm required none domain = some 401
require_domain_perm required (some auth) none = none
require_domain_perm required (some auth) (some domain) =
    if not (is_empty domain) && not (has_permission auth domain required) then some 403 else none
