-- ===== src/Users/Access/Bearer.antt =====
-- Whom `bearerAuthMulti` lets in, and as whom.
use ob2_turbo_quant.Common.{
  ℕ, ◌≡◌, ◌≢◌, List, find, text_key, ap, sym, subst, ◌∙◌, true, not, ◌&&◌, some, [], ◌∷◌, ◌++◌,
  arith, Text, text_eq, text_eq_iff, codes, is_empty, starts_with, drop, Bool-cases, Option-cases,
  inl, inr,
}
use ob2_turbo_quant.Auth.Sessions.{SessionEntry, SessionStore, resolve_session}
use ob2_turbo_quant.Auth.Sessions.Laws.{IsLive, resolve_sound}
use ob2_turbo_quant.Common.JsMap
use ob2_turbo_quant.Users.{UserRecord, AuthContext, Config, admin_name}
use ob2_turbo_quant.Users.Store.{UserStore, reload_if_changed, has_real_global_admin}
use ob2_turbo_quant.Users.Store.Reload.{KeysDistinct, reload_idem}
use ob2_turbo_quant.Users.Access.Known.{IsKnown, IsHeld, HasLoaded, resolve-IsKnown, resolve-IsHeld}
use ob2_turbo_quant.Users.Access.{
  proceed, Headers, service_context, resolve_auth_by_username, bootstrap, impersonated_name,
  bearer_key, bearer_header, session_user, bearer_auth,
}

-- The four ways in: a live session of the user; and, without one, the service token on behalf of
-- a user, the service token alone, and the user's own key (or the brain key).
pub data LetsIn (sign : Text → Text) (config : Config) (now : ℕ) (h : Headers)
    (us : List UserRecord) (ss : SessionStore) : AuthContext → Type 0 where
  by_session :
      {a : AuthContext} (token id : Text) (entry : SessionEntry)
      → h.cookie ≡ some token
      → token ≡ id ++ (b'.' ∷ sign id)
      → IsLive now id entry ss
      → IsKnown us entry.username a
      → LetsIn sign config now h us ss a
  by_service :
      {a : AuthContext} (header : Text)
      → h.authorization ≡ some header
      → starts_with (codes "Bearer ") header ≡ true
      → drop 7 header ≡ config.openwebui_service_token
      → config.openwebui_service_token ≢ []
      → impersonated_name h ≢ []
      → IsKnown us (impersonated_name h) a
      → LetsIn sign config now h us ss a
  as_service :
      {a : AuthContext} (header : Text)
      → h.authorization ≡ some header
      → starts_with (codes "Bearer ") header ≡ true
      → drop 7 header ≡ config.openwebui_service_token
      → config.openwebui_service_token ≢ []
      → impersonated_name h ≡ []
      → a ≡ service_context
      → LetsIn sign config now h us ss a
  by_key :
      {a : AuthContext} (header : Text)
      → h.authorization ≡ some header
      → starts_with (codes "Bearer ") header ≡ true
      → IsHeld us config.brain_key (drop 7 header) a
      → LetsIn sign config now h us ss a

HasLoaded-reload :
    (us : List UserRecord) (st : UserStore) → HasLoaded us st → HasLoaded us (reload_if_changed st)
HasLoaded-reload us st h = ap (λ s. s.users) (reload_idem st) ∙ h

-- A look-up by name leaves the store reloaded once or twice.
resolve-HasLoaded :
    (us : List UserRecord) (username : Text) (st : UserStore)
    → HasLoaded us st
    → HasLoaded us (resolve_auth_by_username username st).1
unfolding resolve_auth_by_username bootstrap has_real_global_admin
resolve-HasLoaded us username st h =
    let once = HasLoaded-reload us st h in
    let twice = HasLoaded-reload us (reload_if_changed st) once in
    elim (Bool-cases (text_eq username admin_name)) [
      | inl bootstrapping ↦ rw bootstrapping twice
      | inr named_user ↦
          rw named_user
            (elim (Option-cases (
              find (λ u. text_eq u.username username)
                (JsMap.values (reload_if_changed st).users))) [
                  | inl missing ↦ rw missing once
                  | inr (u, found) ↦ rw found once
                ])
    ]

module _ (sign : Text → Text) (config : Config) (now : ℕ) (h : Headers) (us : List UserRecord)
    (st : UserStore) (ss : SessionStore) (d : KeysDistinct us) where
  session_user-HasLoaded : HasLoaded us st → HasLoaded us (session_user sign now h st ss).1
  unfolding session_user
  session_user-HasLoaded loaded = elim (Option-cases h.cookie) [
    | inl missing ↦
        let same : (session_user sign now h st ss).1 ≡ st = ground arith in
        subst (HasLoaded us) (sym same) loaded
    | inr (token, at) ↦ elim (Option-cases (resolve_session sign now token ss).0) [
      | inl stale ↦
          let same : (session_user sign now h st ss).1 ≡ st = ground arith in
          subst (HasLoaded us) (sym same) loaded
      | inr (entry, found) ↦
          let same : (session_user sign now h st ss).1
              ≡ (resolve_auth_by_username entry.username st).1 =
            ground arith in
          subst (HasLoaded us) (sym same) (resolve-HasLoaded us entry.username st loaded)
    ]
  ]

  bearer_key-LetsIn :
      (header : Text) (a : AuthContext) (st' : UserStore)
      → HasLoaded us st'
      → h.authorization ≡ some header
      → starts_with (codes "Bearer ") header ≡ true
      → (bearer_key config h (drop 7 header) st').0 ≡ proceed a
      → LetsIn sign config now h us ss a
  unfolding bearer_key
  bearer_key-LetsIn header a st' loaded at b e =
      elim (Bool-cases (
        not (is_empty config.openwebui_service_token)
        && text_eq (drop 7 header) config.openwebui_service_token)) [
          | inl service ↦
              let same : drop 7 header ≡ config.openwebui_service_token =
                (text_eq_iff (drop 7 header) config.openwebui_service_token).0 (ground arith) in
              let given : config.openwebui_service_token ≢ [] = ground arith in
              elim (Bool-cases (is_empty (impersonated_name h))) [
                | inl alone ↦ as_service header at b same given (ground arith) (ground arith)
                | inr acting ↦
                    by_service header at b same given (ground arith)
                      (resolve-IsKnown us (impersonated_name h) st' a d loaded (ground arith))
              ]
          | inr user ↦
              by_key header at b
                (resolve-IsHeld us (drop 7 header) config st' a d loaded (ground arith))
        ]

  bearer_header-LetsIn :
      (a : AuthContext) (st' : UserStore)
      → HasLoaded us st'
      → (bearer_header config h st').0 ≡ proceed a
      → LetsIn sign config now h us ss a
  unfolding bearer_header
  bearer_header-LetsIn a st' loaded e = elim (Option-cases h.authorization) [
    | inl missing ↦ absurd (ground arith)
    | inr (header, at) ↦ elim (Bool-cases (starts_with (codes "Bearer ") header)) [
      | inl bearer ↦ bearer_key-LetsIn header a st' loaded at bearer (ground arith)
      | inr other ↦ absurd (ground arith)
    ]
  ]

  session-LetsIn :
      (a : AuthContext)
      → HasLoaded us st
      → (session_user sign now h st ss).0 ≡ some a
      → LetsIn sign config now h us ss a
  unfolding session_user
  session-LetsIn a loaded e = elim (Option-cases h.cookie) [
    | inl missing ↦ absurd (ground arith)
    | inr (token, at) ↦ elim (Option-cases (resolve_session sign now token ss).0) [
      | inl stale ↦ absurd (ground arith)
      | inr (entry, found) ↦
          let (id, shape, _, live) = resolve_sound sign now token ss entry found in
          by_session token id entry at shape live
            (resolve-IsKnown us entry.username st a d loaded (ground arith))
    ]
  ]

  -- Where no two users of users.json share a key and the server has loaded what the file says, a request
  -- passes only in one of four ways, under the context that goes with it: a session cookie with a
  -- valid signature, whose session is live and is that of an enabled user, or of `_admin` while the
  -- file has no enabled global administrator; the service token, not empty, on behalf of such a user;
  -- the service token without a user to act for, as a service; or as a bearer key that of an enabled
  -- user, or the brain key while the file has no enabled global administrator.
  pub bearer_auth-LetsIn :
      (a : AuthContext)
      → HasLoaded us st
      → (bearer_auth sign config now h st ss).0 ≡ proceed a
      → LetsIn sign config now h us ss a
  unfolding bearer_auth
  bearer_auth-LetsIn a loaded e = elim (Option-cases (session_user sign now h st ss).0) [
    | inl none_there ↦
        bearer_header-LetsIn a (session_user sign now h st ss).1 (session_user-HasLoaded loaded)
          (ground arith)
    | inr (b, found) ↦ session-LetsIn a loaded (ground arith)
  ]
