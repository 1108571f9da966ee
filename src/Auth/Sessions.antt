-- ===== src/Auth/Sessions.antt =====
-- server/auth/sessions.ts after `initSessions`. `now` is `Date.now()` at the call, `id` what
-- `randomId` drew, and `sign` the HMAC under the process's key, in base64url.
pub mod Tokens
pub mod Cookies
pub mod Laws
use ob2_turbo_quant.Common.{
  ℕ, suc, ◌+◌, ◌-◌, ◌*◌, Bool, true, false, not, ◌||◌, Option, none, some, ◌++◌, ltb, ◌==◌,
  if◌then◌else◌, Text, text_key, text_eq, is_empty, length, take, drop, is_some, index_of, List, [],
  ◌∷◌,
}
use ob2_turbo_quant.Common.JsMap
use ob2_turbo_quant.Common.JsMap.{JsMap}
use ob2_turbo_quant.Auth.TimingSafe.{timing_safe_equal}

pub record SessionEntry : Type 0 where
  pub username : Text
  pub expires_at : ℕ
  pub created_at : ℕ

pub record SessionStore : Type 0 where
  pub sessions : JsMap Text SessionEntry
  pub ttl_sec : ℕ

-- The id and the signature of a cookie's value, where both are there.
unfoldable pub split_token : Text → Option (Text × Text)
split_token token = elim (index_of b'.' token) [
  | none ↦ none
  | some dot ↦
      if dot == 0 || dot == length token - 1
      then none
      else some (take dot token, drop (suc dot) token)
]

unfoldable pub lookup_live : ℕ → Text → SessionStore → Option SessionEntry × SessionStore
lookup_live now id st = elim (JsMap.get id st.sessions) [
  | none ↦ (none, st)
  | some entry ↦
      if ltb entry.expires_at now
      then (none, record st { sessions = JsMap.delete id st.sessions })
      else (some entry, st)
]

module _ (sign : Text → Text) where
  unfoldable pub verify_sig : Text → Text → Bool
  verify_sig payload provided_sig = timing_safe_equal (sign payload) provided_sig

  unfoldable pub create_session : ℕ → Text → Text → SessionStore → SessionStore × Text × ℕ
  create_session now id username st =
      let expires_at = now + st.ttl_sec * 1000 in
      let entry : SessionEntry = record {
        username = username;
        expires_at = expires_at;
        created_at = now;
      } in
      (record st { sessions = JsMap.set id entry st.sessions }, id ++ (b'.' ∷ sign id), expires_at)

  -- The empty token has no dot.
  unfoldable pub resolve_session : ℕ → Text → SessionStore → Option SessionEntry × SessionStore
  unfolding split_token lookup_live verify_sig
  resolve_session now token st = elim (split_token token) [
    | none ↦ (none, st)
    | some (id, sig) ↦ if verify_sig id sig then lookup_live now id st else (none, st)
  ]

-- The id that `revokeSession` deletes: whatever stands before a dot that is not the first character.
pub token_id : Text → Option Text
token_id token = elim (index_of b'.' token) [
  | none ↦ none
  | some dot ↦ if dot == 0 then none else some (take dot token)
]

unfoldable pub revoke_session : Text → SessionStore → SessionStore × Bool
unfolding token_id
revoke_session token st = elim (token_id token) [
  | none ↦ (st, false)
  | some id ↦
      (record st { sessions = JsMap.delete id st.sessions }, is_some (JsMap.get id st.sessions))
]

unfoldable pub revoke_user_sessions : Text → SessionStore → SessionStore × ℕ
revoke_user_sessions username st =
    let left = JsMap.retain (λ e. not (text_eq e.username username)) st.sessions in
    (record st { sessions = left }, length st.sessions - length left)

unfoldable pub sweep_expired : ℕ → SessionStore → SessionStore × ℕ
sweep_expired now st =
    let left = JsMap.retain (λ e. not (ltb e.expires_at now)) st.sessions in
    (record st { sessions = left }, length st.sessions - length left)

pub session_count : SessionStore → ℕ
session_count st = length st.sessions
