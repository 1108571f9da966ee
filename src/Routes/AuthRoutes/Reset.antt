-- ===== src/Routes/AuthRoutes/Reset.antt =====
-- A new password shuts out whoever held the old one.
use ob2_turbo_quant.Common.{
  ℕ, ◌≡◌, ◌≢◌, inl, inr, none, some, arith, Text, text_key, trim, sym, subst,
}
use ob2_turbo_quant.Common.JsMap.{IsDistinct}
use ob2_turbo_quant.Auth.Passwords.{validate_password_strength}
use ob2_turbo_quant.Auth.Sessions.{SessionEntry, resolve_session, revoke_user_sessions}
use ob2_turbo_quant.Auth.Sessions.Laws.{resolve-revoke_user}
use ob2_turbo_quant.Auth.ResetTokens.{
  TokenKind, reset, invite, Grant, consume_token, revoke_user_tokens,
}
use ob2_turbo_quant.Auth.ResetTokens.Laws.{consume-revoke_user}
use ob2_turbo_quant.Users.Store.{UserStore}
use ob2_turbo_quant.Users.Admin
use ob2_turbo_quant.Users.Admin.{Result, ok, err, set_password}
use ob2_turbo_quant.Routes.Handler.{Server, Platform, Call, Answer, done, signed_in, go}
use ob2_turbo_quant.Routes.AuthRoutes.{ResetBody, text_or, replace_password}
use ob2_turbo_quant.Routes.AuthRoutes.Begun.{Begins}

module _ (p : Platform) where
  -- The password is stored, no cookie opens a session of the user, and no token is granted to the
  -- user.
  pub record IsSecured (call : Call) (username password : Text) (users : UserStore) (s : Server)
      : Type 0 where
    pub password_stored :
        set_password p.argon2id call.now call.salt username password users ≡ ok s.users
    pub no_session :
        (now : ℕ) (token : Text) (entry : SessionEntry)
        → (resolve_session p.sign now token s.sessions).0 ≡ some entry
        → entry.username ≢ username
    pub no_token :
        (plaintext : Text) (now : ℕ) (g : Grant)
        → (consume_token p.sha256_hex plaintext now s.tokens).0 ≡ some g
        → g.username ≢ username

  replace-parts :
      (call : Call) (username password : Text) (s s' : Server) (u : Unit {0})
      → replace_password p call username password s ≡ (go u, s')
      → (set_password p.argon2id call.now call.salt username password s.users ≡ ok s'.users)
        × ((revoke_user_sessions username s.sessions).0 ≡ s'.sessions)
        × ((revoke_user_tokens username call.now s.tokens).1 ≡ s'.tokens)
  unfolding replace_password
  replace-parts call username password s s' u h =
      elim (Admin.Result-cases
        (set_password p.argon2id call.now call.salt username password s.users)) [
          | inl (e, broken) ↦ absurd (ground arith)
          | inr (users, stored) ↦ (ground arith, ground arith, ground arith)
        ]

  -- The common end of a reset and of a change of password.
  pub replace-IsSecured :
      (call : Call) (username password : Text) (s s' : Server) (u : Unit {0})
      → IsDistinct s.sessions.sessions
      → replace_password p call username password s ≡ (go u, s')
      → IsSecured call username password s.users s'
  replace-IsSecured call username password s s' u d h =
      let (stored, ended, removed) = replace-parts call username password s s' u h in
      record {
        password_stored = stored;
        no_session = λ now token entry found.
            resolve-revoke_user p.sign now token username s.sessions entry d
              (subst (λ x. (resolve_session p.sign now token x).0 ≡ some entry) (sym ended) found);
        no_token = λ plaintext now g found.
            consume-revoke_user p.sha256_hex plaintext username call.now now s.tokens g (
              subst (λ x. (consume_token p.sha256_hex plaintext now x).0 ≡ some g) (sym removed)
                found);
      }

  -- How it ends: after a reset with the account as it is secured, and after an invitation with a session
  -- of the user, which the cookie of the answer opens.
  abbrev pub Finishes : TokenKind → Call → Text → Server → Answer → Server → Type 0
  Finishes reset call username middle a s' = (a ≡ done) × (middle ≡ s')
  Finishes invite call username middle a s' =
      (cookie : Text) × (a ≡ signed_in username cookie) × Begins p call username cookie middle s'

  -- How a reset that is answered with success has gone: the token was good, the new password strong
  -- enough, and the account of the token's user is secured at `middle`.
  pub record IsReset (call : Call) (b : ResetBody) (s : Server) (a : Answer) (s' : Server)
      : Type 0 where
    pub grant : Grant
    pub middle : Server
    pub strong : validate_password_strength (text_or b.new_password) ≡ none
    pub granted :
        (consume_token p.sha256_hex (trim (text_or b.token)) call.now s.tokens).0 ≡ some grant
    pub secured : IsSecured call grant.username (text_or b.new_password) s.users middle
    pub finished : Finishes grant.kind call grant.username middle a s'
