-- ===== src/Routes/AuthRoutes.antt =====
-- server/routes/auth.ts. A request's body is `none` where it is no JSON; a missing field is `none`.
pub mod Begun
pub mod Login
pub mod Reset
pub mod Forgot
use ob2_turbo_quant.Common.{
  ℕ, ◌*◌, Bool, true, false, not, ◌&&◌, ◌||◌, Option, none, some, List, [], ◌∷◌, ◌++◌,
  if◌then◌else◌, Text, text_eq, codes, is_empty, trim, find, is_some, option_or,
}
use ob2_turbo_quant.Auth.Passwords.{validate_password_strength}
use ob2_turbo_quant.Auth.Sessions
use ob2_turbo_quant.Auth.ResetTokens
use ob2_turbo_quant.Auth.ResetTokens.{TokenKind, reset, invite, Grant}
use ob2_turbo_quant.Users.{UserRecord, AuthContext, Config, admin_name, is_valid_email}
use ob2_turbo_quant.Users.Store.{UserStore, has_real_global_admin, find_user_by_email, list_users}
use ob2_turbo_quant.Users.Admin
use ob2_turbo_quant.Users.Admin.{Result, ok, err}
use ob2_turbo_quant.Routes.Handler.{
  Mail, Server, Platform, Call, Answer, fail, done, issued_key, signed_in, thrown, Step, halt, go,
  Handler, continue, ◌>>=◌, ◌>>◌, pass, stop, require, require_some, throttle,
}

pub record LoginBody : Type 0 where
  pub username : Option Text
  pub password : Option Text

pub record ResetBody : Type 0 where
  pub token : Option Text
  pub new_password : Option Text

pub record PasswordBody : Type 0 where
  pub current : Option Text
  pub next : Option Text

abbrev minutes : ℕ → ℕ
minutes n = n * 60000

abbrev pub text_or : Option Text → Text
text_or o = option_or o []

-- The part of a handler's answer that an error of the user store replaces.
abbrev pub from_users : {A : Type 0} → Answer → Result (A × UserStore) → Handler A
from_users a (ok (x, users)) s = (go x, record s { users = users })
from_users a (err e) s = (halt a, s)

-- `hasRealGlobalAdmin()`
unfoldable pub real_admin_exists : Handler Bool
real_admin_exists s =
    let (yes_there, users) = has_real_global_admin s.users in
    (go yes_there, record s { users = users })

module _ (p : Platform) where
  -- `createSession` and the cookie that carries its token.
  unfoldable pub begin_session : Call → Text → Handler Answer
  begin_session call username s =
      let (sessions, token, expires_at) =
        Sessions.create_session p.sign call.now call.session_id username s.sessions in
      (go (signed_in username token), record s { sessions = sessions })

  unfoldable pub check_password : Text → Text → Handler (Option UserRecord)
  check_password username password s =
      from_users thrown (Admin.verify_password p.argon2_verify username password s.users) s

  -- The two limits on `POST /auth/login`, by address and by username.
  unfoldable pub login_limits : Call → Text → Handler (Unit {0})
  login_limits call username = do
    throttle call.now (codes "ip:" ++ (call.ip ++ codes ":login")) 10 (minutes 15)
    throttle call.now (codes "user:" ++ (username ++ codes ":login")) 5 (minutes 15)

  unfoldable pub bootstrap_login : Config → Call → Text → Handler Answer
  bootstrap_login config call password = do
    require (text_eq password config.brain_key) (fail 401)
    closed ← real_admin_exists
    require (not closed) (fail 403)
    begin_session call admin_name

  unfoldable pub password_login : Call → Text → Text → Handler Answer
  password_login call username password = do
    found ← check_password username password
    user ← require_some found (fail 401)
    begin_session call user.username

  -- `POST /auth/login`. The username is not empty where it makes a key of the limiter.
  unfoldable pub login : Config → Call → Option LoginBody → Handler Answer
  login config call body = do
    b ← require_some body (fail 400)
    let username = trim (text_or b.username)
    let password = text_or b.password
    require (not (is_empty username || is_empty password)) (fail 400)
    login_limits call username
    if text_eq username admin_name
        then bootstrap_login config call password
        else password_login call username password

  -- The limits on `POST /auth/forgot-password`.
  unfoldable pub forgot_limits : Call → Text → Handler (Unit {0})
  forgot_limits call email = do
    throttle call.now (codes "ip:" ++ call.ip) 5 (minutes 15)
    throttle call.now (codes "user:" ++ email) 3 (minutes 60)

  -- A reset token for the user, mailed to the address on record.
  unfoldable pub mail_token : Call → UserRecord → Text → Handler (Unit {0})
  mail_token call user to s =
      let (tokens, plaintext, expires_at) =
        ResetTokens.generate_token p.sha256_hex call.token_plaintext call.now user.username reset
          s.tokens in
      (
        go tt,
        record s { tokens = tokens; outbox = record { to = to; plaintext = plaintext } ∷ s.outbox },
      )

  -- `user && user.email`
  abbrev pub address_of : Option UserRecord → Option (UserRecord × Text)
  address_of none = none
  address_of (some user) = elim user.email [
    | none ↦ none
    | some email ↦ if is_empty email then none else some (user, email)
  ]

  unfoldable pub mail_if_known : Bool → Call → Text → Handler (Unit {0})
  mail_if_known mail_ready call email s =
      let (user, users) = find_user_by_email p.to_lower email s.users in
      let s' : Server = record s { users = users } in
      elim (address_of user) [
        | none ↦ (go tt, s')
        | some (u, to) ↦ if mail_ready then mail_token call u to s' else (go tt, s')
      ]

  -- `POST /auth/forgot-password`. `mail_ready` says that the mailer is configured and the public
  -- URL set; what the mailer throws is caught and logged.
  unfoldable pub forgot_password : Bool → Call → Option (Option Text) → Handler Answer
  forgot_password mail_ready call body = do
    b ← require_some body (fail 400)
    let email = p.to_lower (trim (text_or b))
    require (not (is_empty email)) (fail 400)
    forgot_limits call email
    mail_if_known mail_ready call email
    pass done

  unfoldable pub spend_token : Call → Text → Handler (Option Grant)
  spend_token call token s =
      let (grant, tokens) = ResetTokens.consume_token p.sha256_hex token call.now s.tokens in
      (go grant, record s { tokens = tokens })

  -- `setPassword`, then every session and every token of the user revoked; an error of the first is
  -- caught and answered with 400.
  unfoldable pub replace_password : Call → Text → Text → Handler (Unit {0})
  replace_password call username password s =
      elim (Admin.set_password p.argon2id call.now call.salt username password s.users) [
        | err e ↦ (halt (fail 400), s)
        | ok users ↦
            let (sessions, ended) = Sessions.revoke_user_sessions username s.sessions in
            let (removed, tokens) = ResetTokens.revoke_user_tokens username call.now s.tokens in
            (go tt, record s { users = users; sessions = sessions; tokens = tokens })
      ]

  abbrev pub after_reset : Call → Grant → Handler Answer
  after_reset call g = elim g.kind [ invite ↦ begin_session call g.username | reset ↦ pass done ]

  -- `POST /auth/reset-password` once the request is in order.
  unfoldable pub spend_and_replace : Call → Text → Text → Handler Answer
  spend_and_replace call token new_password = do
    grant ← spend_token call token
    g ← require_some grant (fail 401)
    replace_password call g.username new_password
    after_reset call g

  -- `POST /auth/reset-password`
  unfoldable pub reset_password : Call → Option ResetBody → Handler Answer
  reset_password call body = do
    b ← require_some body (fail 400)
    let token = trim (text_or b.token)
    let new_password = text_or b.new_password
    require (not (is_empty token)) (fail 400)
    throttle call.now (codes "token:" ++ token) 10 (minutes 60)
    require (not (is_some (validate_password_strength new_password))) (fail 400)
    spend_and_replace call token new_password
