-- ===== src/Routes/UserRoutes.antt =====
-- server/routes/admin.ts: the management of the users. The caller is `none` where no middleware has
-- set one.
pub mod Guarded
pub mod Retire
pub mod Secure
use ob2_turbo_quant.Common.{
  ℕ, Bool, true, false, not, ◌&&◌, ◌||◌, Option, none, some, List, [], ◌∷◌, if◌then◌else◌, Text,
  text_eq, is_empty, is_some, find, option_or,
}
use ob2_turbo_quant.Auth.Passwords.{validate_password_strength}
use ob2_turbo_quant.Auth.Sessions
use ob2_turbo_quant.Auth.ResetTokens
use ob2_turbo_quant.Auth.ResetTokens.{invite}
use ob2_turbo_quant.Users.{UserRecord, Domains, AuthContext, admin_name}
use ob2_turbo_quant.Users.Store.{UserStore, list_users}
use ob2_turbo_quant.Users.Admin
use ob2_turbo_quant.Users.Admin.{Result, ok, err, UsersError, zero_admin, UserPatch, named}
use ob2_turbo_quant.Routes.Handler.{
  Mail, Server, Platform, Call, Delivery, was_sent, smtp_not_configured, send_failed, Invite,
  Answer, fail, done, users_listed, user_created, user_shown, invited, smtp_status, Step, halt, go,
  Handler, ◌>>=◌, ◌>>◌, pass, stop, require, require_some,
}
use ob2_turbo_quant.Routes.AuthRoutes.{text_or, from_users, replace_password}

pub record NewUser : Type 0 where
  pub username : Option Text
  pub domains : Option Domains
  pub global_admin : Option Bool
  pub email : Option Text
  pub send_invite : Bool

-- The mailer and the public address, and whether the mailer's server takes a mail.
pub record MailEnv : Type 0 where
  pub is_configured : Bool
  pub public_url : Text
  pub is_taken : Bool

-- `requireGlobalAdmin`
unfoldable pub admin_only : Option AuthContext → Handler (Unit {0})
admin_only none = stop (fail 401)
admin_only (some auth) = require auth.global_admin (fail 403)

-- The status of an error of `updateUser` and `revokeUser`.
abbrev pub refusal : UsersError → ℕ
refusal zero_admin = 409
refusal _ = 400

abbrev pub or_refuse : {A : Type 0} → Result (A × UserStore) → Handler A
or_refuse (ok (x, users)) s = (go x, record s { users = users })
or_refuse (err e) s = (halt (fail (refusal e)), s)

unfoldable pub end_sessions : Text → Handler (Unit {0})
end_sessions username s =
    let (sessions, ended) = Sessions.revoke_user_sessions username s.sessions in
    (go tt, record s { sessions = sessions })

unfoldable pub retire_bootstrap : Bool → Handler (Unit {0})
retire_bootstrap true = end_sessions admin_name
retire_bootstrap false = pass tt

unfoldable pub end_tokens : Call → Text → Handler (Unit {0})
end_tokens call username s =
    let (removed, tokens) = ResetTokens.revoke_user_tokens username call.now s.tokens in
    (go tt, record s { tokens = tokens })

-- The mailer's part: what becomes of the mail, and the mails handed over.
abbrev pub deliver : MailEnv → Mail → List Mail → Delivery × List Mail
deliver env mail outbox =
    if env.is_configured
    then (if env.is_taken then (was_sent, mail ∷ outbox) else (send_failed, outbox))
    else (smtp_not_configured, outbox)

module _ (p : Platform) (env : MailEnv) where
  unfoldable pub send_invite : Call → Text → Text → Handler Invite
  send_invite call username to s =
      let (tokens, plaintext, expires_at) =
        ResetTokens.generate_token p.sha256_hex call.token_plaintext call.now username invite
          s.tokens in
      let (delivery, outbox) = deliver env (record { to = to; plaintext = plaintext }) s.outbox in
      (
        go (record { plaintext = plaintext; expires_at = expires_at; delivery = delivery }),
        record s { tokens = tokens; outbox = outbox },
      )

  unfoldable pub invite_new : Bool → Call → UserRecord → Handler (Option Invite)
  invite_new false call user = pass none
  invite_new true call user = do
    i ← send_invite call user.username (text_or user.email)
    pass (some i)

  -- `GET /admin/users`
  unfoldable pub get_users : Option AuthContext → Handler Answer
  get_users auth = do
    admin_only auth
    λ s. let (us, users) = list_users s.users in (go (users_listed us), record s { users = users })

  unfoldable pub store_new : Call → NewUser → Handler UserRecord
  store_new call b s =
      from_users (fail 500)
        (Admin.create_user p.to_lower call.now call.api_key (text_or b.username)
          (option_or b.domains []) (option_or b.global_admin false) b.email s.users)
        s

  unfoldable pub add_user : Call → NewUser → Handler Answer
  add_user call b = do
    user ← store_new call b
    retire_bootstrap user.global_admin
    i ← invite_new b.send_invite call user
    pass (user_created user i)

  -- `POST /admin/users`
  unfoldable pub post_user : Option AuthContext → Call → Option NewUser → Handler Answer
  post_user auth call body = do
    admin_only auth
    b ← require_some body (fail 400)
    require (not (is_empty (text_or b.username))) (fail 400)
    require (not (b.send_invite && is_empty (text_or b.email))) (fail 400)
    require (not (b.send_invite && is_empty env.public_url)) (fail 400)
    add_user call b

  unfoldable pub store_patch : Call → Text → UserPatch → Handler UserRecord
  store_patch call username patch s =
      or_refuse (Admin.update_user p.to_lower call.now username patch s.users) s

  unfoldable pub change_user : Call → Text → UserPatch → Handler Answer
  change_user call username patch = do
    updated ← store_patch call username patch
    retire_bootstrap (option_or patch.global_admin false)
    pass (user_shown updated)

  -- `PATCH /admin/users/:username`
  unfoldable pub patch_user_route :
      Option AuthContext → Call → Text → Option UserPatch → Handler Answer
  patch_user_route auth call username body = do
    admin_only auth
    patch ← require_some body (fail 400)
    change_user call username patch

  -- `POST /admin/users/:username/password`
  unfoldable pub post_password :
      Option AuthContext → Call → Text → Option (Option Text) → Handler Answer
  post_password auth call username body = do
    admin_only auth
    require (not (text_eq username admin_name)) (fail 400)
    b ← require_some body (fail 400)
    require (not (is_some (validate_password_strength (text_or b)))) (fail 400)
    replace_password p call username (text_or b)
    pass done

  unfoldable pub listed_user : Text → Handler (Option UserRecord)
  listed_user username s =
      let (us, users) = list_users s.users in
      (go (find (named username) us), record s { users = users })

  -- `POST /admin/users/:username/invite`
  unfoldable pub post_invite : Option AuthContext → Call → Text → Handler Answer
  post_invite auth call username = do
    admin_only auth
    found ← listed_user username
    target ← require_some found (fail 404)
    require (not (is_empty (text_or target.email))) (fail 400)
    require (not (is_empty env.public_url)) (fail 400)
    i ← send_invite call username (text_or target.email)
    pass (invited i)

  -- `GET /admin/smtp-status`
  unfoldable pub get_smtp_status : Option AuthContext → Handler Answer
  get_smtp_status auth = do
    admin_only auth
    pass (smtp_status (env.is_configured && not (is_empty env.public_url)))

  unfoldable pub store_revoke : Call → Text → Handler UserRecord
  store_revoke call username s = or_refuse (Admin.revoke_user call.now username s.users) s

  -- `DELETE /admin/users/:username`
  unfoldable pub delete_user : Option AuthContext → Call → Text → Handler Answer
  delete_user auth call username = do
    admin_only auth
    revoked ← store_revoke call username
    end_tokens call username
    pass (user_shown revoked)
