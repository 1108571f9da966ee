-- ===== src/Routes/ProfileRoutes.antt =====
-- server/routes/auth.ts, the routes of a signed-in user and those that only look. `auth` is the
-- context that the middleware has set, and a body is `none` where it is no JSON.
pub mod Laws
use ob2_turbo_quant.Common.{
  ℕ, Bool, true, false, not, ◌&&◌, ◌||◌, Option, none, some, List, [], ◌∷◌, ◌++◌, if◌then◌else◌,
  Text, text_eq, codes, is_empty, trim, find, is_some, option_or,
}
use ob2_turbo_quant.Auth.Passwords.{validate_password_strength}
use ob2_turbo_quant.Auth.Sessions
use ob2_turbo_quant.Auth.ResetTokens
use ob2_turbo_quant.Auth.ResetTokens.{Grant}
use ob2_turbo_quant.Users.{UserRecord, AuthContext, admin_name, is_valid_email}
use ob2_turbo_quant.Users.Store.{UserStore, list_users}
use ob2_turbo_quant.Users.Admin
use ob2_turbo_quant.Users.Admin.{Result, ok, err}
use ob2_turbo_quant.Routes.Handler.{
  Server, Platform, Call, Answer, fail, done, issued_key, Step, halt, go, Handler, continue, ◌>>=◌,
  ◌>>◌, pass, stop, require, require_some, throttle,
}
use ob2_turbo_quant.Routes.AuthRoutes.{
  PasswordBody, text_or, from_users, real_admin_exists, begin_session, check_password,
  replace_password,
}

-- `GET /auth/status`: the value of `bootstrap_available`.
unfoldable pub status : Handler Bool
unfolding real_admin_exists
status = do closed ← real_admin_exists; pass (not closed)

-- `POST /auth/logout`, the session cookie decoded; the answer clears it.
unfoldable pub logout : Option Text → Handler Answer
logout cookie s = elim cookie [
  | none ↦ (go done, s)
  | some token ↦
      let (sessions, ended) = Sessions.revoke_session token s.sessions in
      (go done, record s { sessions = sessions })
]

-- The record of the signed-in user among the enabled ones.
unfoldable pub own_record : Text → Handler (Option UserRecord)
own_record username s =
    let (us, users) = list_users s.users in
    (go (find (Admin.named username) us), record s { users = users })

-- `!!me.password_hash`
abbrev pub has_password : Option UserRecord → Bool
has_password none = false
has_password (some u) = not (is_empty (text_or u.password_hash))

-- `body.email === null ? null : (body.email || "").trim()`
abbrev pub given_email : Admin.EmailPatch → Option Text
given_email Admin.clear_email = none
given_email Admin.keep_email = some []
given_email (Admin.set_to s) = some (trim s)

-- `email === null || isValidEmail(email)`
abbrev pub is_good_email : Option Text → Bool
is_good_email none = true
is_good_email (some s) = is_valid_email s

-- The verdict of `GET /auth/reset-token-info`.
pub data TokenInfo : Type 0 where
  invalid limited : TokenInfo
  valid : Grant → TokenInfo

module _ (p : Platform) where
  peek : Call → Text → Handler (Option Grant)
  peek call token s =
      let (grant, tokens) = ResetTokens.peek_token p.sha256_hex token call.now s.tokens in
      (go grant, record s { tokens = tokens })

  info_limit : Call → Handler Bool
  info_limit call s =
      let (step, s') = throttle call.now (codes "info:" ++ call.ip) 30 300000 s in
      (go (elim step [ halt a ↦ false | go x ↦ true ]), s')

  unfoldable pub reset_token_info : Call → Option Text → Handler TokenInfo
  unfolding peek info_limit throttle
  reset_token_info call query = do
    let token = trim (text_or query)
    allowed ← (if is_empty token then pass false else info_limit call)
    grant ← (if allowed then peek call token else pass none)
    pass (
        if is_empty token
        then invalid
        else if not allowed
        then limited
        else elim grant [ none ↦ invalid | some g ↦ valid g ])

  -- The current password, where the user has one.
  unfoldable pub confirm_current : Text → Text → Handler (Unit {0})
  confirm_current username current = do
    me ← own_record username
    if has_password me
        then (do found ← check_password p username current; require (is_some found) (fail 400))
        else pass tt

  -- `POST /auth/change-password`
  unfoldable pub change_password : Call → AuthContext → Option PasswordBody → Handler Answer
  change_password call auth body = do
    require (not (text_eq auth.username admin_name)) (fail 400)
    b ← require_some body (fail 400)
    let next = text_or b.next
    require (not (is_some (validate_password_strength next))) (fail 400)
    confirm_current auth.username (text_or b.current)
    replace_password p call auth.username next
    begin_session p call auth.username

  -- `POST /auth/rotate-key`
  unfoldable pub rotate_key : Call → AuthContext → Handler Answer
  rotate_key call auth = do
    require (not (text_eq auth.username admin_name)) (fail 400)
    key ← (λ s.
        from_users (fail 400) (Admin.rotate_api_key call.now call.api_key auth.username s.users) s)
    pass (issued_key key)

  -- `POST /auth/email`: null clears the email, and a body without one stands for the empty text.
  unfoldable pub change_email : Call → AuthContext → Option Admin.EmailPatch → Handler Answer
  change_email call auth body = do
    require (not (text_eq auth.username admin_name)) (fail 400)
    b ← require_some body (fail 400)
    let email = given_email b
    require (is_good_email email) (fail 400)
    user ← (λ s.
        from_users (fail 400) (Admin.set_email p.to_lower call.now auth.username email s.users) s)
    pass done
