-- ===== src/Routes/UserRoutes/Guarded.antt =====
-- The management of the users belongs to global administrators.
use ob2_turbo_quant.Common.{◌≡◌, refl, Bool, false, Option, none, some, Text}
use ob2_turbo_quant.Users.{AuthContext}
use ob2_turbo_quant.Users.Admin.{UserPatch}
use ob2_turbo_quant.Routes.Handler.{Server, Platform, Call, Answer, fail, halt, Handler, ◌>>◌}
use ob2_turbo_quant.Routes.UserRoutes
use ob2_turbo_quant.Routes.UserRoutes.{MailEnv, NewUser, admin_only}

-- A call of a route, with its parameters and its body.
pub data UserCall : Type 0 where
  get_users get_smtp_status : UserCall
  post_user : Option NewUser → UserCall
  patch_user : (username : Text) → Option UserPatch → UserCall
  post_password : (username : Text) → Option (Option Text) → UserCall
  post_invite delete_user : (username : Text) → UserCall

unfoldable pub serve_users :
    Platform → MailEnv → Option AuthContext → Call → UserCall → Handler Answer
serve_users p env auth call get_users = UserRoutes.get_users p env auth
serve_users p env auth call get_smtp_status = UserRoutes.get_smtp_status p env auth
serve_users p env auth call (post_user body) = UserRoutes.post_user p env auth call body
serve_users p env auth call (patch_user username body) =
    UserRoutes.patch_user_route p env auth call username body
serve_users p env auth call (post_password username body) =
    UserRoutes.post_password p env auth call username body
serve_users p env auth call (post_invite username) = UserRoutes.post_invite p env auth call username
serve_users p env auth call (delete_user username) = UserRoutes.delete_user p env auth call username

-- Who the routes turn down, and how.
abbrev pub is_admin : Option AuthContext → Bool
is_admin none = false
is_admin (some auth) = auth.global_admin

abbrev pub denial : Option AuthContext → Answer
denial none = fail 401
denial (some auth) = fail 403

admin_only_refuses :
    (auth : Option AuthContext) (next : Handler Answer) (s : Server)
    → is_admin auth ≡ false
    → (admin_only auth >> next) s ≡ (halt (denial auth), s)
unfolding admin_only
admin_only_refuses none next s h = refl
admin_only_refuses (some auth) next s h = rw h refl

-- A caller who is no global administrator gets 401 without having signed in and 403 otherwise, and
-- nothing of the server's state changes: no account, session, token or mail.
pub serve_users_refuses :
    (p : Platform) (env : MailEnv) (auth : Option AuthContext) (call : Call) (c : UserCall)
    (s : Server)
    → is_admin auth ≡ false
    → serve_users p env auth call c s ≡ (halt (denial auth), s)
unfolding serve_users UserRoutes.get_users UserRoutes.get_smtp_status UserRoutes.post_user
    UserRoutes.patch_user_route UserRoutes.post_password UserRoutes.post_invite
    UserRoutes.delete_user
serve_users_refuses p env auth call get_users s h = admin_only_refuses auth _ s h
serve_users_refuses p env auth call get_smtp_status s h = admin_only_refuses auth _ s h
serve_users_refuses p env auth call (post_user body) s h = admin_only_refuses auth _ s h
serve_users_refuses p env auth call (patch_user username body) s h = admin_only_refuses auth _ s h
serve_users_refuses p env auth call (post_password username body) s h =
    admin_only_refuses auth _ s h
serve_users_refuses p env auth call (post_invite username) s h = admin_only_refuses auth _ s h
serve_users_refuses p env auth call (delete_user username) s h = admin_only_refuses auth _ s h
