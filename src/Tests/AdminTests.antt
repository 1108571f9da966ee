-- ===== src/Tests/AdminTests.antt =====
-- The users' routes of server/routes/admin.ts at concrete inputs.
use ob2_turbo_quant.Common.{
  ◌≡◌, refl, true, false, none, some, [], codes, text_key, find, text_eq, any, update_first,
}
use ob2_turbo_quant.Common.JsMap
use ob2_turbo_quant.Users.{is_real_admin}
use ob2_turbo_quant.Users.Access.{context_of}
use ob2_turbo_quant.Users.Admin.{
  keep_email, create_user, new_user, update_user, patch_email, set_password,
}
use ob2_turbo_quant.Users.Store.{load_file, would_leave_zero_admins}
use ob2_turbo_quant.Auth.Sessions.{revoke_user_sessions}
use ob2_turbo_quant.Auth.Passwords.{hash_password, validate_password_strength}
use ob2_turbo_quant.Routes.AuthRoutes.{replace_password}
use ob2_turbo_quant.Routes.Handler.{halt, fail, done}
use ob2_turbo_quant.Routes.AuthRoutes.Reset.{IsSecured}
use ob2_turbo_quant.Routes.UserRoutes.{
  MailEnv, NewUser, admin_only, add_user, store_new, invite_new, change_user, store_patch,
  retire_bootstrap, end_sessions, post_user, patch_user_route, post_password,
}
use ob2_turbo_quant.Routes.UserRoutes.Guarded.{delete_user, serve_users, serve_users_refuses}
use ob2_turbo_quant.Routes.UserRoutes.Retire.{
  NoBootstrap, post_user-NoBootstrap, patch_user_route-NoBootstrap,
}
use ob2_turbo_quant.Routes.UserRoutes.Secure.{post_password-IsSecured}
use ob2_turbo_quant.Tests.{same_text, alice, bob, test_platform, test_call, test_server}

abbrev test_mail : MailEnv
test_mail = record { is_configured = true; public_url = codes "https://o"; is_taken = true }

serve_users_refuses_example :
    serve_users test_platform test_mail
      (some (context_of bob))
      test_call
      (delete_user (codes "alice"))
      test_server
    ≡ (halt (fail 403), test_server)
serve_users_refuses_example =
    serve_users_refuses test_platform test_mail (some (context_of bob)) test_call
      (delete_user (codes "alice")) test_server refl

abbrev new_admin : NewUser
new_admin = record {
  username = some (codes "dora");
  domains = none;
  global_admin = some true;
  email = none;
  send_invite = false;
}

post_user-NoBootstrap_example :
    NoBootstrap test_platform
      (post_user test_platform test_mail
        (some (context_of alice))
        test_call
        (some new_admin)
        test_server).1.sessions
unfolding JsMap.get JsMap.retain post_user admin_only add_user store_new create_user new_user
    invite_new load_file find text_eq would_leave_zero_admins any update_first is_real_admin
    retire_bootstrap end_sessions revoke_user_sessions
post_user-NoBootstrap_example =
    post_user-NoBootstrap test_platform test_mail (some (context_of alice)) test_call
      (some new_admin) test_server
      (post_user test_platform test_mail (some (context_of alice)) test_call (some new_admin)
        test_server).1
      (new_user same_text 100 (codes "k2") (codes "dora") [] true none) none (refl, tt) refl refl

patch_user_route-NoBootstrap_example :
    NoBootstrap test_platform
      (patch_user_route test_platform test_mail
        (some (context_of alice))
        test_call
        (codes "bob")
        (some (record { domains = none; global_admin = some true; email = keep_email }))
        test_server).1.sessions
unfolding JsMap.get JsMap.retain patch_user_route admin_only change_user store_patch update_user
    patch_email load_file find text_eq would_leave_zero_admins any update_first is_real_admin
    retire_bootstrap end_sessions revoke_user_sessions
patch_user_route-NoBootstrap_example =
    patch_user_route-NoBootstrap test_platform test_mail (some (context_of alice)) test_call
      (codes "bob") (record { domains = none; global_admin = some true; email = keep_email })
      test_server
      (patch_user_route test_platform test_mail (some (context_of alice)) test_call (codes "bob")
        (some (record { domains = none; global_admin = some true; email = keep_email }))
        test_server).1
      _ (refl, tt) refl refl

post_password-IsSecured_example :
    IsSecured test_platform test_call
      (codes "bob")
      (codes "password2")
      test_server.users
      (post_password test_platform test_mail
        (some (context_of alice))
        test_call
        (codes "bob")
        (some (some (codes "password2")))
        test_server).1
unfolding JsMap.get JsMap.retain post_password admin_only replace_password set_password
    hash_password validate_password_strength load_file find text_eq would_leave_zero_admins any
    update_first is_real_admin retire_bootstrap end_sessions revoke_user_sessions
post_password-IsSecured_example =
    post_password-IsSecured test_platform test_mail (some (context_of alice)) test_call
      (codes "bob") (some (codes "password2")) test_server
      (post_password test_platform test_mail (some (context_of alice)) test_call (codes "bob")
        (some (some (codes "password2"))) test_server).1
      done (refl, tt) refl
