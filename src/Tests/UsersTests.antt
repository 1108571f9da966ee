-- ===== src/Tests/UsersTests.antt =====
-- server/users.ts at concrete inputs.
use ob2_turbo_quant.Common.{
  ◌≡◌, refl, false, none, some, [], ◌∷◌, arith, text_key, text_eq, codes, find, any, starts_with,
  update_first,
}
use ob2_turbo_quant.Common.JsMap
use ob2_turbo_quant.Users.{is_real_admin}
use ob2_turbo_quant.Users.Store.{
  load_map, reload_if_changed, load_file, atomic_write, would_leave_zero_admins,
}
use ob2_turbo_quant.Users.Access.{
  context_of, Headers, resolve_auth, bearer_key, bearer_header, session_user, bearer_auth,
  impersonated_name,
}
use ob2_turbo_quant.Users.Access.Bearer.{LetsIn, bearer_auth-LetsIn}
use ob2_turbo_quant.Users.Admin.{revoke_user}
use ob2_turbo_quant.Users.Admin.Rail.{HasAdmin, perform_all, revokes, perform_all-HasAdmin}
use ob2_turbo_quant.Users.Admin.Keys.{revoke-resolve}
use ob2_turbo_quant.Tests.{
  test_argon2id, test_sign, same_text, alice, bob, two_users, store_of, test_config, one_session,
}

perform_all-HasAdmin_example : HasAdmin (
    perform_all test_argon2id same_text
      ((6, revokes (codes "bob")) ∷ (7, revokes (codes "alice")) ∷ [])
      (store_of two_users))
unfolding load_file any is_real_admin text_eq
perform_all-HasAdmin_example =
    perform_all-HasAdmin test_argon2id same_text
      ((6, revokes (codes "bob")) ∷ (7, revokes (codes "alice")) ∷ []) (store_of two_users)
      (two_users, refl, refl)

abbrev alice_header : Headers
alice_header = record {
  x_brain_key = none;
  cookie = none;
  authorization = some (codes "Bearer ka");
  x_ob2_user = none;
  x_openwebui_user_name = none;
}

bearer_auth-LetsIn_example :
    LetsIn test_sign test_config 100 alice_header two_users one_session (context_of alice)
unfolding bearer_auth session_user bearer_header bearer_key resolve_auth starts_with text_eq
    impersonated_name reload_if_changed load_map JsMap.get JsMap.set
bearer_auth-LetsIn_example =
    bearer_auth-LetsIn test_sign test_config 100 alice_header two_users (store_of two_users)
      one_session ((ground arith, tt), (tt, tt)) (context_of alice) refl refl

revoke-resolve_example :
    (resolve_auth
      (codes "kb")
      test_config
      (atomic_write 6 (alice ∷ (record bob { enabled = false }) ∷ []) (store_of two_users))).0
    ≡ none
unfolding load_file find text_eq revoke_user update_first would_leave_zero_admins any is_real_admin
revoke-resolve_example =
    revoke-resolve 6 (codes "bob") test_config two_users bob
      (record bob { enabled = false; key = codes "***revoked***" }) (store_of two_users)
      (atomic_write 6 (alice ∷ (record bob { enabled = false }) ∷ []) (store_of two_users))
      (omega arith) refl refl ((ground arith, tt), (tt, tt)) (ground arith) refl
