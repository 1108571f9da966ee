-- ===== src/Tests/RoutesTests.antt =====
-- server/routes/auth.ts at concrete inputs.
use ob2_turbo_quant.Common.{
  arith, ◌≡◌, refl, true, false, some, [], text_key, text_eq, codes, find, trim, trim_start,
  is_space,
}
use ob2_turbo_quant.Common.JsMap
use ob2_turbo_quant.Common.JsMap.{IsDistinct}
use ob2_turbo_quant.Auth.Passwords.{verify_hash}
use ob2_turbo_quant.Auth.RateLimit
use ob2_turbo_quant.Auth.Sessions.{create_session}
use ob2_turbo_quant.Users.Store.{load_map, reload_if_changed, load_file}
use ob2_turbo_quant.Users.Admin.{may_log_in, verify_password}
use ob2_turbo_quant.Routes.Handler.{throttle}
use ob2_turbo_quant.Routes.AuthRoutes.{
  LoginBody, ResetBody, PasswordBody, text_or, begin_session, check_password, login_limits,
  password_login, login, forgot_password,
}
use ob2_turbo_quant.Routes.AuthRoutes.Begun.{IsGoodDraw, HasBegun}
use ob2_turbo_quant.Routes.AuthRoutes.Login.{SignsIn, login-SignsIn}
use ob2_turbo_quant.Routes.AuthRoutes.Forgot.{forgot_blind}
use ob2_turbo_quant.Tests.{test_platform, test_config, test_call, test_server, one_token}

abbrev alice_login : LoginBody
alice_login = record { username = some (codes "alice"); password = some (codes "password1") }

test_draw : IsGoodDraw test_platform test_call
test_draw = ((refl, (refl, (refl, tt))), ground arith, ground arith)

login-SignsIn_example :
    (b : LoginBody) × (some alice_login ≡ some b)
    × SignsIn test_platform test_config test_server.users (text_or b.password) (codes "alice")
    × HasBegun test_platform test_call
        (codes "alice")
        (codes "id2.hid2")
        test_server.sessions
        (login test_platform test_config test_call (some alice_login) test_server).1.sessions
unfolding login login_limits throttle RateLimit.check password_login check_password verify_password
    begin_session create_session reload_if_changed load_map load_file find text_eq may_log_in
    verify_hash trim trim_start is_space JsMap.get JsMap.set
login-SignsIn_example =
    login-SignsIn test_platform test_config test_call (some alice_login) test_server
      (login test_platform test_config test_call (some alice_login) test_server).1 (codes "alice")
      (codes "id2.hid2") test_draw refl

abbrev bob_reset : ResetBody
bob_reset = record { token = some (codes "t"); new_password = some (codes "password2") }

abbrev alice_change : PasswordBody
alice_change = record { current = some (codes "password1"); next = some (codes "password2") }

forgot_blind_example :
    (forgot_password test_platform true test_call (some (some (codes "a@b.c"))) test_server).0
    ≡ (forgot_password test_platform false test_call
        (some (some (codes "a@b.c")))
        (record test_server { tokens = record one_token { tokens = [] } })).0
forgot_blind_example =
    forgot_blind test_platform true false test_call (some (some (codes "a@b.c"))) test_server
      (record test_server { tokens = record one_token { tokens = [] } }) refl
