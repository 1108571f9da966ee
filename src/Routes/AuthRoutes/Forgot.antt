-- ===== src/Routes/AuthRoutes/Forgot.antt =====
-- `POST /auth/forgot-password` does not tell whether an address is known.
use ob2_turbo_quant.Common.{ℕ, ◌≡◌, refl, Bool, Option, none, some, ◌++◌, arith, Text, codes, trim}
use ob2_turbo_quant.Routes.Handler.{Server, Platform, Call, go, throttle}
use ob2_turbo_quant.Routes.AuthRoutes.{
  text_or, forgot_limits, mail_token, mail_if_known, forgot_password,
}

throttle_blind :
    (now : ℕ) (key : Text) (limit window_ms : ℕ) (s t : Server)
    → s.buckets ≡ t.buckets
    → ((throttle now key limit window_ms s).0 ≡ (throttle now key limit window_ms t).0)
      × ((throttle now key limit window_ms s).1.buckets
          ≡ (throttle now key limit window_ms t).1.buckets)
unfolding throttle
throttle_blind now key limit window_ms s t e = ground arith

module _ (p : Platform) where
  limits_blind :
      (call : Call) (email : Text) (s t : Server)
      → s.buckets ≡ t.buckets
      → (forgot_limits p call email s).0 ≡ (forgot_limits p call email t).0
  unfolding forgot_limits
  limits_blind call email s t e = ground (
    arith,
    throttle_blind call.now (codes "ip:" ++ call.ip) 5 900000 s t e,
    throttle_blind call.now (codes "user:" ++ email) 3 3600000
        (throttle call.now (codes "ip:" ++ call.ip) 5 900000 s).1
        (throttle call.now (codes "ip:" ++ call.ip) 5 900000 t).1,
  )

  mail_goes :
      (mail_ready : Bool) (call : Call) (email : Text) (s : Server)
      → (mail_if_known p mail_ready call email s).0 ≡ go tt
  unfolding mail_if_known mail_token
  mail_goes mail_ready call email s = ground arith

  -- The answer depends on the request and on the limiter alone: not on the users, the tokens or the
  -- sessions, nor on whether mail can be sent.
  pub forgot_blind :
      (ready ready' : Bool) (call : Call) (body : Option (Option Text)) (s t : Server)
      → s.buckets ≡ t.buckets
      → (forgot_password p ready call body s).0 ≡ (forgot_password p ready' call body t).0
  unfolding forgot_password
  forgot_blind ready ready' call none s t e = refl
  forgot_blind ready ready' call (some b) s t e =
      let email = p.to_lower (trim (text_or b)) in
      ground (
        arith,
        limits_blind call email s t e,
        mail_goes ready call email (forgot_limits p call email s).1,
        mail_goes ready' call email (forgot_limits p call email t).1,
      )
