-- ===== src/Routes/UserRoutes/Secure.antt =====
-- A password that an administrator sets shuts out whoever held the old one.
use ob2_turbo_quant.Common.{◌≡◌, ap, not, Option, some, Text, text_key, text_eq, is_some, subst}
use ob2_turbo_quant.Common.JsMap.{IsDistinct}
use ob2_turbo_quant.Auth.Passwords.{validate_password_strength}
use ob2_turbo_quant.Users.{AuthContext, admin_name}
use ob2_turbo_quant.Routes.Handler.{
  Server, Platform, Call, Answer, fail, go, >>=-go-elim, require->>,
}
use ob2_turbo_quant.Routes.AuthRoutes.{text_or, replace_password}
use ob2_turbo_quant.Routes.AuthRoutes.Reset.{IsSecured, replace-IsSecured}
use ob2_turbo_quant.Routes.UserRoutes.{MailEnv, post_password}
use ob2_turbo_quant.Routes.UserRoutes.Retire.{admin_only->>}

-- Where no session id stands twice, a password that an administrator has set for a user is stored,
-- and no session and no reset or invite token of that user is left.
pub post_password-IsSecured :
    (p : Platform) (env : MailEnv) (auth : Option AuthContext) (call : Call) (username : Text)
    (b : Option Text) (s s' : Server) (a : Answer)
    → IsDistinct s.sessions.sessions
    → post_password p env auth call username (some b) s ≡ (go a, s')
    → IsSecured p call username (text_or b) s.users s'
unfolding post_password
post_password-IsSecured p env auth call username b s s' a d h =
    let h₁ = admin_only->> auth _ s _ s' h in
    let h₂ = require->> (not (text_eq username admin_name)) (fail 400) _ s _ s' h₁ in
    let h₃ =
      require->> (not (is_some (validate_password_strength (text_or b)))) (fail 400) _ s _ s' h₂ in
    >>=-go-elim (replace_password p call username (text_or b)) _ s _ s' h₃ (λ u s₁ replaced h₄.
      subst (IsSecured p call username (text_or b) s.users) (ap (λ r. r.1) h₄)
        (replace-IsSecured p call username (text_or b) s s₁ u d replaced))
