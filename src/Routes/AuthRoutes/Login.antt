-- ===== src/Routes/AuthRoutes/Login.antt =====
-- Who can sign in at `POST /auth/login`, and how often it can be tried.
use ob2_turbo_quant.Common.{
  ◌≡◌, refl, inl, inr, false, Option, none, some, List, ◌++◌, arith, Text, text_eq, text_eq_iff,
  codes, trim, Bool-cases, Option-cases, ◌∙◌, sym, subst,
}
use ob2_turbo_quant.Users.{UserRecord, Config, admin_name}
use ob2_turbo_quant.Users.Store.{UserStore, load_file, has_real_global_admin}
use ob2_turbo_quant.Users.Admin
use ob2_turbo_quant.Users.Admin.{Result, ok, err}
use ob2_turbo_quant.Users.Admin.Login.{IsLogin, verify_password_sound}
use ob2_turbo_quant.Routes.Handler.{
  Server, Platform, Call, signed_in, go, throttle, SameAccounts, throttle-go, Step-cases,
  SameAccounts-trans,
}
use ob2_turbo_quant.Routes.AuthRoutes.{
  LoginBody, text_or, real_admin_exists, begin_session, check_password, login_limits,
  bootstrap_login, password_login, login,
}
use ob2_turbo_quant.Routes.AuthRoutes.Begun.{IsGoodDraw, HasBegun, begin_session-Begins}

module _ (p : Platform) where
  -- What a login that succeeds rests on: the brain key while there is no real admin, or a user of
  -- the file with the password.
  pub data SignsIn (config : Config) (users : UserStore) (password : Text) : Text → Type 0 where
    as_bootstrap :
        {u : Text}
        → u ≡ admin_name
        → password ≡ config.brain_key
        → (has_real_global_admin users).0 ≡ false
        → SignsIn config users password u
    as_user :
        {u : Text} (us : List UserRecord) (r : UserRecord)
        → load_file users ≡ some us
        → IsLogin p.argon2_verify u password r us
        → SignsIn config users password u

  bootstrap-parts :
      (config : Config) (call : Call) (password : Text) (s s' : Server) (u cookie : Text)
      → bootstrap_login p config call password s ≡ (go (signed_in u cookie), s')
      → (password ≡ config.brain_key)
        × ((has_real_global_admin s.users).0 ≡ false)
        × (begin_session p call admin_name (record s { users = (has_real_global_admin s.users).1 })
            ≡ (go (signed_in u cookie), s'))
  unfolding bootstrap_login real_admin_exists
  bootstrap-parts config call password s s' u cookie h =
      ground (arith, text_eq_iff password config.brain_key)

  password-parts :
      (call : Call) (username password : Text) (s s' : Server) (u cookie : Text)
      → password_login p call username password s ≡ (go (signed_in u cookie), s')
      → (r : UserRecord) × (users : UserStore) × (Admin.verify_password p.argon2_verify username
            password s.users
          ≡ ok (some r, users))
        × (begin_session p call r.username (record s { users = users })
            ≡ (go (signed_in u cookie), s'))
  unfolding password_login check_password
  password-parts call username password s s' u cookie h =
      elim (Admin.Result-cases (Admin.verify_password p.argon2_verify username password s.users)) [
        | inl (e, broken) ↦ absurd (ground arith)
        | inr ((found, users), read) ↦ elim (Option-cases found) [
          | inl missing ↦ absurd (ground arith)
          | inr (r, e) ↦ (r, users, ground arith, ground arith)
        ]
      ]

  limits_bind :
      (call : Call) (username : Text) (s s' : Server) (u : Unit {0})
      → login_limits p call username s ≡ (go u, s')
      → SameAccounts s s'
  unfolding login_limits
  limits_bind call username s s' u h =
      elim (Step-cases
        (throttle call.now (codes "ip:" ++ (call.ip ++ codes ":login")) 10 900000 s)) [
          | inl (a, s₁, refused) ↦ absurd (ground arith)
          | inr (x, s₁, first) ↦
              let second : throttle call.now (codes "user:" ++ (username ++ codes ":login")) 5
                    900000 s₁
                  ≡ (go u, s') =
                ground arith in
              SameAccounts-trans s s₁ s' (throttle-go call.now _ 10 900000 s x s₁ first).1
                (throttle-go call.now _ 5 900000 s₁ u s' second).1
        ]

  SignsIn-same :
      (config : Config) (users users' : UserStore) (password u : Text)
      → users ≡ users'
      → SignsIn config users' password u
      → SignsIn config users password u
  SignsIn-same config users users' password u e h =
      subst (λ x. SignsIn config x password u) (sym e) h

  signed_in_inj :
      (u u' cookie cookie' : Text)
      → signed_in u cookie ≡ signed_in u' cookie'
      → (u ≡ u') × (cookie ≡ cookie')
  signed_in_inj u u' cookie cookie' e = (ground arith, ground arith)

  begin_session-own :
      (call : Call) (username : Text) (s s' : Server) (u cookie : Text)
      → IsGoodDraw p call
      → begin_session p call username s ≡ (go (signed_in u cookie), s')
      → (u ≡ username) × HasBegun p call u cookie s.sessions s'.sessions
  begin_session-own call username s s' u cookie good h =
      let (cookie', answered, begins) =
        begin_session-Begins p call username s s' (signed_in u cookie) good h in
      let (same_user, same_cookie) = signed_in_inj u username cookie cookie' answered in
      (
        same_user,
        subst (λ n. HasBegun p call n cookie s.sessions s'.sessions) (sym same_user)
            (subst (λ c. HasBegun p call username c s.sessions s'.sessions) (sym same_cookie)
              begins.begun),
      )

  bootstrap-SignsIn :
      (config : Config) (call : Call) (password : Text) (s s' : Server) (u cookie : Text)
      → IsGoodDraw p call
      → bootstrap_login p config call password s ≡ (go (signed_in u cookie), s')
      → SignsIn config s.users password u × HasBegun p call u cookie s.sessions s'.sessions
  bootstrap-SignsIn config call password s s' u cookie good h =
      let (key, open_still, begun) = bootstrap-parts config call password s s' u cookie h in
      let (named_so, opened) = begin_session-own call admin_name _ s' u cookie good begun in
      (as_bootstrap named_so key open_still, opened)

  password-SignsIn :
      (config : Config) (call : Call) (username password : Text) (s s' : Server) (u cookie : Text)
      → IsGoodDraw p call
      → password_login p call username password s ≡ (go (signed_in u cookie), s')
      → SignsIn config s.users password u × HasBegun p call u cookie s.sessions s'.sessions
  password-SignsIn config call username password s s' u cookie good h =
      let (r, users, found, begun) = password-parts call username password s s' u cookie h in
      let (us, at, valid) =
        verify_password_sound p.argon2_verify username password r s.users users found in
      let (named_so, opened) = begin_session-own call r.username _ s' u cookie good begun in
      let same : u ≡ username = named_so ∙ valid.is_named in
      (
        as_user us r at (subst (λ n. IsLogin p.argon2_verify n password r us) (sym same) valid),
        opened,
      )

  -- A login that succeeds comes with a body whose password is the brain key, for `_admin` and while
  -- there is no real admin, or that of the enabled user of users.json who is signed in. The cookie of
  -- the answer then opens a session of that user, until the session's end, and no other cookie opens one
  -- that it did not open before. What is relied on: the id drawn for a session has no dot, and neither it
  -- nor its signature is empty.
  pub login-SignsIn :
      (config : Config) (call : Call) (body : Option LoginBody) (s s' : Server) (u cookie : Text)
      → IsGoodDraw p call
      → login p config call body s ≡ (go (signed_in u cookie), s')
      → (b : LoginBody) × (body ≡ some b)
        × SignsIn config s.users (text_or b.password) u
        × HasBegun p call u cookie s.sessions s'.sessions
  unfolding login
  login-SignsIn config call none s s' u cookie good h = absurd (ground arith)
  login-SignsIn config call (some b) s s' u cookie good h =
      let username = trim (text_or b.username) in
      elim (Step-cases (login_limits p call username s)) [
        | inl (a, s₁, refused) ↦ absurd (ground arith)
        | inr (x, s₁, passed) ↦
            let same = limits_bind call username s s₁ x passed in
            let (how, begun) : SignsIn config s₁.users (text_or b.password) u
                × HasBegun p call u cookie s₁.sessions s'.sessions =
              (elim (Bool-cases (text_eq username admin_name)) [
                | inl bootstrap ↦
                    bootstrap-SignsIn config call (text_or b.password) s₁ s' u cookie good
                      (ground arith)
                | inr user ↦
                    password-SignsIn config call username (text_or b.password) s₁ s' u cookie good
                      (ground arith)
              ]) in
            (
              b,
              refl,
              SignsIn-same config s.users s₁.users (text_or b.password) u same.same_users how,
              subst (λ x. HasBegun p call u cookie x s'.sessions) (sym same.same_sessions) begun,
            )
      ]
