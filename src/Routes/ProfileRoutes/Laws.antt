-- ===== src/Routes/ProfileRoutes/Laws.antt =====
-- Changing a password takes the current one, and ends every other session.
use ob2_turbo_quant.Common.{◌≡◌, ◌≢◌, false, none, some, List, Text, text_key, find}
use ob2_turbo_quant.Auth.Passwords.{validate_password_strength}
use ob2_turbo_quant.Users.{UserRecord, AuthContext, admin_name}
use ob2_turbo_quant.Users.Store.{UserStore, load_file, list_users}
use ob2_turbo_quant.Users.Admin
use ob2_turbo_quant.Users.Admin.{Result, err, named}
use ob2_turbo_quant.Users.Admin.Login.{IsLogin}
use ob2_turbo_quant.Routes.Handler.{Server, Platform, Call, Answer, signed_in}
use ob2_turbo_quant.Routes.AuthRoutes.{PasswordBody, text_or}
use ob2_turbo_quant.Routes.AuthRoutes.Reset.{IsSecured}
use ob2_turbo_quant.Routes.ProfileRoutes.{has_password}
use ob2_turbo_quant.Routes.AuthRoutes.Begun.{Begins}

module _ (p : Platform) where
  -- The user's record has no password, or the current one was given.
  pub data IsConfirmed (username current : Text) (users : UserStore) : Type 0 where
    none_set :
        has_password (find (named username) (list_users users).0) ≡ false
        → IsConfirmed username current users
    confirmed :
        (r : UserRecord) (us : List UserRecord)
        → load_file (list_users users).1 ≡ some us
        → IsLogin p.argon2_verify username current r us
        → IsConfirmed username current users

  -- How a change of password that succeeds has gone.
  pub record IsChange (call : Call) (auth : AuthContext) (b : PasswordBody) (s : Server)
      (a : Answer) (s' : Server) : Type 0 where
    pub middle : Server
    pub users : UserStore
    pub same_file : load_file s.users ≡ load_file users
    pub cookie : Text
    pub no_bootstrap : auth.username ≢ admin_name
    pub strong : validate_password_strength (text_or b.next) ≡ none
    pub current : IsConfirmed auth.username (text_or b.current) s.users
    pub secured : IsSecured p call auth.username (text_or b.next) users middle
    pub answered : a ≡ signed_in auth.username cookie
    pub signed_in_anew : Begins p call auth.username cookie middle s'
