-- ===== src/Routes/UserRoutes/Retire.antt =====
-- A new administrator ends the sessions of the bootstrap account.
use ob2_turbo_quant.Common.{
  ℕ, ◌≡◌, ◌≢◌, arith, sym, ◌∙◌, ap, subst, Bool, true, false, not, ◌&&◌, Option, none, some, [],
  Text, is_empty, option_or, inl, inr, text_key,
}
use ob2_turbo_quant.Common.JsMap.{IsDistinct}
use ob2_turbo_quant.Auth.Sessions.{SessionEntry, SessionStore, resolve_session}
use ob2_turbo_quant.Auth.Sessions.Laws.{resolve-revoke_user}
use ob2_turbo_quant.Users.{UserRecord, AuthContext, admin_name}
use ob2_turbo_quant.Users.Admin
use ob2_turbo_quant.Users.Admin.{Result, ok, err, UserPatch}
use ob2_turbo_quant.Routes.Handler.{
  Server, Platform, Call, Invite, Answer, user_created, fail, Step, go, Handler, ◌>>◌, >>=-go-elim,
  require->>,
}
use ob2_turbo_quant.Routes.AuthRoutes.{text_or}
use ob2_turbo_quant.Routes.UserRoutes.{
  MailEnv, NewUser, admin_only, retire_bootstrap, end_sessions, store_new, store_patch, invite_new,
  send_invite, post_user, patch_user_route, add_user, change_user,
}

pub admin_only->> :
    {B : Type 0} (auth : Option AuthContext) (next : Handler B) (s : Server) (x : B) (s' : Server)
    → (admin_only auth >> next) s ≡ (go x, s')
    → next s ≡ (go x, s')
unfolding admin_only
admin_only->> none next s x s' h = cc (ap (λ r. r.0) h)
admin_only->> (some auth) next s x s' h = require->> auth.global_admin (fail 403) next s x s' h

-- No cookie opens a session of the bootstrap account.
abbrev pub NoBootstrap : Platform → SessionStore → Type 0
NoBootstrap p ss =
    (now : ℕ) (token : Text) (entry : SessionEntry)
    → (resolve_session p.sign now token ss).0 ≡ some entry
    → entry.username ≢ admin_name

retired-NoBootstrap :
    (p : Platform) (is_global : Bool) (s : Server) (u : Unit {0}) (s' : Server)
    → is_global ≡ true
    → IsDistinct s.sessions.sessions
    → retire_bootstrap is_global s ≡ (go u, s')
    → NoBootstrap p s'.sessions
unfolding retire_bootstrap end_sessions
retired-NoBootstrap p true s u s' g d h now token entry found =
    resolve-revoke_user p.sign now token admin_name s.sessions entry d (
      subst (λ x. (resolve_session p.sign now token x.sessions).0 ≡ some entry)
        (sym (ap (λ r. r.1) h)) found)
retired-NoBootstrap p false s u s' g d h now token entry found = cc g

module _ (p : Platform) (env : MailEnv) where
  store_new-go :
      (call : Call) (b : NewUser) (s : Server) (user : UserRecord) (s' : Server)
      → store_new p env call b s ≡ (go user, s')
      → s.sessions ≡ s'.sessions
  unfolding store_new
  store_new-go call b s user s' h =
      elim (Admin.Result-cases (
        Admin.create_user p.to_lower call.now call.api_key (text_or b.username)
          (option_or b.domains []) (option_or b.global_admin false) b.email s.users)) [
            | inl (e, broken) ↦ absurd (ground arith)
            | inr (r, stored) ↦ ground arith
          ]

  store_patch-go :
      (call : Call) (username : Text) (patch : UserPatch) (s : Server) (user : UserRecord)
      (s' : Server)
      → store_patch p env call username patch s ≡ (go user, s')
      → s.sessions ≡ s'.sessions
  unfolding store_patch
  store_patch-go call username patch s user s' h =
      elim (Admin.Result-cases (Admin.update_user p.to_lower call.now username patch s.users)) [
        | inl (e, broken) ↦ absurd (ground arith)
        | inr (r, stored) ↦ ground arith
      ]

  invite_new-go :
      (wanted : Bool) (call : Call) (user : UserRecord) (s : Server) (i : Option Invite)
      (s' : Server)
      → invite_new p env wanted call user s ≡ (go i, s')
      → s.sessions ≡ s'.sessions
  unfolding invite_new send_invite
  invite_new-go true call user s i s' h = ap (λ r. r.1.sessions) h
  invite_new-go false call user s i s' h = ap (λ r. r.1.sessions) h

  -- The user that an answer shows as created.
  abbrev created_user : UserRecord → Step Answer → UserRecord
  created_user other (go (user_created user i)) = user
  created_user other _ = other

  add_user-NoBootstrap :
      (call : Call) (b : NewUser) (s s' : Server) (user : UserRecord) (i : Option Invite)
      → IsDistinct s.sessions.sessions
      → user.global_admin ≡ true
      → add_user p env call b s ≡ (go (user_created user i), s')
      → NoBootstrap p s'.sessions
  unfolding add_user
  add_user-NoBootstrap call b s s' user i d g h =
      >>=-go-elim (store_new p env call b) _ s _ s' h (λ user' s₁ stored h₁.
        >>=-go-elim (retire_bootstrap user'.global_admin) _ s₁ _ s' h₁ (λ u s₂ retired h₂.
          >>=-go-elim (invite_new p env b.send_invite call user') _ s₂ _ s' h₂ (λ i' s₃ written h₃.
            let same : user' ≡ user = ap (λ r. created_user user' r.0) h₃ in
            let ended =
              retired-NoBootstrap p user'.global_admin s₁ u s₂ (ap (λ x. x.global_admin) same ∙ g)
                (subst (λ x. IsDistinct x.sessions) (store_new-go call b s user' s₁ stored) d)
                retired in
            subst (NoBootstrap p)
              (invite_new-go b.send_invite call user' s₂ i' s₃ written ∙ ap (λ r. r.1.sessions) h₃)
              ended)))

  change_user-NoBootstrap :
      (call : Call) (username : Text) (patch : UserPatch) (s s' : Server) (a : Answer)
      → IsDistinct s.sessions.sessions
      → option_or patch.global_admin false ≡ true
      → change_user p env call username patch s ≡ (go a, s')
      → NoBootstrap p s'.sessions
  unfolding change_user
  change_user-NoBootstrap call username patch s s' a d g h =
      >>=-go-elim (store_patch p env call username patch) _ s _ s' h (λ user s₁ stored h₁.
        >>=-go-elim (retire_bootstrap (option_or patch.global_admin false)) _ s₁ _ s' h₁
          (λ u s₂ retired h₂. subst (NoBootstrap p) (ap (λ r. r.1.sessions) h₂) (
            retired-NoBootstrap p (option_or patch.global_admin false) s₁ u s₂ g
              (subst (λ x. IsDistinct x.sessions)
                (store_patch-go call username patch s user s₁ stored) d)
              retired)))

  -- Where no session id stands twice: after a user was created as a global administrator, no cookie
  -- opens a session of the bootstrap account any more.
  pub post_user-NoBootstrap :
      (auth : Option AuthContext) (call : Call) (body : Option NewUser) (s s' : Server)
      (user : UserRecord) (i : Option Invite)
      → IsDistinct s.sessions.sessions
      → user.global_admin ≡ true
      → post_user p env auth call body s ≡ (go (user_created user i), s')
      → NoBootstrap p s'.sessions
  unfolding post_user
  post_user-NoBootstrap auth call none s s' user i d g h =
      cc (ap (λ r. r.0) (admin_only->> auth _ s _ s' h))
  post_user-NoBootstrap auth call (some b) s s' user i d g h =
      let h₁ = admin_only->> auth _ s _ s' h in
      let h₂ = require->> (not (is_empty (text_or b.username))) (fail 400) _ s _ s' h₁ in
      let h₃ =
        require->> (not (b.send_invite && is_empty (text_or b.email))) (fail 400) _ s _ s' h₂ in
      let h₄ = require->> (not (b.send_invite && is_empty env.public_url)) (fail 400) _ s _ s' h₃ in
      add_user-NoBootstrap call b s s' user i d g h₄

  -- The same after a user was made a global administrator.
  pub patch_user_route-NoBootstrap :
      (auth : Option AuthContext) (call : Call) (username : Text) (patch : UserPatch)
      (s s' : Server) (a : Answer)
      → IsDistinct s.sessions.sessions
      → patch.global_admin ≡ some true
      → patch_user_route p env auth call username (some patch) s ≡ (go a, s')
      → NoBootstrap p s'.sessions
  unfolding patch_user_route
  patch_user_route-NoBootstrap auth call username patch s s' a d g h =
      change_user-NoBootstrap call username patch s s' a d (ap (λ o. option_or o false) g)
        (admin_only->> auth _ s _ s' h)
