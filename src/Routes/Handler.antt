-- ===== src/Routes/Handler.antt =====
-- A handler as a computation over the server's state that may answer early. What the runtime and
-- other libraries provide is in `Platform`, what a request draws and carries in `Call`.
use ob2_turbo_quant.Common.{
  ℕ, Bool, true, false, Option, none, some, List, Text, ◌≡◌, refl, ap, ◌∙◌, ◌⊎◌, inl, inr,
}
use ob2_turbo_quant.Auth.RateLimit
use ob2_turbo_quant.Auth.RateLimit.{Buckets, Verdict}
use ob2_turbo_quant.Auth.Sessions.{SessionStore}
use ob2_turbo_quant.Auth.ResetTokens.{TokenStore}
use ob2_turbo_quant.Users.{UserRecord}
use ob2_turbo_quant.Users.Store.{UserStore}

pub record Mail : Type 0 where
  pub to : Text
  pub plaintext : Text

-- `outbox` lists the mails handed to the mailer, newest first.
pub record Server : Type 0 where
  pub users : UserStore
  pub sessions : SessionStore
  pub buckets : Buckets
  pub tokens : TokenStore
  pub outbox : List Mail

pub record Platform : Type 0 where
  pub sign : Text → Text
  pub argon2id : Text → Text → Text
  pub argon2_verify : Text → Text → Option Bool
  pub sha256_hex : Text → Text
  pub to_lower : Text → Text

-- The time of a request, the client's address as `clientIp` gives it, and what is drawn on the way.
pub record Call : Type 0 where
  pub now : ℕ
  pub ip : Text
  pub session_id : Text
  pub salt : Text
  pub token_plaintext : Text
  pub api_key : Text

-- An invitation: the token of its link, and what became of the mail.
pub data Delivery : Type 0 where
  was_sent smtp_not_configured send_failed : Delivery

pub record Invite : Type 0 where
  pub plaintext : Text
  pub expires_at : ℕ
  pub delivery : Delivery

-- An error with its status, `{ ok: true }` (with what was asked for), a session begun (the user
-- and the cookie's value), or what a route of the users shows. `thrown` is an exception that no handler catches.
pub data Answer : Type 0 where
  fail : ℕ → Answer
  done : Answer
  issued_key : Text → Answer
  signed_in : Text → Text → Answer
  users_listed : List UserRecord → Answer
  user_created : UserRecord → Option Invite → Answer
  user_shown : UserRecord → Answer
  invited : Invite → Answer
  smtp_status : Bool → Answer
  thrown : Answer

pub data Step (A : Type 0) : Type 0 where
  halt : Answer → Step A
  go : A → Step A

abbrev pub Handler : Type 0 → Type 0
Handler A = Server → Step A × Server

abbrev pub continue : {A B : Type 0} → Step A × Server → (A → Handler B) → Step B × Server
continue (halt a, s) f = (halt a, s)
continue (go x, s) f = f x s

infixl 5 ◌>>=◌ ◌>>◌
abbrev pub ◌>>=◌ : {A B : Type 0} → Handler A → (A → Handler B) → Handler B
◌>>=◌ m f s = continue (m s) f

abbrev pub ◌>>◌ : {B : Type 0} → Handler (Unit {0}) → Handler B → Handler B
m >> k = m >>= λ _. k

abbrev pub pass : {A : Type 0} → A → Handler A
pass a s = (go a, s)

abbrev pub stop : {A : Type 0} → Answer → Handler A
stop a s = (halt a, s)

-- `if (!b) return a`
abbrev pub require : Bool → Answer → Handler (Unit {0})
require true a = pass tt
require false a = stop a

abbrev pub require_some : {A : Type 0} → Option A → Answer → Handler A
require_some none a = stop a
require_some (some x) a = pass x

-- `rateLimit(key, limit, windowMs)`, and 429 where it refuses.
unfoldable pub throttle : ℕ → Text → ℕ → ℕ → Handler (Unit {0})
throttle now key limit window_ms s =
    let (buckets, verdict) = RateLimit.check key limit window_ms now s.buckets in
    require verdict.allowed (fail 429) (record s { buckets = buckets })

-- Inversion of what a handler answers, step by step.
continue-go :
    {A B : Type 0} (r : Step A × Server) (f : A → Handler B) (b : B) (s' : Server)
    → continue r f ≡ (go b, s')
    → (a : A) × (s₁ : Server) × (r ≡ (go a, s₁)) × (f a s₁ ≡ (go b, s'))
continue-go (halt a, s) f b s' h = cc (ap (λ r. r.0) h)
continue-go (go a, s) f b s' h = (a, s, refl, h)

pub >>=-go :
    {A B : Type 0} (m : Handler A) (f : A → Handler B) (s : Server) (b : B) (s' : Server)
    → (m >>= f) s ≡ (go b, s')
    → (a : A) × (s₁ : Server) × (m s ≡ (go a, s₁)) × (f a s₁ ≡ (go b, s'))
>>=-go m f s b s' h = continue-go (m s) f b s' h

-- The same, for the rest of a proof.
pub >>=-go-elim :
    {A B : Type 0} {C : Type 0} (m : Handler A) (f : A → Handler B) (s : Server) (b : B)
    (s' : Server)
    → (m >>= f) s ≡ (go b, s')
    → ((a : A) (s₁ : Server) → m s ≡ (go a, s₁) → f a s₁ ≡ (go b, s') → C)
    → C
>>=-go-elim m f s b s' h k = let (a, s₁, e, h₁) = >>=-go m f s b s' h in k a s₁ e h₁

-- A requirement that was met leaves the state as it was.
pub require->> :
    {B : Type 0} (b : Bool) (a : Answer) (next : Handler B) (s : Server) (x : B) (s' : Server)
    → (require b a >> next) s ≡ (go x, s')
    → next s ≡ (go x, s')
require->> true a next s x s' h = h
require->> false a next s x s' h = cc (ap (λ r. r.0) h)

pub require-go :
    (b : Bool) (a : Answer) (s : Server) (u : Unit {0}) (s' : Server)
    → require b a s ≡ (go u, s')
    → (b ≡ true) × (s ≡ s')
require-go true a s u s' h = (refl, ap (λ r. r.1) h)
require-go false a s u s' h = cc (ap (λ r. r.0) h)

go_inj :
    {A : Type 0} (y x : A) → ◌≡◌ {A = Step A} (go y) (go x) → ◌≡◌ {A = Option A} (some y) (some x)
go_inj y x e = cc

pub require_some-go :
    {A : Type 0} (o : Option A) (a : Answer) (s : Server) (x : A) (s' : Server)
    → require_some o a s ≡ (go x, s')
    → (o ≡ some x) × (s ≡ s')
require_some-go none a s x s' h = cc (ap (λ r. r.0) h)
require_some-go (some y) a s x s' h = (go_inj y x (ap (λ r. r.0) h), ap (λ r. r.1) h)

-- Users, sessions, tokens and mails are as they were.
pub record SameAccounts (s s' : Server) : Type 0 where
  pub same_users : s.users ≡ s'.users
  pub same_sessions : s.sessions ≡ s'.sessions
  pub same_tokens : s.tokens ≡ s'.tokens
  pub same_outbox : s.outbox ≡ s'.outbox

pub throttle-go :
    (now : ℕ) (key : Text) (limit window_ms : ℕ) (s : Server) (u : Unit {0}) (s' : Server)
    → throttle now key limit window_ms s ≡ (go u, s')
    → ((RateLimit.check key limit window_ms now s.buckets).1.allowed ≡ true) × SameAccounts s s'
unfolding throttle
throttle-go now key limit window_ms s u s' h =
    let (allowed, same) =
      require-go (RateLimit.check key limit window_ms now s.buckets).1.allowed (fail 429) _ u s'
        h in
    (
      allowed,
      record {
        same_users = ap (λ x. x.users) same;
        same_sessions = ap (λ x. x.sessions) same;
        same_tokens = ap (λ x. x.tokens) same;
        same_outbox = ap (λ x. x.outbox) same;
      },
    )

-- To split on what a handler has answered, with the equation.
pub Step-cases :
    {A : Type 0} (r : Step A × Server)
    → ((a : Answer) × (s : Server) × (r ≡ (halt a, s))) ⊎ ((x : A) × (s : Server) × (r ≡ (go x, s)))
Step-cases (halt a, s) = inl (a, s, refl)
Step-cases (go x, s) = inr (x, s, refl)

pub SameAccounts-trans : (s t u : Server) → SameAccounts s t → SameAccounts t u → SameAccounts s u
SameAccounts-trans s t u a b = record {
  same_users = a.same_users ∙ b.same_users;
  same_sessions = a.same_sessions ∙ b.same_sessions;
  same_tokens = a.same_tokens ∙ b.same_tokens;
  same_outbox = a.same_outbox ∙ b.same_outbox;
}
