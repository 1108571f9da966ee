-- ===== src/Routes/AuthRoutes/Begun.antt =====
-- What it takes, and means, that a session has begun.
use ob2_turbo_quant.Common.{
  ℕ, ◌+◌, ◌*◌, ◌≤◌, ◌≡◌, ◌≢◌, refl, ◌⊎◌, some, [], arith, Text, Lacks, ap, subst,
}
use ob2_turbo_quant.Auth.Sessions.{SessionEntry, SessionStore, create_session, resolve_session}
use ob2_turbo_quant.Auth.Sessions.Laws.{resolve-create, resolve-create_only}
use ob2_turbo_quant.Routes.Handler.{Server, Platform, Call, Answer, signed_in, go}
use ob2_turbo_quant.Routes.AuthRoutes.{begin_session}

module _ (p : Platform) where
  -- The id drawn for a session has no dot, and neither it nor its signature is empty.
  abbrev pub IsGoodDraw : Call → Type 0
  IsGoodDraw call =
      Lacks b'.' call.session_id × (call.session_id ≢ []) × (p.sign call.session_id ≢ [])

  -- The cookie opens a session of the user until the session's end, and no other cookie opens what it
  -- did not open before.
  pub record HasBegun (call : Call) (username cookie : Text) (before after : SessionStore)
      : Type 0 where
    pub opens :
        (later : ℕ)
        → later ≤ call.now + before.ttl_sec * 1000
        → (entry : SessionEntry) × ((resolve_session p.sign later cookie after).0 ≡ some entry)
          × (entry.username ≡ username)
    pub opens_alone :
        (now : ℕ) (token : Text) (entry : SessionEntry)
        → (resolve_session p.sign now token after).0 ≡ some entry
        → ((token ≡ cookie) × (entry.username ≡ username))
          ⊎ ((resolve_session p.sign now token before).0 ≡ some entry)

  create_session-HasBegun :
      (call : Call) (username : Text) (st : SessionStore)
      → IsGoodDraw call
      → let (st', cookie, expires_at) =
          create_session p.sign call.now call.session_id username st in
        HasBegun call username cookie st st'
  create_session-HasBegun call username st (no_dot, given, signed) = record {
    opens = λ later early. (
      _,
      ap (λ r. r.0)
          (resolve-create p.sign call.now later call.session_id username st no_dot given signed
            early),
      refl,
    );
    opens_alone = λ now token entry found.
        resolve-create_only p.sign now call.now call.session_id username token st entry found;
  }

  -- A session that the handler begins is the user's, and nothing else of the state changes.
  pub record Begins (call : Call) (username cookie : Text) (s s' : Server) : Type 0 where
    pub begun : HasBegun call username cookie s.sessions s'.sessions
    pub users_kept : s.users ≡ s'.users
    pub tokens_kept : s.tokens ≡ s'.tokens
    pub outbox_kept : s.outbox ≡ s'.outbox

  pub begin_session-Begins :
      (call : Call) (username : Text) (s s' : Server) (a : Answer)
      → IsGoodDraw call
      → begin_session p call username s ≡ (go a, s')
      → (cookie : Text) × (a ≡ signed_in username cookie) × Begins call username cookie s s'
  unfolding begin_session
  begin_session-Begins call username s s' a good h =
      let made = create_session p.sign call.now call.session_id username s.sessions in
      let same : (record s { sessions = made.0 }) ≡ s' = ap (λ r. r.1) h in
      (
        made.1,
        ground arith,
        subst (Begins call username made.1 s) same (record {
          begun = create_session-HasBegun call username s.sessions good;
          users_kept = refl;
          tokens_kept = refl;
          outbox_kept = refl;
        }),
      )
