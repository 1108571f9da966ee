-- ===== src/Auth/ResetTokens/Laws.antt =====
-- Tokens are spent once, in time, and by nobody whose tokens were revoked.
use ob2_turbo_quant.Common.{
  ℕ, ◌+◌, ◌<◌, ◌≡◌, refl, ◌≢◌, ◌⊎◌, inl, inr, true, false, not, none, some, List, [], ◌∷◌, ◌-◌,
  length, keep_whole, some_inj, arith, ltb, leb, if◌then◌else◌, Text, text_eq, text_eq_iff, sym, ap,
  ◌∙◌, find, keep, remove_first, find-keep_passes, find-keep_last, Option-cases, Bool-cases,
}
use ob2_turbo_quant.Auth.ResetTokens.{
  TokenKind, reset, invite, ResetToken, TokenStore, Grant, load_if_changed, atomic_write, ttl_of,
  has_hash, unexpired, grant_of, revoke_user_tokens, generate_token, consume_token, peek_token,
}

-- What the next call sees.
abbrev pub current : TokenStore → List ResetToken
current st = (load_if_changed st).tokens

-- Whether or not the file is read again after a write, the tokens are those written.
current-write : (now : ℕ) (st : TokenStore) → current (atomic_write now st) ≡ st.tokens
unfolding load_if_changed atomic_write
current-write now st = ground arith

-- Loading twice in a row is loading once.
current-load : (st : TokenStore) → current (load_if_changed st) ≡ current st
unfolding load_if_changed
current-load st = ground arith

-- The token that a text names, among those current.
abbrev pub Names : Text → ResetToken → TokenStore → Type 0
Names hash t st = find (has_hash hash) (current st) ≡ some t

-- No two tokens share a hash.
abbrev pub HashesDistinct : List ResetToken → Type 0
HashesDistinct [] = Unit
HashesDistinct (t ∷ ts) = (find (has_hash t.token_hash) ts ≡ none) × HashesDistinct ts

find-remove_first :
    (hash : Text) (ts : List ResetToken)
    → HashesDistinct ts
    → find (has_hash hash) (remove_first (has_hash hash) ts) ≡ none
unfolding find remove_first
find-remove_first hash [] d = refl
find-remove_first hash (t ∷ ts) (fresh, d) = elim (Bool-cases (has_hash hash t)) [
  | inl hit ↦ rw hit (rw ((text_eq_iff t.token_hash hash).0 hit) at fresh)
  | inr miss ↦ rw (miss, miss) (find-remove_first hash ts d)
]

abbrev left_of : Text → TokenStore → List ResetToken
left_of username st = keep (λ t. not (text_eq t.username username)) (current st)

-- After tokens are filtered, written back or not, the next call sees those that pass.
current-revoke :
    (username : Text) (now : ℕ) (st : TokenStore)
    → current (revoke_user_tokens username now st).1
      ≡ keep (λ t. not (text_eq t.username username)) (current st)
unfolding revoke_user_tokens
current-revoke username now st =
    elim (Bool-cases (ltb 0 (length (current st) - length (left_of username st)))) [
      | inl some_gone ↦ rw some_gone (current-write now _)
      | inr none_gone ↦
          let whole : left_of username st ≡ current st =
            keep_whole (λ t. not (text_eq t.username username)) (current st) (ground arith) in
          let same : record (load_if_changed st) { tokens = left_of username st }
              ≡ load_if_changed st =
            λ i. record (load_if_changed st) { tokens = whole i } in
          rw none_gone (ap current same ∙ current-load st ∙ sym whole)
    ]

module _ (sha256_hex : Text → Text) where
  -- Both ways that a token can fare at `consume_token`.
  consume_cases :
      (plaintext : Text) (now : ℕ) (st : TokenStore)
      → ((find (has_hash (sha256_hex plaintext)) (current st) ≡ none)
          × (consume_token sha256_hex plaintext now st ≡ (none, load_if_changed st)))
        ⊎ ((t : ResetToken) × Names (sha256_hex plaintext) t st
            × ((consume_token sha256_hex plaintext now st).0
                ≡ (if leb t.expires_at now then none else some (grant_of t)))
            × (current (consume_token sha256_hex plaintext now st).1
                ≡ remove_first (has_hash (sha256_hex plaintext)) (current st)))
  unfolding consume_token
  consume_cases plaintext now st =
      elim (Option-cases (find (has_hash (sha256_hex plaintext)) (current st))) [
        | inl missing ↦ inl (missing, rw (missing, consume_token))
        | inr (t, found) ↦
            inr
              (t, found, rw (found, consume_token), rw (found, consume_token) (current-write now _))
      ]

  -- A token that is spent was current, had not expired, and carries the user and the kind that it
  -- was issued for.
  pub consume_sound :
      (plaintext : Text) (now : ℕ) (st : TokenStore) (g : Grant)
      → (consume_token sha256_hex plaintext now st).0 ≡ some g
      → (t : ResetToken) × Names (sha256_hex plaintext) t st
        × (now < t.expires_at)
        × (g ≡ grant_of t)
  consume_sound plaintext now st g h = elim (consume_cases plaintext now st) [
    | inl (missing, e) ↦ cc (ap (λ r. r.0) e)
    | inr (t, found, value, _) ↦ (t, found, ground arith, ground arith)
  ]

  -- Peeking tells what consuming would give, and leaves the tokens as they are.
  pub peek-consume :
      (plaintext : Text) (now : ℕ) (st : TokenStore)
      → ((peek_token sha256_hex plaintext now st).0 ≡ (consume_token sha256_hex plaintext now st).0)
        × (current (peek_token sha256_hex plaintext now st).1 ≡ current st)
  unfolding peek_token consume_token
  peek-consume plaintext now st =
      elim (Option-cases (find (has_hash (sha256_hex plaintext)) (current st))) [
        | inl missing ↦
            (rw (missing, peek_token, consume_token), rw (missing, peek_token) (current-load st))
        | inr (t, found) ↦
            (rw (found, peek_token, consume_token), rw (found, peek_token) (current-load st))
      ]

  consume_missing :
      (plaintext : Text) (now : ℕ) (st : TokenStore)
      → find (has_hash (sha256_hex plaintext)) (current st) ≡ none
      → (consume_token sha256_hex plaintext now st).0 ≡ none
  unfolding consume_token
  consume_missing plaintext now st missing = rw (missing, consume_token)

  -- Where no two tokens share a hash, a token that was consumed, spent or found expired, is gone:
  -- no later attempt succeeds.
  pub consume-consume :
      (plaintext : Text) (now later : ℕ) (st : TokenStore)
      → HashesDistinct (current st)
      → (consume_token sha256_hex plaintext later (consume_token sha256_hex plaintext now st).1).0
        ≡ none
  consume-consume plaintext now later st d =
      let hash = sha256_hex plaintext in
      consume_missing plaintext later (consume_token sha256_hex plaintext now st).1
        (elim (consume_cases plaintext now st) [
          | inl (missing, e) ↦ rw e (ap (find (has_hash hash)) (current-load st) ∙ missing)
          | inr (t, _, _, left) ↦
              ap (find (has_hash hash)) left ∙ find-remove_first hash (current st) d
        ])

  issued : Text → ℕ → Text → TokenKind → ResetToken
  issued plaintext now username kind = record {
    token_hash = sha256_hex plaintext;
    username = username;
    kind = kind;
    expires_at = now + ttl_of kind;
    created_at = now;
  }

  unexpired_fresh :
      (plaintext : Text) (now : ℕ) (username : Text) (kind : TokenKind)
      → unexpired now (issued plaintext now username kind) ≡ true
  unfolding issued
  unexpired_fresh plaintext now username reset = ground arith
  unexpired_fresh plaintext now username invite = ground arith

  find-generate :
      (plaintext username : Text) (kind : TokenKind) (now : ℕ) (st : TokenStore)
      → find (has_hash (sha256_hex plaintext)) (current st) ≡ none
      → Names
          (sha256_hex plaintext)
          (issued plaintext now username kind)
          (generate_token sha256_hex plaintext now username kind st).0
  unfolding generate_token issued
  find-generate plaintext username kind now st fresh =
      let hash = sha256_hex plaintext in
      let token = issued plaintext now username kind in
      ap (find (has_hash hash)) (current-write now _)
      ∙ find-keep_last (has_hash hash) (unexpired now) (current st) token fresh
          ((text_eq_iff hash hash).1 refl) (unexpired_fresh plaintext now username kind)

  -- A fresh token, whose hash no token has, is granted to its user until it expires.
  pub consume-generate :
      (plaintext username : Text) (kind : TokenKind) (now later : ℕ) (st : TokenStore)
      → find (has_hash (sha256_hex plaintext)) (current st) ≡ none
      → later < now + ttl_of kind
      → (consume_token sha256_hex plaintext later
          (generate_token sha256_hex plaintext now username kind st).0).0
        ≡ some (record { username = username; kind = kind })
  consume-generate plaintext username kind now later st fresh h =
      let found = find-generate plaintext username kind now st fresh in
      let token = issued plaintext now username kind in
      let in_time : leb token.expires_at later ≡ false = unfold issued in ground arith in
      elim (consume_cases plaintext later
        (generate_token sha256_hex plaintext now username kind st).0) [
          | inl (missing, e) ↦ cc
          | inr (t, same, value, _) ↦
              let e : t ≡ token = some_inj t token (sym same ∙ found) in
              rw (value, e, in_time) (unfold issued in refl)
        ]

  -- Once a user's tokens are revoked, no token is granted to that user.
  pub consume-revoke_user :
      (plaintext username : Text) (now later : ℕ) (st : TokenStore) (g : Grant)
      → (consume_token sha256_hex plaintext later (revoke_user_tokens username now st).1).0 ≡ some g
      → g.username ≢ username
  consume-revoke_user plaintext username now later st g h =
      let (t, found, _, e) =
        consume_sound plaintext later (revoke_user_tokens username now st).1 g h in
      let kept =
        sym (ap (find (has_hash (sha256_hex plaintext))) (current-revoke username now st))
        ∙ found in
      let passes =
        find-keep_passes (has_hash (sha256_hex plaintext)) (λ t. not (text_eq t.username username))
          (current st) t kept in
      ground (arith, text_eq_iff t.username username)
