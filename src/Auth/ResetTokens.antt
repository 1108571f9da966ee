-- ===== src/Auth/ResetTokens.antt =====
-- server/auth/reset-tokens.ts: the store of reset and invite tokens, with its file. Times are epoch
-- milliseconds (the ISO texts of the file carry the same), `now` is `Date.now()` at the call and
-- the time that the file system stamps on a write, `plaintext` is what `_generatePlaintext` drew,
-- and `sha256_hex` the digest. A call runs alone: its awaits let no other call in.
pub mod Laws
use ob2_turbo_quant.Common.{
  ℕ, ◌+◌, ◌-◌, ◌*◌, Bool, true, false, not, ◌&&◌, Option, none, some, List, [], ◌∷◌, ◌++◌, ltb, leb,
  ◌==◌, if◌then◌else◌, Text, text_eq, length, find, keep, remove_first,
}

pub data TokenKind : Type 0 where
  reset invite : TokenKind

pub record ResetToken : Type 0 where
  pub token_hash : Text
  pub username : Text
  pub kind : TokenKind
  pub expires_at : ℕ
  pub created_at : ℕ

-- What the file holds: text that is no JSON, or the array `tokens` (empty where it is no array).
pub data Content : Type 0 where
  malformed : Content
  stored : List ResetToken → Content

pub record TokenFile : Type 0 where
  pub mtime : ℕ
  pub content : Content

pub record TokenStore : Type 0 where
  pub tokens : List ResetToken
  pub last_mtime : ℕ
  pub loaded : Bool
  pub disk : Option TokenFile

pub record Grant : Type 0 where
  pub username : Text
  pub kind : TokenKind

abbrev pub reset_ttl_ms : ℕ
reset_ttl_ms = 3600000

abbrev pub invite_ttl_ms : ℕ
invite_ttl_ms = 604800000

pub read_content : Content → TokenStore → TokenStore
read_content malformed st = st
read_content (stored tokens) st = record st { tokens = tokens; loaded = true }

unfoldable pub load_if_changed : TokenStore → TokenStore
unfolding read_content
load_if_changed st = elim st.disk [
  | none ↦ record st { tokens = []; loaded = true }
  | some file ↦
      if st.loaded && leb file.mtime st.last_mtime
      then st
      else read_content file.content (record st { last_mtime = file.mtime })
]

pub atomic_write : ℕ → TokenStore → TokenStore
atomic_write now st = record st {
  disk = some (record { mtime = now; content = stored st.tokens });
  last_mtime = 0;
}

abbrev pub ttl_of : TokenKind → ℕ
ttl_of reset = reset_ttl_ms
ttl_of invite = invite_ttl_ms

abbrev pub has_hash : Text → ResetToken → Bool
has_hash hash t = text_eq t.token_hash hash

abbrev pub unexpired : ℕ → ResetToken → Bool
unexpired now t = ltb now t.expires_at

abbrev pub grant_of : ResetToken → Grant
grant_of t = record { username = t.username; kind = t.kind }

-- `_tokens = _tokens.filter(p)`, written back where that removed something.
filter_tokens : (ResetToken → Bool) → ℕ → TokenStore → ℕ × TokenStore
filter_tokens p now st =
    let left = record st { tokens = keep p st.tokens } in
    let removed = length st.tokens - length left.tokens in
    (removed, if ltb 0 removed then atomic_write now left else left)

unfoldable pub revoke_user_tokens : Text → ℕ → TokenStore → ℕ × TokenStore
unfolding filter_tokens
revoke_user_tokens username now st =
    filter_tokens (λ t. not (text_eq t.username username)) now (load_if_changed st)

pub sweep_expired : ℕ → TokenStore → ℕ × TokenStore
unfolding filter_tokens
sweep_expired now st = filter_tokens (unexpired now) now (load_if_changed st)

module _ (sha256_hex : Text → Text) where
  unfoldable pub generate_token : Text → ℕ → Text → TokenKind → TokenStore → TokenStore × Text × ℕ
  generate_token plaintext now username kind st =
      let st₁ = load_if_changed st in
      let token : ResetToken = record {
        token_hash = sha256_hex plaintext;
        username = username;
        kind = kind;
        expires_at = now + ttl_of kind;
        created_at = now;
      } in
      let st₂ = record st₁ { tokens = keep (unexpired now) (st₁.tokens ++ (token ∷ [])) } in
      (atomic_write now st₂, plaintext, now + ttl_of kind)

  -- Spends the token, if it has not expired, and deletes it in either case.
  take_token : Text → ℕ → ResetToken → TokenStore → Option Grant × TokenStore
  take_token hash now t st =
      let st' = atomic_write now (record st { tokens = remove_first (has_hash hash) st.tokens }) in
      (if leb t.expires_at now then none else some (grant_of t), st')

  unfoldable pub consume_token : Text → ℕ → TokenStore → Option Grant × TokenStore
  unfolding take_token
  consume_token plaintext now st =
      let st₁ = load_if_changed st in
      let hash = sha256_hex plaintext in
      elim (find (has_hash hash) st₁.tokens) [
        | none ↦ (none, st₁)
        | some t ↦ take_token hash now t st₁
      ]

  pub peek_token : Text → ℕ → TokenStore → Option Grant × TokenStore
  peek_token plaintext now st =
      let st₁ = load_if_changed st in
      elim (find (has_hash (sha256_hex plaintext)) st₁.tokens) [
        | none ↦ (none, st₁)
        | some t ↦ (if leb t.expires_at now then none else some (grant_of t), st₁)
      ]
