-- ===== src/Knowledge/Download/Access.antt =====
-- Who gets an uploaded file.
use ob2_turbo_quant.Common.{
  ℕ, ◌||◌, ltb, arith, sym, ap, ◌∙◌, ◌++◌, [], ◌∷◌, option_or, option_or_full, Option-cases, ◌+◌,
  ◌≤◌, ◌≡◌, refl, Bool, true, false, some, Text, is_empty, Bool-cases, ◌⊎◌, inl, inr,
}
use ob2_turbo_quant.Auth.FileSigning.{link_payload, sign_file_token, verify_file_token}
use ob2_turbo_quant.Auth.TimingSafe.{timing_safe_equal_iff}
use ob2_turbo_quant.Auth.FileSigning.Links.{verify_file_token_iff}
use ob2_turbo_quant.Auth.Sessions.{SessionStore}
use ob2_turbo_quant.Users.{read, AuthContext, has_permission}
use ob2_turbo_quant.Users.Access.{Decision, Headers, proceed, answer, bearer_auth}
use ob2_turbo_quant.Users.Store.{UserStore}
use ob2_turbo_quant.Knowledge.Download.{
  DownloadWorld, LinkQuery, Download, error, sent, is_file_id, is_signed, may_download, find_file,
  directory, download_as, download,
}

abbrev pub was_sent : Download → Bool
was_sent (error status) = false
was_sent (sent name content_type) = true

may_download_sound :
    (w : DownloadWorld) (domain : Text) (decision : Decision)
    → may_download w domain decision ≡ true
    → (auth : AuthContext) × (decision ≡ proceed auth) × (has_permission auth domain read ≡ true)
may_download_sound w domain (answer status) h = cc
may_download_sound w domain (proceed auth) h = (auth, refl, h)

-- Without a signed link, what is sent is sent to someone who may read the domain.
unsigned_guarded :
    (w : DownloadWorld) (now_sec now : ℕ) (domain file_id : Text) (q : LinkQuery)
    (headers : Headers) (st : UserStore) (ss : SessionStore)
    → was_sent (download w now_sec now domain file_id q headers st ss).0 ≡ true
    → is_signed w now_sec domain file_id q ≡ false
    → may_download w domain (bearer_auth w.sign w.config now headers st ss).0 ≡ true
unfolding download download_as
unsigned_guarded w now_sec now domain file_id q headers st ss h unsigned =
    elim (Bool-cases (may_download w domain (bearer_auth w.sign w.config now headers st ss).0)) [
      | inl may ↦ may
      | inr may_not ↦ elim (Bool-cases (is_file_id file_id)) [
        | inl id ↦ let bad : false ≡ true = rw (id, unsigned, may_not) at h in cc
        | inr no_id ↦ let bad : false ≡ true = rw no_id at h in cc
      ]
    ]

-- A link that holds: its time is a number in the future, and its token the signature of the domain, the
-- file and that time.
abbrev pub Holds : DownloadWorld → ℕ → Text → Text → LinkQuery → Type 0
Holds w now_sec domain file_id q =
    (exp : Text) × (e : ℕ) × (q.exp ≡ some exp)
    × (w.parse_int exp ≡ some e)
    × (now_sec ≤ e)
    × (q.token ≡ some (w.sign_link (domain ++ (b'|' ∷ (file_id ++ (b'|' ∷ w.decimal e))))))

is_signed-Holds :
    (w : DownloadWorld) (now_sec : ℕ) (domain file_id : Text) (q : LinkQuery)
    → is_signed w now_sec domain file_id q ≡ true
    → Holds w now_sec domain file_id q
unfolding is_signed verify_file_token
is_signed-Holds w now_sec domain file_id q h =
    let t = option_or q.token [] in
    let exp = option_or q.exp [] in
    elim (Bool-cases (is_empty t || is_empty exp)) [
      | inl missing ↦ absurd (ground arith)
      | inr given ↦ elim (Option-cases (w.parse_int exp)) [
        | inl no_number ↦ absurd (ground arith)
        | inr (e, number) ↦
            let valid : verify_file_token w.sign_link w.decimal now_sec domain file_id t e ≡ true =
              ground arith in
            elim (Bool-cases (ltb e now_sec)) [
              | inl late ↦ absurd (ground arith)
              | inr early ↦
                  let same =
                    (timing_safe_equal_iff
                        (w.sign_link (link_payload w.sign_link w.decimal domain file_id e)) t).0
                      (ground arith) in
                  (
                    exp,
                    e,
                    option_or_full q.exp (ground arith),
                    number,
                    ground arith,
                    option_or_full q.token (ground arith) ∙ ap (λ x. some x) (sym same),
                  )
            ]
      ]
    ]

-- A file is sent only for a link that is in time and has the signature of the domain, the file and its
-- time, or to someone whom the middleware lets in and who may read the domain.
pub download_guarded :
    (w : DownloadWorld) (now_sec now : ℕ) (domain file_id : Text) (q : LinkQuery)
    (headers : Headers) (st : UserStore) (ss : SessionStore)
    → was_sent (download w now_sec now domain file_id q headers st ss).0 ≡ true
    → Holds w now_sec domain file_id q
      ⊎ ((auth : AuthContext) × ((bearer_auth w.sign w.config now headers st ss).0 ≡ proceed auth)
          × (has_permission auth domain read ≡ true))
unfolding download download_as
download_guarded w now_sec now domain file_id q headers st ss h =
    elim (Bool-cases (is_signed w now_sec domain file_id q)) [
      | inl signed ↦ inl (is_signed-Holds w now_sec domain file_id q signed)
      | inr unsigned ↦ inr (
          may_download_sound w domain (bearer_auth w.sign w.config now headers st ss).0
            (unsigned_guarded w now_sec now domain file_id q headers st ss h unsigned))
    ]

-- Whoever opens a link finds the file without signing in, as long as the link's lifetime lasts and the
-- file is there; nobody's session is looked at. What is relied on: a signature and a number's text
-- are not empty, and a number is read back from its text.
pub download-sign_file_token :
    (w : DownloadWorld) (signed_at ttl_sec now_sec now : ℕ) (domain file_id : Text)
    (headers : Headers) (st : UserStore) (ss : SessionStore)
    → ((payload : Text) → is_empty (w.sign_link payload) ≡ false)
    → ((n : ℕ) → is_empty (w.decimal n) ≡ false)
    → ((n : ℕ) → w.parse_int (w.decimal n) ≡ some n)
    → now_sec ≤ signed_at + ttl_sec
    → is_file_id file_id ≡ true
    → let (token, exp) = sign_file_token w.sign_link w.decimal signed_at domain file_id ttl_sec in
      download w now_sec now domain file_id
        (record { token = some token; exp = some (w.decimal exp) })
        headers
        st
        ss
      ≡ (find_file w file_id (directory w domain), st, ss)
unfolding download is_signed sign_file_token
download-sign_file_token w signed_at ttl_sec now_sec now domain file_id headers st ss h k p early
      id =
    let valid =
      (verify_file_token_iff w.sign_link w.decimal signed_at ttl_sec now_sec domain file_id _).1
        (early, refl) in
    rw (id, h _, k (signed_at + ttl_sec), p (signed_at + ttl_sec), valid) refl
