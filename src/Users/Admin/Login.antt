-- ===== src/Users/Admin/Login.antt =====
-- Passwords: what `verifyPassword` demands, and that a password that was set opens the account.
use ob2_turbo_quant.Common.{
  ℕ, ◌≡◌, ◌≢◌, refl, Bool, true, Option, none, some, List, [], ◌∷◌, arith, Text, text_eq_iff, find,
  update_first, Option-cases, inl, inr, ap, ◌∙◌, find_sound,
}
use ob2_turbo_quant.Auth.Passwords.{hash_password, verify_hash}
use ob2_turbo_quant.Users.{UserRecord}
use ob2_turbo_quant.Users.Store.{UserStore, reload_if_changed, load_file}
use ob2_turbo_quant.Users.Store.Reload.{load_file-write}
use ob2_turbo_quant.Users.Admin.{ok, named, set_password, verify_password, may_log_in}
use ob2_turbo_quant.Users.Admin.Writes.{set_password-Writes}
use ob2_turbo_quant.Users.Admin.Keys.{find-update_first, written_as}

pub load_file-reload : (st : UserStore) → load_file (reload_if_changed st) ≡ load_file st
unfolding load_file reload_if_changed
load_file-reload st = ground arith

may_log_in_sound :
    (argon2_verify : Text → Text → Option Bool) (password : Text) (u : UserRecord)
    → may_log_in argon2_verify password u ≡ true
    → (hash : Text) × (u.password_hash ≡ some hash)
      × (u.enabled ≡ true)
      × (argon2_verify hash password ≡ some true)
      × (password ≢ [])
unfolding may_log_in verify_hash
may_log_in_sound argon2_verify password u h = elim (Option-cases u.password_hash) [
  | inl unset ↦ absurd (ground arith)
  | inr (hash, e) ↦ (hash, e, ground arith, ground arith, ground arith)
]

-- What makes a login attempt good.
pub record IsLogin (argon2_verify : Text → Text → Option Bool) (username password : Text)
    (u : UserRecord) (us : List UserRecord) : Type 0 where
  pub hash : Text
  pub found : find (named username) us ≡ some u
  pub is_named : u.username ≡ username
  pub enabled : u.enabled ≡ true
  pub hashed : u.password_hash ≡ some hash
  pub accepted : argon2_verify hash password ≡ some true

-- A login that succeeds is that of an enabled user of the file, whose stored hash Argon2 accepts for
-- the password.
pub verify_password_sound :
    (argon2_verify : Text → Text → Option Bool) (username password : Text) (u : UserRecord)
    (st st' : UserStore)
    → verify_password argon2_verify username password st ≡ ok (some u, st')
    → (us : List UserRecord) × (load_file st ≡ some us)
      × IsLogin argon2_verify username password u us
unfolding verify_password
verify_password_sound argon2_verify username password u st st' h =
    elim (Option-cases (load_file st)) [
      | inl unreadable ↦ absurd (ground (arith, load_file-reload st))
      | inr (us, at) ↦ elim (Option-cases (find (named username) us)) [
        | inl missing ↦ absurd (ground (arith, load_file-reload st))
        | inr (v, found) ↦
            let both : (v ≡ u) × (may_log_in argon2_verify password v ≡ true) =
              ground (arith, load_file-reload st) in
            let found' : find (named username) us ≡ some u = found ∙ ap some both.0 in
            let named_so = find_sound (named username) us u found' in
            let (hash, hashed, on, good, _) =
              may_log_in_sound argon2_verify password u (rw both.0 at both.1) in
            (
              us,
              at,
              record {
                hash = hash;
                found = found';
                is_named = (text_eq_iff u.username username).0 named_so;
                enabled = on;
                hashed = hashed;
                accepted = good;
              },
            )
      ]
    ]

may_log_in_of :
    (argon2_verify : Text → Text → Option Bool) (password hash : Text) (u : UserRecord)
    → u.password_hash ≡ some hash
    → u.enabled ≡ true
    → hash ≢ []
    → password ≢ []
    → argon2_verify hash password ≡ some true
    → may_log_in argon2_verify password u ≡ true
unfolding may_log_in verify_hash
may_log_in_of argon2_verify [] hash u e on p q good = absurd (q refl)
may_log_in_of argon2_verify (c ∷ password) [] u e on p q good = absurd (p refl)
may_log_in_of argon2_verify (c ∷ password) (d ∷ hash) u e on p q good = ground arith

hash_password-some :
    (argon2id : Text → Text → Text) (salt password : Text)
    → hash_password argon2id salt password ≢ none
    → (hash_password argon2id salt password ≡ some (argon2id salt password)) × (password ≢ [])
unfolding hash_password
hash_password-some argon2id salt [] h = absurd (h refl)
hash_password-some argon2id salt (c ∷ password) h = (ground arith, ground arith)

verify_found :
    (argon2_verify : Text → Text → Option Bool) (username password : Text) (us : List UserRecord)
    (u : UserRecord) (st : UserStore)
    → load_file (reload_if_changed st) ≡ some us
    → find (named username) us ≡ some u
    → may_log_in argon2_verify password u ≡ true
    → verify_password argon2_verify username password st ≡ ok (some u, reload_if_changed st)
unfolding verify_password
verify_found argon2_verify username password us u st read found enters =
    rw (read, verify_password) (rw (found, verify_password) (rw enters))

-- A password that was set logs its enabled user in, if Argon2 accepts its own hash of it.
pub verify-set_password :
    (argon2id : Text → Text → Text) (argon2_verify : Text → Text → Option Bool) (now : ℕ)
    (salt username password : Text) (us : List UserRecord) (u : UserRecord) (st st' : UserStore)
    → load_file st ≡ some us
    → find (named username) us ≡ some u
    → u.enabled ≡ true
    → argon2id salt password ≢ []
    → argon2_verify (argon2id salt password) password ≡ some true
    → set_password argon2id now salt username password st ≡ ok st'
    → verify_password argon2_verify username password st'
      ≡ ok
          (some (record u { password_hash = some (argon2id salt password) }), reload_if_changed st')
verify-set_password argon2id argon2_verify now salt username password us u st st' at found on p good
      h =
    let hashing = hash_password argon2id salt password in
    let f : UserRecord → UserRecord = λ u. record u { password_hash = hashing } in
    let (vs, vs', at', w, q) = set_password-Writes argon2id now salt username password st st' h in
    let written =
      written_as now (update_first (named username) f) us st st' at (vs, vs', at', w, q.1) in
    let (hashed, nonempty) = hash_password-some argon2id salt password q.0 in
    let again = find-update_first username f us u found (find_sound (named username) us u found) in
    let read : load_file (reload_if_changed st') ≡ some (update_first (named username) f us) =
      load_file-reload st' ∙ ap load_file written ∙ load_file-write now _ st in
    let enters =
      may_log_in_of argon2_verify password (argon2id salt password)
        (record u { password_hash = some (argon2id salt password) }) refl on p nonempty good in
    verify_found argon2_verify username password _ _ st' read
      (again ∙ ap (λ x. some (record u { password_hash = x })) hashed) enters
