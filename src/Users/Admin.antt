-- ===== src/Users/Admin.antt =====
-- server/users.ts: the operations that write users.json. An operation that throws leaves the store
-- as it was, so an error carries no store. `now` is the time of the call and of its write.
pub mod Writes
pub mod Rail
pub mod Keys
pub mod Login
use ob2_turbo_quant.Common.{
  ℕ, Bool, true, false, not, ◌||◌, Option, none, some, List, [], ◌∷◌, ◌++◌, if◌then◌else◌, Text,
  text_eq, codes, any, find, update_first, is_some, is_empty, ◌⊎◌, inl, inr, ◌≡◌, refl,
}
use mathlib.Core.Option
use ob2_turbo_quant.Auth.Passwords.{hash_password, verify_hash}
use ob2_turbo_quant.Users.{Domains, UserRecord, is_valid_email, masked}
use ob2_turbo_quant.Users.Store.{
  UserStore, reload_if_changed, load_file, atomic_write, would_leave_zero_admins,
}

pub data UsersError : Type 0 where
  unreadable invalid_email username_taken user_not_found zero_admin weak_password : UsersError

pub data Result {ℓ} (A : Type ℓ) : Type ℓ where
  ok : A → Result A
  err : UsersError → Result A

infixl 5 ◌>>=◌ ◌>>◌
abbrev pub ◌>>=◌ {ℓ κ} : {X : Type ℓ} {Y : Type κ} → Result X → (X → Result Y) → Result Y
ok x >>= next = next x
err refusal >>= next = err refusal

abbrev pub ◌>>◌ {ℓ} : {Y : Type ℓ} → Result (Unit {0}) → Result Y → Result Y
first >> next = first >>= λ _. next

abbrev pub guard : Bool → UsersError → Result (Unit {0})
guard true refusal = ok tt
guard false refusal = err refusal

abbrev pub or_fail {ℓ} : {A : Type ℓ} → Option A → UsersError → Result A
or_fail none e = err e
or_fail (some a) e = ok a

pub Result-cases {ℓ} :
    {A : Type ℓ} (r : Result A) → ((e : UsersError) × (r ≡ err e)) ⊎ ((a : A) × (r ≡ ok a))
Result-cases (ok a) = inr (a, refl)
Result-cases (err e) = inl (e, refl)

abbrev pub named : Text → UserRecord → Bool
named username u = text_eq u.username username

-- `Partial<UserPatch>`: an email is left alone, cleared or set.
pub data EmailPatch : Type 0 where
  keep_email clear_email : EmailPatch
  set_to : Text → EmailPatch

-- `setEmail` clears the email for null.
abbrev pub email_patch : Option Text → EmailPatch
email_patch none = clear_email
email_patch (some s) = set_to s

pub record UserPatch : Type 0 where
  pub domains : Option Domains
  pub global_admin : Option Bool
  pub email : EmailPatch

-- `patch.x !== undefined ? patch.x : u.x`
abbrev patched {ℓ} : {A : Type ℓ} → Option A → A → A
patched none a = a
patched (some b) a = b

-- The in-place changes of `updateUser`, the email already checked.
unfoldable pub patch_user : Option Text → UserPatch → UserRecord → UserRecord
patch_user email patch u = record u {
  email = email;
  domains = patched patch.domains u.domains;
  global_admin = patched patch.global_admin u.global_admin;
}

-- The user that `findIndex` finds, and the file with that user changed.
unfoldable pub edit_user :
    Text → (UserRecord → UserRecord) → List UserRecord → Result (UserRecord × List UserRecord)
edit_user username f us = do
  u ← or_fail (find (named username) us) user_not_found
  ok (f u, update_first (named username) f us)

unfoldable pub revoke_user : ℕ → Text → UserStore → Result (UserRecord × UserStore)
unfolding edit_user
revoke_user now username st = do
  us ← or_fail (load_file st) unreadable
  (u, us') ← edit_user username (λ u. record u { enabled = false }) us
  guard (not (would_leave_zero_admins us')) zero_admin
  ok (record u { key = codes "***revoked***" }, atomic_write now us' st)

unfoldable pub rotate_api_key : ℕ → Text → Text → UserStore → Result (Text × UserStore)
unfolding edit_user
rotate_api_key now new_key username st = do
  us ← or_fail (load_file st) unreadable
  (u, us') ← edit_user username (λ u. record u { key = new_key }) us
  ok (new_key, atomic_write now us' st)

module _ (argon2id : Text → Text → Text) where
  unfoldable pub set_password : ℕ → Text → Text → Text → UserStore → Result UserStore
  unfolding edit_user
  set_password now salt username password st = do
    us ← or_fail (load_file st) unreadable
    found ← or_fail (find (named username) us) user_not_found
    hash ← or_fail (hash_password argon2id salt password) weak_password
    (u, us') ← edit_user username (λ u. record u { password_hash = some hash }) us
    ok (atomic_write now us' st)

-- `!user || user.enabled === false || !user.password_hash` turns the attempt down.
unfoldable pub may_log_in : (Text → Text → Option Bool) → Text → UserRecord → Bool
may_log_in argon2_verify password u = elim u.password_hash [
  | none ↦ false
  | some hash ↦
      if not u.enabled || is_empty hash then false else verify_hash argon2_verify hash password
]

unfoldable pub verify_password :
    (Text → Text → Option Bool) → Text → Text → UserStore → Result (Option UserRecord × UserStore)
verify_password argon2_verify username password st = do
  let st' = reload_if_changed st
  us ← or_fail (load_file st') unreadable
  ok (
    elim (find (named username) us) [
      | none ↦ none
      | some u ↦ if may_log_in argon2_verify password u then some u else none
    ],
    st',
  )

module _ (to_lower : Text → Text) where
  unfoldable pub patch_email : EmailPatch → Option Text → Result (Option Text)
  patch_email keep_email email = ok email
  patch_email clear_email email = ok none
  patch_email (set_to s) email = do guard (is_valid_email s) invalid_email; ok (some (to_lower s))

  -- The record that `createUser` makes.
  unfoldable pub new_user : ℕ → Text → Text → Domains → Bool → Option Text → UserRecord
  new_user now key username domains global_admin email = record {
    username = username;
    key = key;
    email = Option.map to_lower email;
    password_hash = none;
    global_admin = global_admin;
    domains = domains;
    created_at = now;
    enabled = true;
  }

  unfoldable pub create_user :
      ℕ → Text → Text → Domains → Bool → Option Text → UserStore → Result (UserRecord × UserStore)
  create_user now key username domains global_admin email st = do
    guard (elim email [ none ↦ true | some e ↦ is_valid_email e ]) invalid_email
    let user = new_user now key username domains global_admin email
    us ← or_fail (load_file st) unreadable
    guard (not (any (named username) us)) username_taken
    ok (user, atomic_write now (us ++ (user ∷ [])) st)

  unfoldable pub update_user : ℕ → Text → UserPatch → UserStore → Result (UserRecord × UserStore)
  unfolding edit_user
  update_user now username patch st = do
    us ← or_fail (load_file st) unreadable
    old ← or_fail (find (named username) us) user_not_found
    email ← patch_email patch.email old.email
    (u, us') ← edit_user username (patch_user email patch) us
    guard (not (would_leave_zero_admins us')) zero_admin
    ok (masked u, atomic_write now us' st)

  unfoldable pub set_email : ℕ → Text → Option Text → UserStore → Result (UserRecord × UserStore)
  unfolding edit_user
  set_email now username email st = do
    us ← or_fail (load_file st) unreadable
    old ← or_fail (find (named username) us) user_not_found
    stored ← patch_email (email_patch email) old.email
    (u, us') ← edit_user username (λ u. record u { email = stored }) us
    ok (masked u, atomic_write now us' st)
