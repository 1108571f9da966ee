-- ===== src/Users/Admin/Writes.antt =====
-- What each operation on users.json reads and writes, where it succeeds.
use ob2_turbo_quant.Common.{
  ℕ, ◌≡◌, ◌≢◌, refl, Bool, false, Option, none, some, List, [], ◌∷◌, ◌++◌, arith, Text, any, find,
  update_first, Option-cases, inl, inr,
}
use ob2_turbo_quant.Auth.Passwords.{hash_password}
use ob2_turbo_quant.Users.{Domains, UserRecord}
use ob2_turbo_quant.Users.Store.{UserStore, load_file, atomic_write, would_leave_zero_admins}
use ob2_turbo_quant.Users.Admin.{
  Result, ok, err, named, UserPatch, revoke_user, rotate_api_key, set_password, patch_email,
  create_user, update_user, set_email, new_user, patch_user, Result-cases, email_patch,
}

-- The store after a write that succeeds.
abbrev pub stored_by {ℓ} : {A : Type ℓ} → Result (A × UserStore) → Result UserStore
stored_by (ok (a, st)) = ok st
stored_by (err e) = err e

-- What an operation that succeeds has read, and what it has written.
abbrev pub Writes :
    ℕ → UserStore → UserStore → (List UserRecord → List UserRecord → Type 0) → Type 0
Writes now st st' P =
    (us : List UserRecord) × (us' : List UserRecord) × (load_file st ≡ some us)
    × (st' ≡ atomic_write now us' st)
    × P us us'

pub create-Writes :
    (to_lower : Text → Text) (now : ℕ) (key username : Text) (domains : Domains)
    (global_admin : Bool) (email : Option Text) (st st' : UserStore)
    → stored_by (create_user to_lower now key username domains global_admin email st) ≡ ok st'
    → Writes now st st' (λ us us'.
      (any (named username) us ≡ false)
      × (us' ≡ us ++ (new_user to_lower now key username domains global_admin email ∷ [])))
unfolding create_user
create-Writes to_lower now key username domains global_admin email st st' h =
    elim (Option-cases (load_file st)) [
      | inl unreadable ↦ absurd (ground arith)
      | inr (us, at) ↦ (us, _, at, ground arith, (ground arith, refl))
    ]

pub revoke-Writes :
    (now : ℕ) (username : Text) (st st' : UserStore)
    → stored_by (revoke_user now username st) ≡ ok st'
    → Writes now st st' (λ us us'.
      (us' ≡ update_first (named username) (λ u. record u { enabled = false }) us)
      × (would_leave_zero_admins us' ≡ false))
unfolding revoke_user
revoke-Writes now username st st' h = elim (Option-cases (load_file st)) [
  | inl unreadable ↦ absurd (ground arith)
  | inr (us, at) ↦ (us, _, at, ground arith, (refl, ground arith))
]

pub rotate-Writes :
    (now : ℕ) (new_key username : Text) (st st' : UserStore)
    → stored_by (rotate_api_key now new_key username st) ≡ ok st'
    → Writes now st st'
        (λ us us'. us' ≡ update_first (named username) (λ u. record u { key = new_key }) us)
unfolding rotate_api_key
rotate-Writes now new_key username st st' h = elim (Option-cases (load_file st)) [
  | inl unreadable ↦ absurd (ground arith)
  | inr (us, at) ↦ (us, _, at, ground arith, refl)
]

pub set_password-Writes :
    (argon2id : Text → Text → Text) (now : ℕ) (salt username password : Text) (st st' : UserStore)
    → set_password argon2id now salt username password st ≡ ok st'
    → Writes now st st' (λ us us'.
      (hash_password argon2id salt password ≢ none)
      × (us'
          ≡ update_first
              (named username)
              (λ u. record u { password_hash = hash_password argon2id salt password })
              us))
unfolding set_password
set_password-Writes argon2id now salt username password st st' h =
    elim (Option-cases (load_file st)) [
      | inl unreadable ↦ absurd (ground arith)
      | inr (us, at) ↦ elim (Option-cases (hash_password argon2id salt password)) [
        | inl weak ↦ absurd (ground arith)
        | inr (hash, e) ↦ (
          us,
          update_first (named username) (λ u. record u { password_hash = some hash }) us,
          at,
          ground arith,
          ((λ n. cc), rw e refl),
        )
      ]
    ]

pub update-Writes :
    (to_lower : Text → Text) (now : ℕ) (username : Text) (patch : UserPatch) (st st' : UserStore)
    → stored_by (update_user to_lower now username patch st) ≡ ok st'
    → Writes now st st' (λ us us'.
      (email : Option Text) × (us' ≡ update_first (named username) (patch_user email patch) us)
      × (would_leave_zero_admins us' ≡ false))
unfolding update_user
update-Writes to_lower now username patch st st' h = elim (Option-cases (load_file st)) [
  | inl unreadable ↦ absurd (ground arith)
  | inr (us, at) ↦ elim (Option-cases (find (named username) us)) [
    | inl missing ↦ absurd (ground arith)
    | inr (old, found) ↦ elim (Result-cases (patch_email to_lower patch.email old.email)) [
      | inl (e, refused) ↦ absurd (ground arith)
      | inr (email, good) ↦ (us, _, at, ground arith, (email, refl, ground arith))
    ]
  ]
]

pub set_email-Writes :
    (to_lower : Text → Text) (now : ℕ) (username : Text) (email : Option Text) (st st' : UserStore)
    → stored_by (set_email to_lower now username email st) ≡ ok st'
    → Writes now st st' (λ us us'.
      (stored : Option Text) × (us'
        ≡ update_first (named username) (λ u. record u { email = stored }) us))
unfolding set_email
set_email-Writes to_lower now username email st st' h = elim (Option-cases (load_file st)) [
  | inl unreadable ↦ absurd (ground arith)
  | inr (us, at) ↦ elim (Option-cases (find (named username) us)) [
    | inl missing ↦ absurd (ground arith)
    | inr (old, found) ↦ elim (Result-cases (patch_email to_lower (email_patch email) old.email)) [
      | inl (e, refused) ↦ absurd (ground arith)
      | inr (stored, good) ↦ (us, _, at, ground arith, (stored, refl))
    ]
  ]
]
