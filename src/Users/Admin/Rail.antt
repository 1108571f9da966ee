-- ===== src/Users/Admin/Rail.antt =====
-- Once there is a real admin in users.json, no operation takes the last one away.
use ob2_turbo_quant.Common.{
  ℕ, ◌≡◌, Bool, true, false, Option, some, List, [], ◌∷◌, ◌++◌, arith, Text, any, update_first,
  some_inj, subst, inl, inr, ◌∙◌, sym,
}
use ob2_turbo_quant.Users.{Domains, UserRecord, is_real_admin}
use ob2_turbo_quant.Users.Store.{UserStore, load_file, would_leave_zero_admins}
use ob2_turbo_quant.Users.Store.Reload.{load_file-write}
use ob2_turbo_quant.Users.Admin.Writes.{
  stored_by, Writes, create-Writes, update-Writes, revoke-Writes, rotate-Writes,
  set_password-Writes, set_email-Writes,
}
use ob2_turbo_quant.Users.Admin.{
  Result, ok, err, named, UserPatch, revoke_user, rotate_api_key, set_password, create_user,
  update_user, set_email, Result-cases,
}

-- The writes of server/users.ts, with what each draws or is given.
pub data Write : Type 0 where
  creates : Text → Text → Domains → Bool → Option Text → Write
  updates : Text → UserPatch → Write
  revokes : Text → Write
  rotates : Text → Text → Write
  sets_password : Text → Text → Text → Write
  sets_email : Text → Option Text → Write

module _ (argon2id : Text → Text → Text) (to_lower : Text → Text) where
  unfoldable pub perform : ℕ → Write → UserStore → Result UserStore
  perform now (creates key username domains global_admin email) st =
      stored_by (create_user to_lower now key username domains global_admin email st)
  perform now (updates username patch) st = stored_by (update_user to_lower now username patch st)
  perform now (revokes username) st = stored_by (revoke_user now username st)
  perform now (rotates new_key username) st = stored_by (rotate_api_key now new_key username st)
  perform now (sets_password salt username password) st =
      set_password argon2id now salt username password st
  perform now (sets_email username email) st = stored_by (set_email to_lower now username email st)

-- The file is readable and names a real admin.
abbrev pub HasAdmin : UserStore → Type 0
HasAdmin st = (us : List UserRecord) × (load_file st ≡ some us) × (any is_real_admin us ≡ true)

any-append :
    (p : UserRecord → Bool) (us vs : List UserRecord) → any p us ≡ true → any p (us ++ vs) ≡ true
unfolding any
any-append p [] vs h = cc
any-append p (u ∷ us) vs h = ground (arith, any-append p us vs)

any-update_first :
    (p q : UserRecord → Bool) (f : UserRecord → UserRecord) (us : List UserRecord)
    → ((u : UserRecord) → p u ≡ true → p (f u) ≡ true)
    → any p us ≡ true
    → any p (update_first q f us) ≡ true
unfolding any update_first
any-update_first p q f [] keep h = cc
any-update_first p q f (u ∷ us) keep h = ground (arith, keep u, any-update_first p q f us keep)

-- A write keeps an admin, if its change to the list of users does.
HasAdmin-Writes :
    (now : ℕ) (P : List UserRecord → List UserRecord → Type 0) (st st' : UserStore)
    → Writes now st st' P
    → HasAdmin st
    → ((us us' : List UserRecord)
        → P us us'
        → any is_real_admin us ≡ true
        → any is_real_admin us' ≡ true)
    → HasAdmin st'
HasAdmin-Writes now P st st' (us, us', at, written, p) (vs, at', e) keep =
    let same : vs ≡ us = some_inj vs us (sym at' ∙ at) in
    rw written (
      us',
      load_file-write now us' st,
      keep us us' p (subst (λ ws. any is_real_admin ws ≡ true) same e),
    )

rail : (us : List UserRecord) → would_leave_zero_admins us ≡ false → any is_real_admin us ≡ true
unfolding would_leave_zero_admins
rail us h = ground arith

-- The changes that do not touch what makes an admin.
edit_keeps :
    (username : Text) (f : UserRecord → UserRecord) (us us' : List UserRecord)
    → us' ≡ update_first (named username) f us
    → ((u : UserRecord) → is_real_admin u ≡ true → is_real_admin (f u) ≡ true)
    → any is_real_admin us ≡ true
    → any is_real_admin us' ≡ true
edit_keeps username f us us' e same h =
    rw e (any-update_first is_real_admin (named username) f us same h)

-- A write that succeeds leaves a real admin in the file, if there was one.
pub perform-HasAdmin :
    (argon2id : Text → Text → Text) (to_lower : Text → Text) (now : ℕ) (w : Write)
    (st st' : UserStore)
    → HasAdmin st
    → perform argon2id to_lower now w st ≡ ok st'
    → HasAdmin st'
unfolding perform is_real_admin
perform-HasAdmin a l now (creates key username domains global_admin email) st st' admin h =
    HasAdmin-Writes now _ st st'
      (create-Writes l now key username domains global_admin email st st' h) admin
      (λ us us' p e. rw p.1 (any-append is_real_admin us _ e))
perform-HasAdmin a l now (updates username patch) st st' admin h =
    HasAdmin-Writes now _ st st' (update-Writes l now username patch st st' h) admin
      (λ us us' p e. rail us' p.2)
perform-HasAdmin a l now (revokes username) st st' admin h =
    HasAdmin-Writes now _ st st' (revoke-Writes now username st st' h) admin
      (λ us us' p e. rail us' p.1)
perform-HasAdmin a l now (rotates new_key username) st st' admin h =
    HasAdmin-Writes now _ st st' (rotate-Writes now new_key username st st' h) admin
      (λ us us' p e. edit_keeps username _ us us' p (λ u r. r) e)
perform-HasAdmin a l now (sets_password salt username password) st st' admin h =
    HasAdmin-Writes now _ st st' (set_password-Writes a now salt username password st st' h) admin
      (λ us us' p e. edit_keeps username _ us us' p.1 (λ u r. r) e)
perform-HasAdmin a l now (sets_email username email) st st' admin h =
    HasAdmin-Writes now _ st st' (set_email-Writes l now username email st st' h) admin
      (λ us us' p e. edit_keeps username _ us us' p.1 (λ u r. r) e)

-- A list of writes, each at its time; those that are refused leave the store as it is.
abbrev pub after : UserStore → Result UserStore → UserStore
after st (ok st') = st'
after st (err e) = st

pub perform_all : (Text → Text → Text) → (Text → Text) → List (ℕ × Write) → UserStore → UserStore
perform_all a l [] st = st
perform_all a l ((now, w) ∷ ws) st = perform_all a l ws (after st (perform a l now w st))

-- Once users.json can be read and names a real admin, it can and does after any sequence of the
-- six writes, those that fail included.
pub perform_all-HasAdmin :
    (argon2id : Text → Text → Text) (to_lower : Text → Text) (ws : List (ℕ × Write))
    (st : UserStore)
    → HasAdmin st
    → HasAdmin (perform_all argon2id to_lower ws st)
unfolding perform_all
perform_all-HasAdmin a l [] st admin = admin
perform_all-HasAdmin a l ((now, w) ∷ ws) st admin =
    perform_all-HasAdmin a l ws (after st (perform a l now w st))
      (elim (Result-cases (perform a l now w st)) [
        | inl (e, refused) ↦ rw refused admin
        | inr (st', good) ↦ rw good (perform-HasAdmin a l now w st st' admin good)
      ])
