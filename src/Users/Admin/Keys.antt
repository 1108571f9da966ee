-- ===== src/Users/Admin/Keys.antt =====
-- Which API keys open an account after a rotation or a revocation.
use ob2_turbo_quant.Common.{
  ℕ, ◌<◌, ◌≡◌, ◌≢◌, refl, Bool, true, false, none, some, List, [], ◌∷◌, arith, Text, text_key,
  text_eq_iff, find, update_first, Bool-cases, some_inj, subst, inl, inr, ap, ◌∙◌, sym, All,
  find-All, find_sound,
}
use ob2_turbo_quant.Common.JsMap
use ob2_turbo_quant.Users.{UserRecord, Config}
use ob2_turbo_quant.Users.Store.{UserStore, reload_if_changed, load_file, atomic_write}
use ob2_turbo_quant.Users.Store.Reload.{
  KeysDistinct, holds_key, users-write, get-load_map, find-own_key, find-key_fresh,
}
use ob2_turbo_quant.Users.Access.{context_of, resolve_auth}
use ob2_turbo_quant.Users.Admin.{ok, named, revoke_user, rotate_api_key}
use ob2_turbo_quant.Users.Admin.Writes.{stored_by, Writes, revoke-Writes, rotate-Writes}

pub find-update_first :
    (username : Text) (f : UserRecord → UserRecord) (us : List UserRecord) (u : UserRecord)
    → find (named username) us ≡ some u
    → named username (f u) ≡ true
    → find (named username) (update_first (named username) f us) ≡ some (f u)
unfolding find update_first
find-update_first username f [] u h k = cc
find-update_first username f (v ∷ us) u h k = elim (Bool-cases (named username v)) [
  | inl hit ↦
      let e : v ≡ u = ground arith in
      rw hit (subst (λ w. find (named username) (f w ∷ us) ≡ some (f u)) (sym e) (rw k))
  | inr miss ↦ ground (arith, find-update_first username f us u)
]

-- A key whose holder has been changed so that it holds the key no more opens nothing.
find-retired :
    (username : Text) (f : UserRecord → UserRecord) (us : List UserRecord) (u : UserRecord)
    → KeysDistinct us
    → find (named username) us ≡ some u
    → holds_key u.key (f u) ≡ false
    → find (holds_key u.key) (update_first (named username) f us) ≡ none
unfolding find update_first
find-retired username f [] u d h k = cc
find-retired username f (v ∷ us) u (fresh, d) h k = elim (Bool-cases (named username v)) [
  | inl hit ↦
      let e : v ≡ u = ground arith in
      let fresh' : All (λ w. w.key ≢ u.key) us = subst (λ x. All (λ w. w.key ≢ x.key) us) e fresh in
      let gone = find-key_fresh u.key u.key us fresh' ((text_eq_iff u.key u.key).1 refl) in
      rw hit (subst (λ w. find (holds_key u.key) (f w ∷ us) ≡ none) (sym e) (rw k gone))
  | inr miss ↦
      let found : find (named username) us ≡ some u = ground arith in
      let other = find-All (λ w. w.key ≢ v.key) (named username) us u fresh found in
      ground (arith, text_eq_iff v.key u.key, find-retired username f us u d found k)
]

All-update_first {κ} :
    (P : UserRecord → Type κ) (p : UserRecord → Bool) (f : UserRecord → UserRecord)
    (us : List UserRecord)
    → ((u : UserRecord) → P u → P (f u))
    → All P us
    → All P (update_first p f us)
unfolding update_first
All-update_first P p f [] keep h = tt
All-update_first P p f (u ∷ us) keep (here, later) = elim (Bool-cases (p u)) [
  | inl hit ↦ rw hit (keep u here, later)
  | inr miss ↦ rw miss (here, All-update_first P p f us keep later)
]

KeysDistinct-revoke :
    (username : Text) (us : List UserRecord)
    → KeysDistinct us
    → KeysDistinct (update_first (named username) (λ u. record u { enabled = false }) us)
unfolding update_first
KeysDistinct-revoke username [] d = tt
KeysDistinct-revoke username (u ∷ us) (fresh, d) = elim (Bool-cases (named username u)) [
  | inl hit ↦ rw hit (fresh, d)
  | inr miss ↦ rw miss (
    All-update_first (λ v. v.key ≢ u.key) (named username) (λ u. record u { enabled = false }) us
        (λ v h. h) fresh,
    KeysDistinct-revoke username us d,
  )
]

KeysDistinct-rotate :
    (username new_key : Text) (us : List UserRecord)
    → All (λ v. v.key ≢ new_key) us
    → KeysDistinct us
    → KeysDistinct (update_first (named username) (λ u. record u { key = new_key }) us)
unfolding update_first
KeysDistinct-rotate username new_key [] new d = tt
KeysDistinct-rotate username new_key (u ∷ us) (ne, new) (fresh, d) =
    elim (Bool-cases (named username u)) [
      | inl hit ↦ rw hit (new, d)
      | inr miss ↦ rw miss (
        All-update_first (λ v. v.key ≢ u.key) (named username) (λ u. record u { key = new_key }) us
            (λ v h e. ne (sym e)) fresh,
        KeysDistinct-rotate username new_key us new d,
      )
    ]

resolve_found :
    (key : Text) (config : Config) (st : UserStore) (u : UserRecord)
    → JsMap.get key (reload_if_changed st).users ≡ some u
    → (resolve_auth key config st).0 ≡ some (context_of u)
unfolding resolve_auth
resolve_found key config st u h = rw (h, resolve_auth)

resolve_missing :
    (key : Text) (config : Config) (st : UserStore)
    → JsMap.get key (reload_if_changed st).users ≡ none
    → key ≢ config.brain_key
    → (resolve_auth key config st).0 ≡ none
unfolding resolve_auth
resolve_missing key config st h ne =
    rw (h, resolve_auth) (ground (arith, text_eq_iff key config.brain_key))

get-write :
    (key : Text) (now : ℕ) (us : List UserRecord) (st : UserStore)
    → 0 < now
    → KeysDistinct us
    → JsMap.get key (reload_if_changed (atomic_write now us st)).users ≡ find (holds_key key) us
get-write key now us st h d = ap (JsMap.get key) (users-write now us st h) ∙ get-load_map key us d

pub written_as :
    (now : ℕ) (g : List UserRecord → List UserRecord) (us : List UserRecord) (st st' : UserStore)
    → load_file st ≡ some us
    → Writes now st st' (λ vs vs'. vs' ≡ g vs)
    → st' ≡ atomic_write now (g us) st
written_as now g us st st' at (vs, vs', at', w, p) =
    let same : vs ≡ us = some_inj vs us (sym at' ∙ at) in
    w ∙ ap (λ xs. atomic_write now xs st) (p ∙ ap g same)

-- After a rotation that succeeds, the new key opens the enabled user's account and the old one
-- opens none, if the keys of the file are distinct, the new key is none of them, and the old key is
-- not the brain key.
pub rotate-resolve :
    (now : ℕ) (new_key username : Text) (config : Config) (us : List UserRecord) (u : UserRecord)
    (st st' : UserStore)
    → 0 < now
    → load_file st ≡ some us
    → find (named username) us ≡ some u
    → u.enabled ≡ true
    → KeysDistinct us
    → All (λ v. v.key ≢ new_key) us
    → u.key ≢ config.brain_key
    → rotate_api_key now new_key username st ≡ ok (new_key, st')
    → ((resolve_auth new_key config st').0 ≡ some (context_of u))
      × ((resolve_auth u.key config st').0 ≡ none)
rotate-resolve now new_key username config us u st st' pos at found on d new ne h =
    let f : UserRecord → UserRecord = λ u. record u { key = new_key } in
    let us' = update_first (named username) f us in
    let written =
      written_as now (update_first (named username) f) us st st' at
        (rotate-Writes now new_key username st st' (ap stored_by h)) in
    let d' = KeysDistinct-rotate username new_key us new d in
    let is_named = find_sound (named username) us u found in
    let renamed = find-update_first username f us u found is_named in
    let opens = find-own_key (named username) us' (f u) d' renamed on in
    let differs : holds_key u.key (f u) ≡ false = ground (
      arith,
      text_eq_iff new_key u.key,
      find-All (λ v. v.key ≢ new_key) (named username) us u new found,
    ) in
    let shut = find-retired username f us u d found differs in
    rw written (
      resolve_found new_key config _ (f u) (get-write new_key now us' st pos d' ∙ opens),
      resolve_missing u.key config _ (get-write u.key now us' st pos d' ∙ shut) ne,
    )

-- After a revocation that succeeds, the user's key opens no account, if the keys of the file are
-- distinct and the key is not the brain key.
pub revoke-resolve :
    (now : ℕ) (username : Text) (config : Config) (us : List UserRecord) (u r : UserRecord)
    (st st' : UserStore)
    → 0 < now
    → load_file st ≡ some us
    → find (named username) us ≡ some u
    → KeysDistinct us
    → u.key ≢ config.brain_key
    → revoke_user now username st ≡ ok (r, st')
    → (resolve_auth u.key config st').0 ≡ none
revoke-resolve now username config us u r st st' pos at found d ne h =
    let f : UserRecord → UserRecord = λ u. record u { enabled = false } in
    let us' = update_first (named username) f us in
    let (vs, vs', at', w, p) = revoke-Writes now username st st' (ap stored_by h) in
    let written =
      written_as now (update_first (named username) f) us st st' at (vs, vs', at', w, p.0) in
    let d' = KeysDistinct-revoke username us d in
    let shut = find-retired username f us u d found refl in
    rw written (resolve_missing u.key config _ (get-write u.key now us' st pos d' ∙ shut) ne)
