-- ===== src/Users/Access/Known.antt =====
-- Which accounts of users.json a name or a key stands for.
use ob2_turbo_quant.Common.{
  ◌≡◌, refl, Bool, true, false, some, List, [], ◌∷◌, arith, Text, text_key, text_eq, text_eq_iff,
  any, find, find_sound, find-IsIn, find-All, IsIn, All, Bool-cases, Option-cases, inl, inr, ap,
  ◌∙◌, sym, if◌then◌else◌,
}
use ob2_turbo_quant.Common.JsMap
use ob2_turbo_quant.Common.JsMap.{JsMap}
use ob2_turbo_quant.Users.{UserRecord, AuthContext, Config, admin_name, is_real_admin}
use ob2_turbo_quant.Users.Store.{UserStore, load_map, reload_if_changed, has_real_global_admin}
use ob2_turbo_quant.Users.Store.Reload.{KeysDistinct, holds_key, get-load_map}
use ob2_turbo_quant.Users.Access.{
  context_of, bootstrap_context, bootstrap, resolve_auth, resolve_auth_by_username,
}
use ob2_turbo_quant.Users.Access.Bootstrap.{has_real-reload, any-load_map}

-- The context is that of an enabled user of the file with this name; or it is that of `_admin`, whose
-- name it is, and the file has no enabled global administrator.
pub data IsKnown (us : List UserRecord) (username : Text) : AuthContext → Type 0 where
  as_user :
      {a : AuthContext} (u : UserRecord)
      → IsIn u us
      → u.enabled ≡ true
      → u.username ≡ username
      → a ≡ context_of u
      → IsKnown us username a
  as_bootstrap :
      {a : AuthContext}
      → username ≡ admin_name
      → any is_real_admin us ≡ false
      → a ≡ bootstrap_context
      → IsKnown us username a

-- The same for a key, which is the user's own or, for `_admin`, the brain key.
pub data IsHeld (us : List UserRecord) (brain_key key : Text) : AuthContext → Type 0 where
  by_user :
      {a : AuthContext} (u : UserRecord)
      → IsIn u us
      → u.enabled ≡ true
      → u.key ≡ key
      → a ≡ context_of u
      → IsHeld us brain_key key a
  by_bootstrap :
      {a : AuthContext}
      → key ≡ brain_key
      → any is_real_admin us ≡ false
      → a ≡ bootstrap_context
      → IsHeld us brain_key key a

-- After a look at the file, the server has loaded these records.
abbrev pub HasLoaded : List UserRecord → UserStore → Type 0
HasLoaded us st = (reload_if_changed st).users ≡ load_map us []

abbrev AreEnabled : List UserRecord → UserRecord → Type 0
AreEnabled us u = IsIn u us × (u.enabled ≡ true)

set-All :
    (P : UserRecord → Type 0) (k : Text) (u : UserRecord) (m : JsMap Text UserRecord)
    → P u
    → All P (JsMap.values m)
    → All P (JsMap.values (JsMap.set k u m))
unfolding JsMap.set
set-All P k u [] own h = (own, tt)
set-All P k u ((j, v) ∷ m) own (here, h) = elim (Bool-cases (text_eq j k)) [
  | inl same ↦ rw same (own, h)
  | inr other ↦ rw other (here, set-All P k u m own h)
]

if-All :
    (P : UserRecord → Type 0) (b : Bool) (us : List UserRecord) (m n : JsMap Text UserRecord)
    → (b ≡ true → All P (JsMap.values (load_map us m)))
    → All P (JsMap.values (load_map us n))
    → All P (JsMap.values (load_map us (if b then m else n)))
if-All P true us m n h k = h refl
if-All P false us m n h k = k

load_map-All :
    (P : UserRecord → Type 0) (us : List UserRecord) (m : JsMap Text UserRecord)
    → ((u : UserRecord) → IsIn u us → u.enabled ≡ true → P u)
    → All P (JsMap.values m)
    → All P (JsMap.values (load_map us m))
unfolding load_map
load_map-All P [] m own h = h
load_map-All P (u ∷ us) m own h =
    if-All P u.enabled us (JsMap.set u.key u m) m
      (λ on.
        load_map-All P us (JsMap.set u.key u m) (λ v there. own v (inr there))
          (set-All P u.key u m (own u (inl refl) on) h))
      (load_map-All P us m (λ v there. own v (inr there)) h)

-- The single-key mode is open only while the file names no enabled global administrator.
bootstrap_sound :
    (us : List UserRecord) (st : UserStore) (a : AuthContext)
    → KeysDistinct us
    → HasLoaded us st
    → (bootstrap (reload_if_changed st)).0 ≡ some a
    → (any is_real_admin us ≡ false) × (a ≡ bootstrap_context)
unfolding bootstrap
bootstrap_sound us st a d loaded h =
    let seen : (has_real_global_admin (reload_if_changed st)).0
        ≡ any is_real_admin (JsMap.values (load_map us [])) =
      has_real-reload st
      ∙ (unfold has_real_global_admin in ap (λ m. any is_real_admin (JsMap.values m)) loaded) in
    elim (Bool-cases (any is_real_admin us)) [
      | inl there ↦ absurd (ground (arith, any-load_map us d there, seen))
      | inr none_there ↦ (none_there, ground arith)
    ]

pub resolve-IsKnown :
    (us : List UserRecord) (username : Text) (st : UserStore) (a : AuthContext)
    → KeysDistinct us
    → HasLoaded us st
    → (resolve_auth_by_username username st).0 ≡ some a
    → IsKnown us username a
unfolding resolve_auth_by_username
resolve-IsKnown us username st a d loaded h = elim (Bool-cases (text_eq username admin_name)) [
  | inl bootstrapping ↦
      let opened : (bootstrap (reload_if_changed st)).0 ≡ some a = rw bootstrapping at h in
      let (none_there, same) = bootstrap_sound us st a d loaded opened in
      as_bootstrap ((text_eq_iff username admin_name).0 bootstrapping) none_there same
  | inr named_user ↦
      let users = JsMap.values (reload_if_changed st).users in
      elim (Option-cases (find (λ u. text_eq u.username username) users)) [
        | inl missing ↦ absurd (ground arith)
        | inr (u, found) ↦
            let all : All (AreEnabled us) users =
              rw loaded (load_map-All (AreEnabled us) us [] (λ v there on. (there, on)) tt) in
            let (there, on) =
              find-All (AreEnabled us) (λ u. text_eq u.username username) users u all found in
            as_user u there on
              ((text_eq_iff u.username username).0
                (find_sound (λ u. text_eq u.username username) users u found))
              (ground arith)
      ]
]

pub resolve-IsHeld :
    (us : List UserRecord) (key : Text) (config : Config) (st : UserStore) (a : AuthContext)
    → KeysDistinct us
    → HasLoaded us st
    → (resolve_auth key config st).0 ≡ some a
    → IsHeld us config.brain_key key a
unfolding resolve_auth
resolve-IsHeld us key config st a d loaded h =
    let read : JsMap.get key (reload_if_changed st).users ≡ find (holds_key key) us =
      rw loaded (get-load_map key us d) in
    elim (Option-cases (JsMap.get key (reload_if_changed st).users)) [
      | inl unknown ↦ elim (Bool-cases (text_eq key config.brain_key)) [
        | inl brain ↦
            let (none_there, same) = bootstrap_sound us st a d loaded (ground arith) in
            by_bootstrap ((text_eq_iff key config.brain_key).0 brain) none_there same
        | inr other ↦ absurd (ground arith)
      ]
      | inr (u, found) ↦
          let own = sym read ∙ found in
          let holds = find_sound (holds_key key) us u own in
          by_user u (find-IsIn (holds_key key) us u own) (ground arith)
            ((text_eq_iff u.key key).0 (ground arith)) (ground arith)
    ]
