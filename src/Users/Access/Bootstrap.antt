-- ===== src/Users/Access/Bootstrap.antt =====
-- The single-key mode: open until a real admin exists, and then closed everywhere.
use ob2_turbo_quant.Common.{
  ℕ, ◌<◌, ◌≡◌, refl, true, none, some, List, [], arith, if◌then◌else◌, text_key, text_eq_iff, any,
  ap, ◌∙◌,
}
use ob2_turbo_quant.Common.JsMap
use ob2_turbo_quant.Users.{UserRecord, Config, admin_name, is_real_admin}
use ob2_turbo_quant.Users.Store.{
  UserStore, load_map, reload_if_changed, atomic_write, has_real_global_admin,
}
use ob2_turbo_quant.Users.Store.Reload.{
  KeysDistinct, reload_idem, users-write, get-load_map, any-find, find-own_key, any-values,
}
use ob2_turbo_quant.Users.Access.{
  bootstrap_context, bootstrap, resolve_auth, resolve_auth_by_username,
}

pub has_real-reload :
    (st : UserStore)
    → (has_real_global_admin (reload_if_changed st)).0 ≡ (has_real_global_admin st).0
unfolding has_real_global_admin
has_real-reload st = ap (λ s. any is_real_admin (JsMap.values s.users)) (reload_idem st)

bootstrap_lem :
    (st : UserStore)
    → (bootstrap st).0 ≡ (if (has_real_global_admin st).0 then none else some bootstrap_context)
unfolding bootstrap
bootstrap_lem st = refl

-- The virtual user `_admin` is let in exactly as long as there is no real admin.
pub resolve_admin_name :
    (st : UserStore)
    → (resolve_auth_by_username admin_name st).0
      ≡ (if (has_real_global_admin st).0 then none else some bootstrap_context)
unfolding resolve_auth_by_username
resolve_admin_name st =
    rw ((text_eq_iff admin_name admin_name).1 refl, bootstrap_lem, has_real-reload) refl

-- The brain key, where it is no user's own key, is accepted exactly as long as there is no real
-- admin, and then gives the virtual user.
pub resolve_brain_key :
    (config : Config) (st : UserStore)
    → JsMap.get config.brain_key (reload_if_changed st).users ≡ none
    → (resolve_auth config.brain_key config st).0
      ≡ (if (has_real_global_admin st).0 then none else some bootstrap_context)
unfolding resolve_auth
resolve_brain_key config st h =
    rw (h, resolve_auth)
      (rw ((text_eq_iff config.brain_key config.brain_key).1 refl, bootstrap_lem, has_real-reload)
        refl)

real_admin_enabled : (u : UserRecord) → is_real_admin u ≡ true → u.enabled ≡ true
unfolding is_real_admin
real_admin_enabled u h = ground arith

pub any-load_map :
    (us : List UserRecord)
    → KeysDistinct us
    → any is_real_admin us ≡ true
    → any is_real_admin (JsMap.values (load_map us [])) ≡ true
any-load_map us d e =
    let (u, found, real) = any-find is_real_admin us e in
    let own = find-own_key is_real_admin us u d found (real_admin_enabled u real) in
    any-values is_real_admin u.key (load_map us []) u (get-load_map u.key us d ∙ own) real

-- An admin of the file that was written, at a time other than 0, is seen at once, if no two users
-- share a key.
pub has_real-write :
    (now : ℕ) (us : List UserRecord) (st : UserStore)
    → 0 < now
    → KeysDistinct us
    → any is_real_admin us ≡ true
    → (has_real_global_admin (atomic_write now us st)).0 ≡ true
unfolding has_real_global_admin
has_real-write now us st h d e = rw (users-write now us st h) (any-load_map us d e)
