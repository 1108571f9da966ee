-- ===== src/Users/Store/Reload.antt =====
-- The map of users is the file's, once it has been read.
use ob2_turbo_quant.Common.{
  ℕ, ◌<◌, ◌≡◌, refl, ◌≢◌, Bool, true, ◌&&◌, Option, none, some, List, [], ◌∷◌, arith, Text,
  text_key, text_eq, text_eq_iff, any, find, All, Bool-cases, Option-cases, inl, inr, find-All, ◌∙◌,
}
use ob2_turbo_quant.Common.JsMap
use ob2_turbo_quant.Common.JsMap.{JsMap, get-set}
use ob2_turbo_quant.Users.{UserRecord}
use ob2_turbo_quant.Users.Store.{UserStore, load_map, reload_if_changed, load_file, atomic_write}

-- A second look at the file in a row changes nothing.
pub reload_idem : (st : UserStore) → reload_if_changed (reload_if_changed st) ≡ reload_if_changed st
unfolding reload_if_changed
reload_idem st = ground arith

pub load_file-write :
    (now : ℕ) (us : List UserRecord) (st : UserStore) → load_file (atomic_write now us st) ≡ some us
unfolding load_file atomic_write
load_file-write now us st = ground arith

pub users-write :
    (now : ℕ) (us : List UserRecord) (st : UserStore)
    → 0 < now
    → (reload_if_changed (atomic_write now us st)).users ≡ load_map us []
unfolding atomic_write
users-write now us st h = ground arith

-- No two users of the file share a key.
abbrev pub KeysDistinct : List UserRecord → Type 0
KeysDistinct [] = Unit
KeysDistinct (u ∷ us) = All (λ v. v.key ≢ u.key) us × KeysDistinct us

abbrev pub holds_key : Text → UserRecord → Bool
holds_key k u = u.enabled && text_eq u.key k

abbrev pub or_else : Option UserRecord → Option UserRecord → Option UserRecord
or_else none o = o
or_else (some u) o = some u

pub find-key_fresh :
    (j k : Text) (us : List UserRecord)
    → All (λ v. v.key ≢ j) us
    → text_eq j k ≡ true
    → find (holds_key k) us ≡ none
unfolding find
find-key_fresh j k [] h e = refl
find-key_fresh j k (u ∷ us) (ne, h) e =
    ground (arith, find-key_fresh j k us h e, text_eq_iff u.key k, text_eq_iff j k)

get-load_map_from :
    (k : Text) (us : List UserRecord) (m : JsMap Text UserRecord)
    → KeysDistinct us
    → JsMap.get k (load_map us m) ≡ or_else (find (holds_key k) us) (JsMap.get k m)
unfolding load_map find
get-load_map_from k [] m d = refl
get-load_map_from k (u ∷ us) m (fresh, d) = ground (
  arith,
  get-load_map_from k us (JsMap.set u.key u m) d,
  get-load_map_from k us m d,
  get-set u.key k u m,
  find-key_fresh u.key k us fresh,
)

-- Where no two users of the file share a key, a key opens the enabled user who holds it, and no
-- other.
pub get-load_map :
    (k : Text) (us : List UserRecord)
    → KeysDistinct us
    → JsMap.get k (load_map us []) ≡ find (holds_key k) us
unfolding JsMap.get
get-load_map k us d =
    get-load_map_from k us [] d ∙ ground (arith, Option-cases (find (holds_key k) us))

pub any-find :
    (p : UserRecord → Bool) (us : List UserRecord)
    → any p us ≡ true
    → (u : UserRecord) × (find p us ≡ some u) × (p u ≡ true)
unfolding any find
any-find p [] h = cc
any-find p (u ∷ us) h = elim (Bool-cases (p u)) [
  | inl passes ↦ (u, rw passes, passes)
  | inr fails ↦ let (v, found, e) = any-find p us (ground arith) in (v, rw fails found, e)
]

pub find-own_key :
    (p : UserRecord → Bool) (us : List UserRecord) (u : UserRecord)
    → KeysDistinct us
    → find p us ≡ some u
    → u.enabled ≡ true
    → find (holds_key u.key) us ≡ some u
unfolding find
find-own_key p [] u d h on = cc
find-own_key p (v ∷ us) u (fresh, d) h on = elim (Bool-cases (p v)) [
  | inl passes ↦ ground (arith, text_eq_iff v.key u.key)
  | inr fails ↦
      let found : find p us ≡ some u = ground arith in
      let other = find-All (λ w. w.key ≢ v.key) p us u fresh found in
      ground (arith, text_eq_iff v.key u.key, find-own_key p us u d found on)
]

pub any-values :
    (p : UserRecord → Bool) (k : Text) (m : JsMap Text UserRecord) (u : UserRecord)
    → JsMap.get k m ≡ some u
    → p u ≡ true
    → any p (JsMap.values m) ≡ true
unfolding any JsMap.get
any-values p k [] u h e = cc
any-values p k ((j, v) ∷ m) u h e = ground (arith, any-values p k m u)
