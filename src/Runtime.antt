-- ===== src/Runtime.antt =====
-- server/runtime_config.ts: the settings that are read from a YAML file and from the environment. The
-- file holds what `yaml.load` makes of it, or nothing where that throws.
pub mod Values
pub mod Settings
pub mod Validation
pub mod Overlay
pub mod Precedence
use ob2_turbo_quant.Common.{
  ℕ, zero, suc, Bool, true, false, not, ◌&&◌, ◌||◌, ◌==◌, leb, Option, none, some, List, [], ◌∷◌,
  if◌then◌else◌, Text, text_eq, codes, is_empty, option_or,
}
use ob2_turbo_quant.Runtime.Values.{
  Number, integer, decimal, not_a_number, infinity, minus_infinity, Value, null, bool, num, str,
  obj, arr, Fields, nothing, entry, get, put, deep_merge, is_truthy,
}
use ob2_turbo_quant.Runtime.Settings.{env_keys, defaults}

pub record Disk : Type 0 where
  pub mtime : ℕ
  pub content : Option Value

pub record Runtime : Type 0 where
  pub disk : Option Disk
  pub file_config : Fields
  pub last_mtime : ℕ
  pub cached : Fields

-- What the settings take of the rest of the server: the environment, `Number(v)`, and the time of the
-- file that is written where none is there, or `none` where that fails.
pub record Environment : Type 0 where
  pub variable : Text → Option Text
  pub number_of : Text → Number
  pub seeded : Option ℕ

-- The value of a variable, kept of the type of the value that it replaces.
unfoldable pub coerce : (Text → Number) → Option Value → Text → Value
coerce number_of (some (bool b)) v = bool (text_eq v (codes "true") || text_eq v (codes "1"))
coerce number_of (some (num n)) v = elim (number_of v) [
  | not_a_number ↦ num n
  | integer sign digits ↦ num (integer sign digits)
  | decimal sign digits scale ↦ num (decimal sign digits scale)
  | infinity ↦ num infinity
  | minus_infinity ↦ num minus_infinity
]
coerce number_of none v = str v
coerce number_of (some null) v = str v
coerce number_of (some (str t)) v = str v
coerce number_of (some (obj fs)) v = str v
coerce number_of (some (arr fs)) v = str v

-- What goes on unless something threw.
abbrev pub and_then : Option Fields → (Fields → Option Fields) → Option Fields
and_then none f = none
and_then (some cfg) f = f cfg

module _ (e : Environment) where
  -- `parent[leaf] = …` within the section; assigning to a primitive that is no `false` throws.
  unfoldable pub set_leaf : Text → Text → Text → Fields → Option Value → Option Fields
  set_leaf section leaf v cfg none = some cfg
  set_leaf section leaf v cfg (some (obj fs)) =
      some (put section (obj (put leaf (coerce e.number_of (get leaf fs) v) fs)) cfg)
  set_leaf section leaf v cfg (some (arr fs)) =
      some (put section (arr (put leaf (coerce e.number_of (get leaf fs) v) fs)) cfg)
  set_leaf section leaf v cfg (some null) = some cfg
  set_leaf section leaf v cfg (some (bool b)) = if is_truthy (bool b) then none else some cfg
  set_leaf section leaf v cfg (some (num n)) = if is_truthy (num n) then none else some cfg
  set_leaf section leaf v cfg (some (str t)) = if is_truthy (str t) then none else some cfg

  -- The text of a variable that is set; an empty one counts as unset.
  abbrev pub override_of : Text → Text
  override_of name = option_or (e.variable name) []

  unfoldable pub apply_key : Text × Text × Text → Fields → Option Fields
  apply_key (section, leaf, name) cfg =
      if is_empty (override_of name)
      then some cfg
      else set_leaf section leaf (override_of name) cfg (get section cfg)

  -- `_applyEnvOverrides`, with `none` where it throws.
  unfoldable pub apply_env : List (Text × Text × Text) → Fields → Option Fields
  apply_env [] cfg = some cfg
  apply_env (k ∷ ks) cfg = and_then (apply_key k cfg) (apply_env ks)

  -- `.replace(/\/+$/, "")`
  unfoldable pub strip_slashes : Text → Text
  strip_slashes [] = []
  strip_slashes (c ∷ s) =
      let rest = strip_slashes s in
      if is_empty rest then (if c == 47 then [] else c ∷ []) else c ∷ rest

  abbrev pub strip_in : Fields → Option Value → Option Fields
  strip_in mail (some (str t)) = some (put (codes "public_url") (str (strip_slashes t)) mail)
  strip_in mail _ = none

  abbrev pub put_mail : Fields → (Fields → Value) → Option Fields → Option Fields
  put_mail cfg shape none = none
  put_mail cfg shape (some stripped) = some (put (codes "mail") (shape stripped) cfg)

  abbrev pub normalize_mail : Fields → Option Value → Option Fields
  normalize_mail cfg (some (obj mail)) =
      put_mail cfg (λ m. obj m) (strip_in mail (get (codes "public_url") mail))
  normalize_mail cfg (some (arr mail)) =
      put_mail cfg (λ m. arr m) (strip_in mail (get (codes "public_url") mail))
  normalize_mail cfg (some null) = none
  normalize_mail cfg (some (bool b)) = none
  normalize_mail cfg (some (num n)) = none
  normalize_mail cfg (some (str t)) = none
  normalize_mail cfg none = none

  unfoldable pub normalize : Fields → Option Fields
  normalize cfg = normalize_mail cfg (get (codes "mail") cfg)

  -- `_merge`: the defaults, under the file, under the environment.
  unfoldable pub merge : Fields → Option Fields
  merge file = and_then (apply_env env_keys (deep_merge defaults file)) normalize

  -- A file whose settings cannot be merged is remembered as the file's, and the old settings stay.
  abbrev pub remember : Fields → Option Fields → Runtime → Runtime
  remember file none st = record st { file_config = file }
  remember file (some cfg) st = record st { file_config = file; cached = cfg }

  unfoldable pub take_file : Fields → Runtime → Runtime
  take_file file st = remember file (merge file) st

  unfoldable pub take_content : Option Value → Runtime → Runtime
  take_content (some (obj fs)) st = take_file fs st
  take_content (some (arr fs)) st = take_file fs st
  take_content _ st = st

  -- `_reloadIfChanged`
  unfoldable pub reload : Runtime → Runtime
  reload st = elim st.disk [
    | none ↦ elim e.seeded [
      | none ↦ st
      | some mtime ↦ record st {
        disk = some (record { mtime = mtime; content = some (obj defaults) });
        last_mtime = 0;
      }
    ]
    | some d ↦
        if leb d.mtime st.last_mtime
        then st
        else take_content d.content (record st { last_mtime = d.mtime })
  ]

  unfoldable pub get_runtime : Runtime → Fields × Runtime
  get_runtime st = let st' = reload st in (st'.cached, st')

  unfoldable pub get_file_config : Runtime → Fields × Runtime
  get_file_config st = let st' = reload st in (st'.file_config, st')

  -- `getEnvOverrides`: the leaves that the environment sets.
  unfoldable pub env_overrides : List (Text × Text × Text) → List (Text × Text × Text)
  env_overrides [] = []
  env_overrides ((section, leaf, name) ∷ ks) =
      let rest = env_overrides ks in
      if is_empty (override_of name) then rest else (section, leaf, override_of name) ∷ rest

  -- `writeRuntime` at `mtime`.
  unfoldable pub write_runtime : ℕ → Fields → Runtime → Runtime
  write_runtime mtime candidate st = reload (record st {
    disk = some (record { mtime = mtime; content = some (obj candidate) });
    last_mtime = 0;
  })
