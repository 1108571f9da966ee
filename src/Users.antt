-- ===== src/Users.antt =====
-- server/users.ts: records of users, permissions and email addresses.
pub mod Store
pub mod Access
pub mod Admin
use ob2_turbo_quant.Common.{
  ℕ, Bool, true, false, not, ◌&&◌, ◌||◌, Option, none, some, List, [], ◌∷◌, ◌++◌, ◌-◌, ltb, leb,
  ◌==◌, if◌then◌else◌, Text, text_eq, codes, is_space, length, take, drop,
}

-- A level, or a text that is none of the three: the routes that create and change users cast what they
-- are given to `Permission` without a look at it.
pub data Permission : Type 0 where
  read write admin : Permission
  unchecked : Text → Permission

-- `Record<string, Permission>`, in the order of insertion.
abbrev pub Domains : Type 0
Domains = List (Text × Permission)

pub record UserRecord : Type 0 where
  pub username : Text
  pub key : Text
  pub email : Option Text
  pub password_hash : Option Text
  pub global_admin : Bool
  pub domains : Domains
  pub created_at : ℕ
  pub enabled : Bool

pub record AuthContext : Type 0 where
  pub username : Text
  pub email : Option Text
  pub global_admin : Bool
  pub domains : Domains
  pub service_only : Bool

-- The settings of server/config.ts that these functions read.
pub record Config : Type 0 where
  pub brain_key : Text
  pub openwebui_service_token : Text

abbrev pub admin_name : Text
admin_name = codes "_admin"

-- `PERM_LEVELS[p]`, which is `undefined` for a text that is no level.
abbrev pub perm_level : Permission → Option ℕ
perm_level read = some 1
perm_level write = some 2
perm_level admin = some 3
perm_level (unchecked p) = none

-- `a >= b`, which is false of `undefined`.
abbrev at_least : Option ℕ → Option ℕ → Bool
at_least (some a) (some b) = leb b a
at_least (some a) none = false
at_least none b = false

unfoldable pub granted : Text → Domains → Option Permission
granted domain [] = none
granted domain ((d, p) ∷ ds) = if text_eq d domain then some p else granted domain ds

abbrev pub reaches : Option Permission → Permission → Bool
reaches none required = false
reaches (some p) required = at_least (perm_level p) (perm_level required)

unfoldable pub has_permission : AuthContext → Text → Permission → Bool
has_permission auth domain required =
    if auth.global_admin then true else reaches (granted domain auth.domains) required

-- `\.\S+$` past the first character, in a text without white space.
dot_in : Text → Bool
dot_in [] = false
dot_in (c ∷ s) = ((c == b'.') && ltb 0 (length s)) || dot_in s

after_first : (Text → Bool) → Text → Bool
after_first p [] = false
after_first p (c ∷ s) = p s

-- `@\S+\.\S+$`
at_in : Text → Bool
at_in [] = false
at_in (c ∷ s) = ((c == b'@') && after_first dot_in s) || at_in s

no_space : Text → Bool
no_space [] = true
no_space (c ∷ s) = not (is_space c) && no_space s

-- `/^\S+@\S+\.\S+$/`
unfoldable pub matches_email : Text → Bool
unfolding dot_in after_first at_in no_space is_space
matches_email s = no_space s && after_first at_in s

unfoldable pub is_valid_email : Text → Bool
is_valid_email s = ltb 0 (length s) && leb (length s) 254 && matches_email s

-- The condition by which `hasRealGlobalAdmin` and `_wouldLeaveZeroAdmins` look for an admin.
unfoldable pub is_real_admin : UserRecord → Bool
is_real_admin u = u.enabled && u.global_admin && not (text_eq u.username admin_name)

-- `key.slice(0, 8) + "..." + key.slice(-4)`
unfoldable pub mask_key : Text → Text
mask_key key = take 8 key ++ (codes "..." ++ drop (length key - 4) key)

unfoldable pub masked : UserRecord → UserRecord
masked u = record u { key = mask_key u.key }
