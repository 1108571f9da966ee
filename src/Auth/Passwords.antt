-- ===== src/Auth/Passwords.antt =====
-- server/auth/passwords.ts. Argon2 is a parameter: `argon2id salt password` is the encoded hash, and
-- `argon2_verify` answers `none` where the library throws.
use ob2_turbo_quant.Common.{
  Bool, false, ◌||◌, Option, none, some, ltb, if◌then◌else◌, Text, is_empty, length, option_or,
}

pub data Weakness : Type 0 where
  required too_short too_long : Weakness

-- Each constructor is one of the three messages.
unfoldable pub validate_password_strength : Text → Option Weakness
validate_password_strength password =
    if is_empty password
    then some required
    else if ltb (length password) 8
    then some too_short
    else if ltb 256 (length password)
    then some too_long
    else none

-- `none` where the function throws.
unfoldable pub hash_password : (Text → Text → Text) → Text → Text → Option Text
hash_password argon2id salt password =
    if is_empty password || ltb (length password) 8 then none else some (argon2id salt password)

unfoldable pub verify_hash : (Text → Text → Option Bool) → Text → Text → Bool
verify_hash argon2_verify stored_hash password =
    if is_empty stored_hash || is_empty password
    then false
    else option_or (argon2_verify stored_hash password) false
