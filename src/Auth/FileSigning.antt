-- ===== src/Auth/FileSigning.antt =====
-- server/auth/file_signing.ts after `initFileSigning`. `sign` is the HMAC under the process's key,
-- in base64url, `decimal` the text of a number, and `now_sec` the time of the call in seconds.
pub mod Links
use ob2_turbo_quant.Common.{
  ℕ, ◌+◌, ◌*◌, Bool, true, false, ltb, if◌then◌else◌, Text, codes, ◌++◌, [], ◌∷◌,
}
use ob2_turbo_quant.Auth.TimingSafe.{timing_safe_equal}

abbrev pub default_ttl_sec : ℕ
default_ttl_sec = 24 * 60 * 60

module _ (sign : Text → Text) (decimal : ℕ → Text) where
  -- `${domain}|${fileId}|${exp}`
  abbrev pub link_payload : Text → Text → ℕ → Text
  link_payload domain file_id exp = domain ++ (b'|' ∷ (file_id ++ (b'|' ∷ decimal exp)))

  unfoldable pub sign_file_token : ℕ → Text → Text → ℕ → Text × ℕ
  sign_file_token now_sec domain file_id ttl_sec =
      let exp = now_sec + ttl_sec in (sign (link_payload domain file_id exp), exp)

  unfoldable pub verify_file_token : ℕ → Text → Text → Text → ℕ → Bool
  verify_file_token now_sec domain file_id token exp =
      if ltb exp now_sec
      then false
      else timing_safe_equal (sign (link_payload domain file_id exp)) token
