-- ===== src/Auth/FileSigning/Links.antt =====
-- Which download links are accepted.
use ob2_turbo_quant.Common.{ℕ, ◌+◌, ◌≤◌, ◌≡◌, ◌↔◌, true, Text, arith}
use ob2_turbo_quant.Auth.TimingSafe.{timing_safe_equal_iff}
use ob2_turbo_quant.Auth.FileSigning.{link_payload, sign_file_token, verify_file_token}

module _ (sign : Text → Text) (decimal : ℕ → Text) where
  -- A link is accepted exactly until the second it names, with the token that signing this domain,
  -- this file and this expiry gives.
  pub verify_file_token_iff :
      (signed_at ttl_sec now_sec : ℕ) (domain file_id token : Text)
      → let (signed, exp) = sign_file_token sign decimal signed_at domain file_id ttl_sec in
        (verify_file_token sign decimal now_sec domain file_id token exp ≡ true)
        ↔ ((now_sec ≤ signed_at + ttl_sec) × (signed ≡ token))
  unfolding sign_file_token verify_file_token
  verify_file_token_iff signed_at ttl_sec now_sec domain file_id token =
      let payload = link_payload sign decimal domain file_id (signed_at + ttl_sec) in
      ground (arith, timing_safe_equal_iff (sign payload) token)
