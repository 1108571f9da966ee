-- ===== src/Manager/Token.antt =====
-- The middleware of llamacpp-manager/auth.ts.
pub mod Laws
use ob2_turbo_quant.Common.{
  [], Bool, true, false, Option, none, some, codes, Text, is_empty, starts_with, drop, option_or,
  if◌then◌else◌, ℕ,
}
use ob2_turbo_quant.Auth.TimingSafe.{timing_safe_equal}

-- `configuredToken()`, from the value of the environment variable.
unfoldable pub configured_token : Option Text → Option Text
configured_token none = none
configured_token (some t) = if is_empty t then none else some t

-- Whether the request is passed on, or the status of the answer.
pub data Outcome : Type 0 where
  passed : Outcome
  refused : ℕ → Outcome

unfoldable pub check_header : Text → Text → Outcome
check_header expected header =
    if starts_with (codes "Bearer ") header
    then (if timing_safe_equal (drop 7 header) expected then passed else refused 401)
    else refused 401

-- `bearerAuth()`, from the environment variable and the header `Authorization`.
unfoldable pub bearer_auth : Option Text → Option Text → Outcome
bearer_auth env header = elim (configured_token env) [
  | none ↦ refused 503
  | some expected ↦ check_header expected (option_or header [])
]
