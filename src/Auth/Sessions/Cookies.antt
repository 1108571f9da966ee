-- ===== src/Auth/Sessions/Cookies.antt =====
-- The `Set-Cookie` values of server/auth/sessions.ts. `public_url` is the environment variable, and
-- a number stands as the text that it prints as.
use ob2_turbo_quant.Common.{
  Bool, ◌||◌, Option, List, [], ◌∷◌, ◌++◌, if◌then◌else◌, Text, codes, starts_with, option_or,
}

-- `parts.join("; ")`
join_parts : List Text → Text
join_parts [] = []
join_parts (p ∷ []) = p
join_parts (p ∷ q ∷ ps) = p ++ (codes "; " ++ join_parts (q ∷ ps))

is_secure : Option Text → Bool → Bool
is_secure public_url is_https = is_https || starts_with (codes "https://") (option_or public_url [])

pub build_cookie : Option Text → Text → Text → Bool → Text
build_cookie public_url token max_age_sec is_https =
    let parts =
      (codes "ob2_session=" ++ token)
      ∷ codes "HttpOnly"
      ∷ codes "Path=/"
      ∷ codes "SameSite=Lax"
      ∷ (codes "Max-Age=" ++ max_age_sec)
      ∷ [] in
    join_parts (if is_secure public_url is_https then parts ++ (codes "Secure" ∷ []) else parts)

-- A cookie without a value that expires at once.
pub clear_cookie : Option Text → Bool → Text
clear_cookie public_url is_https = build_cookie public_url [] (codes "0") is_https
