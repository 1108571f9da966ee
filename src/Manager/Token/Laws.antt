-- ===== src/Manager/Token/Laws.antt =====
-- Which requests the manager's middleware passes on.
use ob2_turbo_quant.Common.{
  ◌≡◌, ◌≢◌, ◌↔◌, refl, true, Option, none, some, [], ◌∷◌, ◌++◌, codes, Text, starts_with, length,
  drop, arith, Bool-cases, inl, inr, ap, ◌∙◌,
}
use ob2_turbo_quant.Auth.TimingSafe.{timing_safe_equal, timing_safe_equal_iff}
use ob2_turbo_quant.Manager.Token.{configured_token, passed, check_header, bearer_auth}

starts_with-rest : (p s : Text) → starts_with p s ≡ true → s ≡ p ++ drop (length p) s
unfolding starts_with
starts_with-rest [] s h = refl
starts_with-rest (c ∷ p) [] h = ground arith
starts_with-rest (c ∷ p) (d ∷ s) h = ground (arith, starts_with-rest p s)

check_header_sound :
    (expected header : Text)
    → check_header expected header ≡ passed
    → header ≡ codes "Bearer " ++ expected
unfolding check_header
check_header_sound expected header e = elim (Bool-cases (starts_with (codes "Bearer ") header)) [
  | inl bearer ↦ elim (Bool-cases (timing_safe_equal (drop 7 header) expected)) [
    | inl equal ↦
        starts_with-rest (codes "Bearer ") header bearer
        ∙ ap (λ t. codes "Bearer " ++ t) ((timing_safe_equal_iff (drop 7 header) expected).0 equal)
    | inr other ↦ absurd (ground arith)
  ]
  | inr other ↦ absurd (ground arith)
]

check_header_complete :
    (expected : Text) → check_header expected (codes "Bearer " ++ expected) ≡ passed
unfolding check_header starts_with
check_header_complete expected = rw ((timing_safe_equal_iff expected expected).1 refl) refl

bearer_auth_sound :
    (env header : Option Text)
    → bearer_auth env header ≡ passed
    → (token : Text) × (env ≡ some token)
      × (token ≢ [])
      × (header ≡ some (codes "Bearer " ++ token))
unfolding bearer_auth configured_token
bearer_auth_sound none header e = absurd (ground arith)
bearer_auth_sound (some []) header e = absurd (ground arith)
bearer_auth_sound (some (c ∷ t)) none e = absurd (ground (arith, check_header_sound (c ∷ t) []))
bearer_auth_sound (some (c ∷ t)) (some h) e =
    (c ∷ t, refl, ground arith, ap some (check_header_sound (c ∷ t) h e))

bearer_auth_complete :
    (token : Text)
    → token ≢ []
    → bearer_auth (some token) (some (codes "Bearer " ++ token)) ≡ passed
unfolding bearer_auth configured_token
bearer_auth_complete [] h = absurd (h refl)
bearer_auth_complete (c ∷ t) h = check_header_complete (c ∷ t)

-- A request is passed on exactly if a token is configured, not an empty one, and the header is
-- "Bearer " followed by that token.
pub bearer_auth-passed_iff :
    (env header : Option Text)
    → (bearer_auth env header ≡ passed) ↔ (
        (token : Text) × (env ≡ some token)
        × (token ≢ [])
        × (header ≡ some (codes "Bearer " ++ token)))
bearer_auth-passed_iff env header = (
  bearer_auth_sound env header,
  λ (token, e, given, at). rw (e, at) (bearer_auth_complete token given),
)
