-- ===== src/Auth/Sessions/Tokens.antt =====
-- The two parts of a session cookie's value.
use ob2_turbo_quant.Common.{
  ℕ, suc, ◌-◌, ◌≡◌, refl, ◌≢◌, ◌||◌, Option, none, some, [], ◌∷◌, ◌++◌, arith, ◌==◌, if◌then◌else◌,
  Text, length, take, drop, index_of, Lacks, index_of-append, index_of-split, take_of_append,
  length-append, Option-cases, inl, inr, sym, ◌∙◌, ◌⊎◌,
}
use ob2_turbo_quant.Auth.Sessions.{split_token, token_id}

drop_past : (xs : Text) (c : ℕ) (ys : Text) → drop (suc (length xs)) (xs ++ (c ∷ ys)) ≡ ys
drop_past [] c ys = refl
drop_past (x ∷ xs) c ys = drop_past xs c ys

-- The clauses of `split_token` and `token_id` for a dot at a known place.
split_at : (token : Text) (dot : ℕ) → Option (Text × Text)
split_at token dot =
    if dot == 0 || dot == length token - 1
    then none
    else some (take dot token, drop (suc dot) token)

token_cases :
    (token : Text)
    → ((split_token token ≡ none) × (token_id token ≡ none))
      ⊎ ((dot : ℕ) × (index_of b'.' token ≡ some dot)
          × (split_token token ≡ split_at token dot)
          × (token_id token ≡ (if dot == 0 then none else some (take dot token))))
unfolding split_token token_id split_at
token_cases token = elim (Option-cases (index_of b'.' token)) [
  | inl missing ↦ inl (rw (missing, split_token), rw (missing, token_id))
  | inr (dot, found) ↦ inr (dot, found, rw (found, split_token), rw (found, token_id))
]

split_at-parts :
    (token : Text) (dot : ℕ) (id sig : Text)
    → split_at token dot ≡ some (id, sig)
    → (id ≡ take dot token) × (sig ≡ drop (suc dot) token) × (dot ≢ 0)
unfolding split_at
split_at-parts token dot id sig h = ground arith

-- A value that splits is the two parts with a dot between them.
pub split_token_sound :
    (token id sig : Text) → split_token token ≡ some (id, sig) → token ≡ id ++ (b'.' ∷ sig)
split_token_sound token id sig h = elim (token_cases token) [
  | inl (missing, _) ↦ cc
  | inr (dot, found, split, _) ↦
      let parts = split_at-parts token dot id sig (sym split ∙ h) in
      rw (parts.0, parts.1) (index_of-split b'.' token dot found).0
]

-- The id that is revoked is the id that is looked up.
pub token_id_of_split :
    (token id sig : Text) → split_token token ≡ some (id, sig) → token_id token ≡ some id
token_id_of_split token id sig h = elim (token_cases token) [
  | inl (missing, _) ↦ cc
  | inr (dot, found, split, before) ↦
      let parts = split_at-parts token dot id sig (sym split ∙ h) in ground arith
]

split_at-join :
    (c d : ℕ) (id sig : Text)
    → split_at ((c ∷ id) ++ (b'.' ∷ d ∷ sig)) (suc (length id)) ≡ some (c ∷ id, d ∷ sig)
unfolding split_at
split_at-join c d id sig = ground (
  arith,
  length-append id (b'.' ∷ d ∷ sig),
  take_of_append id (b'.' ∷ d ∷ sig),
  drop_past id b'.' (d ∷ sig),
)

pub split_token-join :
    (id sig : Text)
    → Lacks b'.' id
    → id ≢ []
    → sig ≢ []
    → split_token (id ++ (b'.' ∷ sig)) ≡ some (id, sig)
split_token-join [] sig l p q = absurd (p refl)
split_token-join (c ∷ id) [] l p q = absurd (q refl)
split_token-join (c ∷ id) (d ∷ sig) l p q =
    let found = index_of-append b'.' (c ∷ id) (d ∷ sig) l in
    unfold split_token split_at in (rw (found, split_token) (split_at-join c d id sig))
