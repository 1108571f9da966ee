-- ===== src/Knowledge/Gateway/Links.antt =====
-- The links that a chat's sources carry.
use ob2_turbo_quant.Common.{
  ℕ, ◌+◌, ◌≤◌, ◌≡◌, refl, arith, true, false, ◌||◌, some, List, [], ◌∷◌, Text, All, text_eq, any,
  option_or, Bool-cases, inl, inr, is_empty, IsIn, false, option_or_full,
}
use ob2_turbo_quant.Auth.FileSigning.{sign_file_token, verify_file_token, default_ttl_sec}
use ob2_turbo_quant.Auth.FileSigning.Links.{verify_file_token_iff}
use ob2_turbo_quant.Knowledge.{Doc}
use ob2_turbo_quant.Knowledge.Gateway.{SourceLine, source_lines, line_of, link_of, link_text}

-- No file stands in the list twice, nor one of `seen`.
abbrev pub AreNew : List Text → List (Text × SourceLine) → Type 0
AreNew seen [] = Unit
AreNew seen ((id, l) ∷ ls) = (any (text_eq id) seen ≡ false) × AreNew (id ∷ seen) ls

module _ (sign : Text → Text) (decimal : ℕ → Text) (encode : Text → Text) (public_url : Text)
    (now_sec : ℕ) where
  source_lines-AreNew :
      (seen : List Text) (docs : List Doc)
      → AreNew seen (source_lines sign decimal encode public_url now_sec seen docs)
  unfolding source_lines
  source_lines-AreNew seen [] = tt
  source_lines-AreNew seen (d ∷ ds) =
      let file_id = option_or d.import_file_id [] in
      let later = source_lines-AreNew (file_id ∷ seen) ds in
      let rest = source_lines-AreNew seen ds in
      elim (Bool-cases (is_empty file_id || any (text_eq file_id) seen)) [
        | inl skipped ↦ rw skipped rest
        | inr fresh ↦ rw fresh (ground arith, later)
      ]

  -- The line links to the file under `id` in the domain of a document that comes from it, with a token
  -- that `verifyFileToken` accepts from now to the end of the lifetime.
  abbrev pub Works : List Doc → Text × SourceLine → Type 0
  Works docs (id, l) =
      (d : Doc) × IsIn d docs
      × (d.import_file_id ≡ some id)
      × (token : Text) × (exp : ℕ) × (l.link
          ≡ some (link_text sign decimal encode public_url d.source id token exp))
      × ((at : ℕ)
          → at ≤ now_sec + default_ttl_sec
          → verify_file_token sign decimal at d.source id token exp ≡ true)

  line_of-Works :
      (id : Text) (d : Doc) (docs : List Doc)
      → is_empty public_url ≡ false
      → IsIn d docs
      → d.import_file_id ≡ some id
      → Works docs (id, line_of sign decimal encode public_url now_sec id d)
  unfolding link_of
  line_of-Works id d docs h there own =
      let (token, exp) = sign_file_token sign decimal now_sec d.source id default_ttl_sec in
      (
        d,
        there,
        own,
        token,
        exp,
        rw h refl,
        λ at early.
            (verify_file_token_iff sign decimal now_sec default_ttl_sec at d.source id token).1
              (early, refl),
      )

  source_lines-Works :
      (seen : List Text) (all docs : List Doc)
      → is_empty public_url ≡ false
      → ((d : Doc) → IsIn d docs → IsIn d all)
      → All (Works all) (source_lines sign decimal encode public_url now_sec seen docs)
  unfolding source_lines
  source_lines-Works seen all [] h part = tt
  source_lines-Works seen all (d ∷ ds) h part =
      let file_id = option_or d.import_file_id [] in
      let later = source_lines-Works (file_id ∷ seen) all ds h (λ x there. part x (inr there)) in
      let rest = source_lines-Works seen all ds h (λ x there. part x (inr there)) in
      elim (Bool-cases (is_empty file_id || any (text_eq file_id) seen)) [
        | inl skipped ↦ rw skipped rest
        | inr fresh ↦
            let own = option_or_full d.import_file_id (ground arith) in
            rw fresh (line_of-Works file_id d all h (part d (inl refl)) own, later)
      ]

  -- On a server with a public address, the files listed with a chat's sources are all different. Each
  -- is the file of a document that was retrieved, and carries a link to it in the domain of that document,
  -- with a token that `verifyFileToken` accepts for that domain and file until a day has passed.
  pub source_lines_sound :
      (docs : List Doc)
      → is_empty public_url ≡ false
      → let ls = source_lines sign decimal encode public_url now_sec [] docs in
        AreNew [] ls × All (Works docs) ls
  source_lines_sound docs h =
      (source_lines-AreNew [] docs, source_lines-Works [] docs docs h (λ d there. there))
