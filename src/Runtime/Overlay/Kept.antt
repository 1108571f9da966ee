-- ===== src/Runtime/Overlay/Kept.antt =====
-- What the two writing routes leave in the file.
use ob2_turbo_quant.Common.{
  ℕ, ◌<◌, ◌≡◌, ◌≢◌, refl, arith, sym, ◌∙◌, ap, Bool, true, false, Option, none, some, List, [],
  Text, text_eq, text_eq_iff, codes, option_or, trim, Bool-cases, inl, inr, leb,
}
use ob2_turbo_quant.Users.{AuthContext}
use ob2_turbo_quant.Runtime.Values.{Value, obj, Fields, nothing, entry, get, put}
use ob2_turbo_quant.Runtime.{
  Runtime, Environment, get_runtime, get_file_config, write_runtime, reload, take_content,
  take_file, remember, merge,
}
use ob2_turbo_quant.Runtime.Validation.{validate_runtime}
use ob2_turbo_quant.Runtime.Overlay.{
  Answer, error, saved, switched, refused, unless_refused, save_mail, post_mail, write_model,
  switch_refusal, switch_model,
}

get_other : (j k : Text) (v : Value) (fs : Fields) → j ≢ k → get k (entry j v fs) ≡ get k fs
unfolding get
get_other j k v fs h = elim (Bool-cases (text_eq j k)) [
  | inl same ↦ absurd (h ((text_eq_iff j k).0 same))
  | inr other ↦ rw other refl
]

pub get-put_same : (k : Text) (v : Value) (fs : Fields) → get k (put k v fs) ≡ some v
unfolding get put
get-put_same k v nothing = rw ((text_eq_iff k k).1 refl) refl
get-put_same k v (entry j w fs) = elim (Bool-cases (text_eq j k)) [
  | inl same ↦ rw (same, same) refl
  | inr other ↦ rw (other, other) (get-put_same k v fs)
]

pub get-put_other : (j k : Text) (v : Value) (fs : Fields) → j ≢ k → get k (put j v fs) ≡ get k fs
unfolding get put
get-put_other j k v nothing h = get_other j k v nothing h
get-put_other j k v (entry i w fs) h = elim (Bool-cases (text_eq i j)) [
  | inl same ↦
      let apart : i ≢ k = λ p. h (sym ((text_eq_iff i j).0 same) ∙ p) in
      rw same (get_other i k v fs apart ∙ sym (get_other i k w fs apart))
  | inr other ↦ elim (Bool-cases (text_eq i k)) [
    | inl found ↦ rw (other, found) refl
    | inr missed ↦ rw (other, missed) (get-put_other j k v fs h)
  ]
]

file_config-remember :
    (e : Environment) (c : Fields) (cfg : Option Fields) (st : Runtime)
    → (remember e c cfg st).file_config ≡ c
file_config-remember e c none st = refl
file_config-remember e c (some cfg) st = refl

-- What is written is what the file says.
pub file_config-write_runtime :
    (e : Environment) (mtime : ℕ) (c : Fields) (st : Runtime)
    → 0 < mtime
    → (write_runtime e mtime c st).file_config ≡ c
unfolding write_runtime reload take_content take_file
file_config-write_runtime e mtime c st h =
    let late : leb mtime 0 ≡ false = ground arith in
    rw late (file_config-remember e c (merge e c) _)

-- The settings of a section that are in the file.
abbrev pub section_of : Text → Runtime → Option Value
section_of name st = get name st.file_config

-- What a save leaves: a valid section of mail, and every other section as it was.
abbrev pub IsMailSaved : Runtime → Runtime → Type 0
IsMailSaved st st' =
    (mail : Fields) × (section_of (codes "mail") st' ≡ some (obj mail))
    × (validate_runtime (entry (codes "mail") (obj mail) nothing) ≡ true)
    × ((name : Text) → codes "mail" ≢ name → section_of name st' ≡ section_of name st)

save_mail-IsMailSaved :
    (e : Environment) (mtime : ℕ) (mail : Fields) (st st' : Runtime)
    → 0 < mtime
    → save_mail e mtime mail st ≡ (saved, st')
    → IsMailSaved (get_file_config e st).1 st'
unfolding save_mail get_file_config
save_mail-IsMailSaved e mtime mail st st' late h =
    elim (Bool-cases (validate_runtime (entry (codes "mail") (obj mail) nothing))) [
      | inl valid ↦
          let file = (get_file_config e st).0 in
          let after = put (codes "mail") (obj mail) file in
          let written : write_runtime e mtime after (get_file_config e st).1 ≡ st' =
            rw valid at (ap (λ r. r.1) h) in
          let config : st'.file_config ≡ after =
            sym (ap (λ x. x.file_config) written)
            ∙ file_config-write_runtime e mtime after (get_file_config e st).1 late in
          (
            mail,
            ap (get (codes "mail")) config ∙ get-put_same (codes "mail") (obj mail) file,
            valid,
            λ name other.
                ap (get name) config ∙ get-put_other (codes "mail") name (obj mail) file other,
          )
      | inr invalid ↦ let bad : error 400 ≡ saved = rw invalid at (ap (λ r. r.0) h) in cc
    ]

abbrev is_error : Answer → Bool
is_error (error status) = true
is_error saved = false
is_error (switched warmed) = false

unless_refused-done :
    (r : Option ℕ) (st : Runtime) (done : Answer × Runtime) (a : Answer) (st' : Runtime)
    → is_error a ≡ false
    → unless_refused r st done ≡ (a, st')
    → done ≡ (a, st')
unless_refused-done none st done a st' fine h = h
unless_refused-done (some status) st done a st' fine h = cc (fine, ap (λ r. is_error r.0) h)

-- A save of the mail settings that succeeds leaves in the file a section of mail that passes the
-- validation, and every other section as the file had it.
pub post_mail-IsMailSaved :
    (e : Environment) (mtime : ℕ) (auth : Option AuthContext) (body : Option Fields)
    (st st' : Runtime)
    → 0 < mtime
    → post_mail e mtime auth body st ≡ (saved, st')
    → IsMailSaved (get_file_config e (get_runtime e st).1).1 st'
unfolding post_mail
post_mail-IsMailSaved e mtime auth none st st' late h = cc (ap (λ r. r.0) h)
post_mail-IsMailSaved e mtime auth (some body) st st' late h =
    save_mail-IsMailSaved e mtime _ (get_runtime e st).1 st' late
      (unless_refused-done (refused auth) st _ saved st' refl h)

-- A switch of the model that succeeds leaves nothing in the file but the section of Ollama: every
-- other section that the file had is gone.
pub switch_model_overwrites :
    (e : Environment) (mtime : ℕ) (auth : Option AuthContext) (installed : Option (List Text))
    (warms warmed : Bool) (body : Option (Option Text)) (st st' : Runtime)
    → 0 < mtime
    → switch_model e mtime auth installed warms body st ≡ (switched warmed, st')
    → (name : Text) → codes "ollama" ≢ name
    → section_of name st' ≡ none
unfolding switch_model write_model get
switch_model_overwrites e mtime auth installed warms warmed body st st' late h name other =
    let wanted = trim (option_or (option_or body none) []) in
    let written =
      ap (λ r. r.1.file_config)
        (unless_refused-done (switch_refusal e auth installed wanted) st _ (switched warmed) st'
          refl h) in
    ap (get name) (sym written ∙ file_config-write_runtime e mtime _ (get_runtime e st).1 late)
    ∙ get_other (codes "ollama") name _ nothing other
