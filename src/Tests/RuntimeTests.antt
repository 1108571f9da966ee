-- ===== src/Tests/RuntimeTests.antt =====
-- server/runtime_config.ts and the routes that write it, at concrete inputs.
use ob2_turbo_quant.Common.{
  option_or, if◌then◌else◌, ◌≡◌, ◌≢◌, refl, arith, true, false, none, some, [], ◌∷◌, codes, text_eq,
  text_eq_iff, any, starts_with, trim, trim_start, is_space,
}
use ob2_turbo_quant.Users.Access.{context_of}
use ob2_turbo_quant.Runtime.Values.{
  Value, not_a_number, obj, str, Fields, nothing, entry, get, put, deep_merge,
}
use ob2_turbo_quant.Runtime.Settings.{defaults}
use ob2_turbo_quant.Runtime.{
  merge, apply_env, apply_key, set_leaf, coerce, normalize, strip_slashes, Runtime, Environment,
  get_file_config, get_runtime, reload,
}
use ob2_turbo_quant.Runtime.Validation.{
  validate_runtime, section, valid_mail, leaf, every, is_integer_from, is_address,
}
use ob2_turbo_quant.Runtime.Precedence.{HasLeaf, is_row, merge_env_wins}
use ob2_turbo_quant.Runtime.Overlay.{
  refused, effective_pass, next_mail, save_mail, post_mail, switch_refusal, write_model,
  switch_model,
}
use ob2_turbo_quant.Runtime.Overlay.Kept.{
  IsMailSaved, section_of, post_mail-IsMailSaved, switch_model_overwrites,
}
use ob2_turbo_quant.Tests.{alice}

abbrev no_env : Environment
no_env = record { variable = λ name. none; number_of = λ t. not_a_number; seeded = none }

-- A file with a section of OpenAI, read before.
abbrev test_runtime : Runtime
test_runtime = record {
  disk = some (record { mtime = 5; content = some (obj nothing) });
  file_config =
      entry (codes "openai") (obj (entry (codes "model") (str (codes "m")) nothing)) nothing;
  last_mtime = 5;
  cached = defaults;
}

abbrev test_body : Fields
test_body = entry (codes "host") (str (codes "h")) nothing

post_mail-IsMailSaved_example :
    IsMailSaved
      (get_file_config no_env (get_runtime no_env test_runtime).1).1
      (post_mail no_env 9 (some (context_of alice)) (some test_body) test_runtime).1
unfolding post_mail refused get_runtime reload save_mail get_file_config next_mail effective_pass
    get put text_eq validate_runtime section valid_mail leaf every is_integer_from is_address any
    starts_with
post_mail-IsMailSaved_example =
    post_mail-IsMailSaved no_env 9 (some (context_of alice)) (some test_body) test_runtime
      (post_mail no_env 9 (some (context_of alice)) (some test_body) test_runtime).1 (omega arith)
      refl

openai_apart : codes "ollama" ≢ codes "openai"
unfolding text_eq
openai_apart h = let bad : false ≡ true = (text_eq_iff (codes "ollama") (codes "openai")).1 h in cc

switch_model_overwrites_example :
    section_of
      (codes "openai")
      (switch_model no_env 9
        (some (context_of alice))
        (some (codes "gemma" ∷ []))
        true
        (some (some (codes "gemma")))
        test_runtime).1
    ≡ none
unfolding switch_model switch_refusal refused write_model get_runtime reload any text_eq trim
    trim_start is_space
switch_model_overwrites_example =
    switch_model_overwrites no_env 9 (some (context_of alice)) (some (codes "gemma" ∷ [])) true true
      (some (some (codes "gemma"))) test_runtime
      (switch_model no_env 9 (some (context_of alice)) (some (codes "gemma" ∷ [])) true
        (some (some (codes "gemma"))) test_runtime).1
      (omega arith) refl (codes "openai") openai_apart

abbrev test_env : Environment
test_env = record {
  variable = λ name. if text_eq name (codes "OB2_OPENAI_MODEL") then some (codes "m2") else none;
  number_of = λ t. not_a_number;
  seeded = none;
}

abbrev test_merged : Fields
test_merged = option_or (merge test_env test_runtime.file_config) nothing

mail_apart : codes "mail" ≢ codes "openai"
unfolding text_eq
mail_apart h = let bad : false ≡ true = (text_eq_iff (codes "mail") (codes "openai")).1 h in cc

merge_env_wins_example :
    (w : Value) × HasLeaf (codes "openai") (codes "model") (some w) test_merged
    × (w ≡ str (codes "m2"))
unfolding merge apply_env apply_key set_leaf coerce deep_merge normalize strip_slashes get put
    text_eq any is_row
merge_env_wins_example =
    merge_env_wins test_env (codes "openai") (codes "model") (codes "OB2_OPENAI_MODEL")
      test_runtime.file_config test_merged _ refl mail_apart refl refl refl
