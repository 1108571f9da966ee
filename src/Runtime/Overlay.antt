-- ===== src/Runtime/Overlay.antt =====
-- server/routes/admin.ts: the two routes that write the settings, of mails and of the model.
pub mod Kept
use ob2_turbo_quant.Common.{
  ℕ, Bool, true, false, not, ◌&&◌, ◌||◌, Option, none, some, List, [], ◌∷◌, if◌then◌else◌, Text,
  text_eq, codes, is_empty, option_or, any, trim,
}
use ob2_turbo_quant.Users.{AuthContext}
use ob2_turbo_quant.Runtime.Values.{
  Number, Value, null, bool, num, str, obj, arr, Fields, nothing, entry, get, put,
}
use ob2_turbo_quant.Runtime.{
  Runtime, Environment, override_of, get_runtime, get_file_config, write_runtime,
}
use ob2_turbo_quant.Runtime.Validation.{validate_runtime}

-- The statuses of the two routes, and for the model whether it was loaded.
pub data Answer : Type 0 where
  error : (status : ℕ) → Answer
  saved : Answer
  switched : (warmed : Bool) → Answer

-- `requireGlobalAdmin`, as the status that it answers with.
unfoldable pub refused : Option AuthContext → Option ℕ
refused none = some 401
refused (some auth) = if auth.global_admin then none else some 403

-- `if (denied) return denied`
abbrev pub unless_refused : Option ℕ → Runtime → Answer × Runtime → Answer × Runtime
unless_refused none st done = done
unless_refused (some status) st done = (error status, st)

-- `...(body.x !== undefined ? { x: body.x } : {})`
abbrev pub put_if : Text → Option Value → Fields → Fields
put_if k none fs = fs
put_if k (some v) fs = put k v fs

-- The text that stands for a password that is not shown.
abbrev pub mask : Text
mask = 8226 ∷ 8226 ∷ 8226 ∷ 8226 ∷ []

-- The password that is kept, or the one that was sent.
unfoldable pub effective_pass : Option Value → Option Value → Option Value
effective_pass current (some (str t)) =
    if is_empty t || text_eq t mask then current else some (str t)
effective_pass current (some (obj fs)) = current
effective_pass current (some (arr fs)) = current
effective_pass current (some (num n)) = current
effective_pass current (some (bool b)) = current
effective_pass current (some null) = current
effective_pass current none = current

abbrev pub fields_of : Option Value → Fields
fields_of (some (obj fs)) = fs
fields_of (some (arr fs)) = fs
fields_of _ = nothing

-- The settings of mail with what the body changes.
unfoldable pub next_mail : Fields → Fields → Fields
next_mail mail body =
    let changed : Text → Fields → Fields = λ k fs. put_if k (get k body) fs in
    changed (codes "public_url") (
      changed (codes "from") (
        changed (codes "secure") (
          put_if (codes "pass") (effective_pass (get (codes "pass") mail) (get (codes "pass") body))
            (changed (codes "user")
              (changed (codes "port") (changed (codes "host") (changed (codes "driver") mail)))))))

module _ (e : Environment) where
  -- `POST /admin/config/mail` at the time `mtime`, with `none` for a body that is no JSON.
  unfoldable pub save_mail : ℕ → Fields → Runtime → Answer × Runtime
  save_mail mtime mail st =
      let (file, st') = get_file_config e st in
      if validate_runtime (entry (codes "mail") (obj mail) nothing)
      then (saved, write_runtime e mtime (put (codes "mail") (obj mail) file) st')
      else (error 400, st)

  unfoldable pub post_mail : ℕ → Option AuthContext → Option Fields → Runtime → Answer × Runtime
  post_mail mtime auth none st = (error (option_or (refused auth) 400), st)
  post_mail mtime auth (some body) st =
      let (runtime, st') = get_runtime e st in
      unless_refused (refused auth) st
        (save_mail mtime (next_mail (fields_of (get (codes "mail") runtime)) body) st')

  -- The model is written, and `warms` says whether Ollama could load it.
  unfoldable pub write_model : ℕ → Bool → Text → Runtime → Answer × Runtime
  write_model mtime warms model st =
      let (runtime, st') = get_runtime e st in
      let ollama = put (codes "model") (str model) (fields_of (get (codes "ollama") runtime)) in
      (switched warms, write_runtime e mtime (entry (codes "ollama") (obj ollama) nothing) st')

  -- The status of a switch that is not done. `installed` is `none` where Ollama does not answer.
  unfoldable pub switch_refusal : Option AuthContext → Option (List Text) → Text → Option ℕ
  switch_refusal auth installed wanted = elim (refused auth) [
    | some status ↦ some status
    | none ↦
        if not (is_empty (trim (override_of e (codes "OB2_OLLAMA_MODEL"))))
        then some 409
        else if is_empty wanted
        then some 400
        else (elim installed [
          | none ↦ some 502
          | some models ↦ if any (text_eq wanted) models then none else some 400
        ])
  ]

  -- `POST /admin/ollama/model`, with `none` for a body that is no JSON.
  unfoldable pub switch_model :
      ℕ
      → Option AuthContext
      → Option (List Text)
      → Bool
      → Option (Option Text)
      → Runtime
      → Answer × Runtime
  switch_model mtime auth installed warms body st =
      let wanted = trim (option_or (option_or body none) []) in
      unless_refused (switch_refusal auth installed wanted) st (write_model mtime warms wanted st)
