-- ===== src/Manager/Models.antt =====
-- Downloads of llamacpp-manager/models.ts. What the network gives is a parameter: the host's
-- addresses (the host itself where it is numeric), whether `isDeniedIp` refuses one, and the
-- response, whose body is the list of the sizes of its chunks. A file is known by its size.
pub mod Downloads
use ob2_turbo_quant.Common.{
  ℕ, ◌+◌, ◌-◌, ◌*◌, Bool, true, false, not, ◌&&◌, ◌||◌, Option, none, some, List, [], ◌∷◌, ◌++◌,
  ltb, leb, ◌==◌, if◌then◌else◌, Text, text_key, codes, text_eq, is_empty, length, drop, any,
  starts_with,
}
use ob2_turbo_quant.Common.JsMap
use ob2_turbo_quant.Common.JsMap.{JsMap}

-- `s.includes(part)`
unfoldable pub includes : Text → Text → Bool
includes part [] = is_empty part
includes part (c ∷ s) = starts_with part (c ∷ s) || includes part s

-- `s.endsWith(part)`
unfoldable pub ends_with : Text → Text → Bool
ends_with part s = leb (length part) (length s) && text_eq (drop (length s - length part) s) part

unfoldable pub is_safe_filename : Text → Bool
is_safe_filename name =
    ltb 0 (length name)
    && leb (length name) 256
    && not (includes (codes "/") name)
    && not (includes (codes "\\") name)
    && not (includes (codes "..") name)
    && ends_with (codes ".gguf") name

abbrev pub max_pull_bytes : ℕ
max_pull_bytes = 50 * 1024 * 1024 * 1024

-- The address of a download as `new URL` reads it: its scheme, and what its host resolves to (`none`
-- where that fails).
pub record Target : Type 0 where
  pub is_http : Bool
  pub addresses : Option (List Text)

-- `content_length` is 0 where the header is missing or no number, and `body` is `none` where the
-- status is an error or there is no body.
-- A round of the loop over the body: a chunk of `size` bytes of which `out.write` took `taken`, or a
-- read or a write that throws.
pub data Piece : Type 0 where
  chunk : (size taken : ℕ) → Piece
  fault : Piece

pub record Response : Type 0 where
  pub content_length : ℕ
  pub body : Option (List Piece)

pub data PullError : Type 0 where
  unsafe_filename bad_scheme unresolved denied failed too_large exceeded broken_off : PullError

-- The size of the models' files by name.
abbrev pub Files : Type 0
Files = JsMap Text ℕ

-- The loop over the body, with the bytes received and those on the disk so far: the bytes on the disk
-- when it stops, and what it throws. The count that `out.write` returns is not looked at.
unfoldable pub write_body : (written on_disk : ℕ) → List Piece → ℕ × Option PullError
write_body written on_disk [] = (on_disk, none)
write_body written on_disk (fault ∷ ps) = (on_disk, some broken_off)
write_body written on_disk (chunk size taken ∷ ps) =
    let rest = write_body (written + size) (on_disk + taken) ps in
    if ltb max_pull_bytes (written + size) then (on_disk, some exceeded) else rest

abbrev pub partial_name : Text → Text
partial_name name = name ++ codes ".partial"

-- `Deno.rename(partial, final)` after a body was written.
unfoldable pub rename_partial : Text → ℕ → Files → Files
rename_partial name size files = JsMap.set name size (JsMap.delete (partial_name name) files)

unfoldable pub download : Text → Response → Files → Option PullError × Files
download name r files = elim r.body [
  | none ↦ (some failed, files)
  | some pieces ↦
      let (on_disk, thrown) = write_body 0 0 pieces in
      let files' = JsMap.set (partial_name name) on_disk files in
      if ltb max_pull_bytes r.content_length then (some too_large, files) else (elim thrown [
        | some e ↦ (some e, files')
        | none ↦ (none, rename_partial name on_disk files')
      ])
]

module _ (is_denied_ip : Text → Bool) where
  -- `resolveAndCheck`
  unfoldable pub resolve_and_check : Target → Option PullError
  resolve_and_check t = if not t.is_http then some bad_scheme else elim t.addresses [
    | none ↦ some unresolved
    | some ips ↦ if any is_denied_ip ips then some denied else none
  ]

  unfoldable pub pull_from_url : Target → Text → Response → Files → Option PullError × Files
  pull_from_url t name r files =
      if not (is_safe_filename name)
      then (some unsafe_filename, files)
      else elim (resolve_and_check t) [ some e ↦ (some e, files) | none ↦ download name r files ]

-- `deleteModel`: `none` where the name is unsafe or there is no such file.
unfoldable pub delete_model : Text → Files → Option Files
delete_model name files =
    if not (is_safe_filename name)
    then none
    else elim (JsMap.get name files) [ none ↦ none | some size ↦ some (JsMap.delete name files) ]
