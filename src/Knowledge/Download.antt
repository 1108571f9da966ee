-- ===== src/Knowledge/Download.antt =====
-- server/routes/admin.ts: the download of an uploaded file, by a signed link or under a right.
pub mod Access
use ob2_turbo_quant.Common.{
  ℕ, zero, suc, Bool, true, false, not, ◌&&◌, ◌||◌, leb, ◌==◌, Option, none, some, List, [], ◌∷◌,
  ◌++◌, if◌then◌else◌, Text, text_eq, codes, is_empty, option_or, starts_with, find,
}
use ob2_turbo_quant.Auth.FileSigning.{verify_file_token}
use ob2_turbo_quant.Auth.Sessions.{SessionStore}
use ob2_turbo_quant.Users.{read, AuthContext, Config, has_permission}
use ob2_turbo_quant.Users.Access.{Decision, Headers, proceed, answer, bearer_auth}
use ob2_turbo_quant.Users.Store.{UserStore}
use ob2_turbo_quant.Knowledge.DomainRoutes.Imports.{last_segment}

-- A hexadecimal digit of a case-insensitive expression.
unfoldable pub is_hex : ℕ → Bool
is_hex c = (leb 48 c && leb c 57) || (leb 97 c && leb c 102) || (leb 65 c && leb c 70)

-- What follows `n` hexadecimal digits.
unfoldable pub after_hex : ℕ → Text → Option Text
after_hex zero s = some s
after_hex (suc n) [] = none
after_hex (suc n) (c ∷ s) = let rest = after_hex n s in if is_hex c then rest else none

-- Groups of digits with a dash between them, and nothing else.
unfoldable pub are_groups : List ℕ → Text → Bool
are_groups [] s = false
are_groups (n ∷ []) s = elim (after_hex n s) [ none ↦ false | some rest ↦ is_empty rest ]
are_groups (n ∷ k ∷ ns) s = elim (after_hex n s) [
  | none ↦ false
  | some [] ↦ false
  | some (c ∷ rest) ↦ (c == 45) && are_groups (k ∷ ns) rest
]

unfoldable pub is_file_id : Text → Bool
is_file_id s = are_groups (8 ∷ 4 ∷ 4 ∷ 4 ∷ 12 ∷ []) s

abbrev content_types : List (Text × Text)
content_types =
    (codes "pdf", codes "application/pdf")
    ∷ (codes "png", codes "image/png")
    ∷ (codes "jpg", codes "image/jpeg")
    ∷ (codes "jpeg", codes "image/jpeg")
    ∷ (codes "gif", codes "image/gif")
    ∷ (
      codes "docx",
      codes "application/vnd.openxmlformats-officedocument.wordprocessingml.document",
    )
    ∷ (
      codes "pptx",
      codes "application/vnd.openxmlformats-officedocument.presentationml.presentation",
    )
    ∷ (codes "xlsx", codes "application/vnd.openxmlformats-officedocument.spreadsheetml.sheet")
    ∷ (codes "html", codes "text/html")
    ∷ (codes "txt", codes "text/plain")
    ∷ (codes "md", codes "text/markdown")
    ∷ (codes "mp3", codes "audio/mpeg")
    ∷ (codes "wav", codes "audio/wav")
    ∷ (codes "m4a", codes "audio/mp4")
    ∷ (codes "zip", codes "application/zip")
    ∷ []

unfoldable pub content_type : (Text → Text) → Text → Text
content_type to_lower name =
    elim (find (λ t. text_eq t.0 (to_lower (last_segment name))) content_types) [
      | none ↦ codes "application/octet-stream"
      | some t ↦ t.1
    ]

-- An entry of the domain's directory.
pub record DirEntry : Type 0 where
  pub name : Text
  pub is_file : Bool

pub data Download : Type 0 where
  error : (status : ℕ) → Download
  sent : (name content_type : Text) → Download

-- The query: `t`, and `exp` as a text.
pub record LinkQuery : Type 0 where
  pub token : Option Text
  pub exp : Option Text

-- What the handler takes of the rest of the server; `parse_int` is `none` for what is no number or a
-- negative one, whose link would be out of date.
pub record DownloadWorld : Type 0 where
  pub sign_link : Text → Text
  pub sign : Text → Text
  pub decimal : ℕ → Text
  pub parse_int : Text → Option ℕ
  pub to_lower : Text → Text
  pub read_dir : Text → Option (List DirEntry)
  pub config : Config

module _ (w : DownloadWorld) where
  unfoldable pub is_signed : ℕ → Text → Text → LinkQuery → Bool
  is_signed now_sec domain file_id q =
      let t = option_or q.token [] in
      let exp = option_or q.exp [] in
      if is_empty t || is_empty exp then false else (elim (w.parse_int exp) [
        | none ↦ false
        | some e ↦ verify_file_token w.sign_link w.decimal now_sec domain file_id t e
      ])

  -- The middleware lets someone in who may read the domain.
  abbrev pub may_download : Text → Decision → Bool
  may_download domain (answer status) = false
  may_download domain (proceed auth) = has_permission auth domain read

  unfoldable pub find_file : Text → Option (List DirEntry) → Download
  find_file file_id none = error 404
  find_file file_id (some entries) =
      elim (find (λ e. e.is_file && starts_with (file_id ++ (b'.' ∷ [])) e.name) entries) [
        | none ↦ error 404
        | some e ↦ sent e.name (content_type w.to_lower e.name)
      ]

  abbrev pub directory : Text → Option (List DirEntry)
  directory domain = w.read_dir (codes "/data/imports/" ++ domain)

  unfoldable pub download_as :
      ℕ → Text → Text → Headers → UserStore → SessionStore → Download × UserStore × SessionStore
  download_as now domain file_id headers st ss =
      let (decision, st', ss') = bearer_auth w.sign w.config now headers st ss in
      (
        if may_download domain decision then find_file file_id (directory domain) else error 401,
        st',
        ss',
      )

  -- `now_sec` is the time of the signature's check, `now` that of the session lookup.
  unfoldable pub download :
      (now_sec now : ℕ)
      → Text
      → Text
      → LinkQuery
      → Headers
      → UserStore
      → SessionStore
      → Download × UserStore × SessionStore
  download now_sec now domain file_id q headers st ss =
      let as_user = download_as now domain file_id headers st ss in
      if not (is_file_id file_id)
      then (error 400, st, ss)
      else if is_signed now_sec domain file_id q
      then (find_file file_id (directory domain), st, ss)
      else as_user
