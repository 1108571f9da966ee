-- ===== src/Knowledge/DomainRoutes/Imports.antt =====
-- server/routes/admin.ts: the routes that import files. `files` are the paths under /data/imports at
-- which the uploads lie.
pub mod Uploads
use ob2_turbo_quant.Common.{
  ℕ, Bool, true, false, not, ◌&&◌, Option, none, some, List, [], ◌∷◌, ◌++◌, leb, ltb, ◌==◌,
  if◌then◌else◌, Text, text_eq, codes, is_empty, option_or, keep, any, take,
}
use ob2_turbo_quant.Users.{read, write, AuthContext, has_permission}
use ob2_turbo_quant.Import.Jobs.{JobRecord, JobStore, get_job}
use ob2_turbo_quant.Import.Runner.{
  path, url, Source, IngestEnv, IngestRequest, IngestError, conversion_failed, payload_too_large,
  unreadable, url_blocked, upstream_fetch_failed, Found, Dispatched, dispatch,
}
use ob2_turbo_quant.Knowledge.{Request, Reply}
use ob2_turbo_quant.Knowledge.Run.{
  Outcome, halt, go, Run, ◌>>=◌, ◌>>◌, pass, answer, require, require_some,
}
use ob2_turbo_quant.Knowledge.McpTools.{caller_name}
use ob2_turbo_quant.Knowledge.DomainRoutes.{Answer, Route, error, job, accepted, require_perm}
use ob2_turbo_quant.Knowledge.DomainRoutes.Graph.{requested_domains}

-- What the imports change.
pub record ImportState : Type 0 where
  pub jobs : JobStore
  pub files : List Text

pub record UploadedFile : Type 0 where
  pub name : Text
  pub size : ℕ

-- The multipart fields; `file` is `none` where it is no file.
pub record UploadForm : Type 0 where
  pub file : Option UploadedFile
  pub tags : Option Text
  pub source_label : Option Text

pub record UrlBody : Type 0 where
  pub url : Option Text
  pub tags : Option (List Text)
  pub source_label : Option Text

-- What becomes of an uploaded file on the disk: it is written, or `Deno.mkdir` or `Deno.writeFile` throws
-- and leaves a part of it, or nothing.
pub data Placing : Type 0 where
  written partly nowhere : Placing

-- What these routes take of the rest of the server. `is_removed` says whether the removal of a file, which
-- is not awaited and whose failure is ignored, takes place.
pub record ImportWorld : Type 0 where
  pub placing : Placing
  pub is_removed : Bool
  pub sidecar : Request → Option Reply
  pub to_lower : Text → Text
  pub file_draw : Text
  pub fresh : ℕ → Text
  pub look : Source → Outcome IngestError Found
  pub is_office_file : Text → Bool
  pub ingest_env : IngestEnv
  pub now : ℕ
  pub job_draw : Text

-- `name.split(".").pop()`
unfoldable pub last_segment : Text → Text
last_segment [] = []
last_segment (c ∷ s) =
    let rest = last_segment s in
    if any (λ x. x == 46) (c ∷ s) then (if any (λ x. x == 46) s then rest else s) else c ∷ s

unfoldable pub extension : (Text → Text) → Text → Text
extension to_lower name =
    let ext = take 8 (to_lower (last_segment name)) in if is_empty ext then codes "bin" else ext

abbrev pub upload_path : Text → Text → Text → Text
upload_path domain file_id ext =
    codes "/data/imports/" ++ (domain ++ (b'/' ∷ (file_id ++ (b'.' ∷ ext))))

-- `tagsRaw ? tagsRaw.split(",").map(trim).filter(Boolean) : []`
abbrev pub upload_tags : Option Text → List Text
upload_tags raw = let t = option_or raw [] in if is_empty t then [] else requested_domains t

-- The status of an upload's exception, and of a URL's.
abbrev pub upload_status : IngestError → ℕ
upload_status payload_too_large = 413
upload_status conversion_failed = 400
upload_status unreadable = 400
upload_status url_blocked = 400
upload_status upstream_fetch_failed = 400

abbrev pub url_status : IngestError → ℕ
url_status url_blocked = 400
url_status payload_too_large = 413
url_status upstream_fetch_failed = 502
url_status conversion_failed = 400
url_status unreadable = 400

-- `Deno.remove(persistedPath).catch(() => {})`
abbrev pub remove_file : Bool → Text → List Text → List Text
remove_file true placed files = keep (λ p. not (text_eq p placed)) files
remove_file false placed files = files

-- What was dispatched; after an exception the file at `placed` is to be removed.
abbrev pub settle_upload :
    Bool → Text → List Text → Run IngestError Dispatched × JobStore → Route × ImportState
settle_upload is_removed placed files ((halt e, made), jobs) = (
  (halt (error (upload_status e)), made),
  record { jobs = jobs; files = remove_file is_removed placed files },
)
settle_upload is_removed placed files ((go d, made), jobs) =
    ((go (accepted d), made), record { jobs = jobs; files = files })

-- What is dispatched only after the file was written; what its writing throws is not caught.
abbrev pub place_upload :
    Placing
    → Bool
    → Text
    → Run IngestError Dispatched × JobStore
    → ImportState
    → Route × ImportState
place_upload nowhere is_removed placed run s = ((halt (error 500), []), s)
place_upload partly is_removed placed run s =
    ((halt (error 500), []), record s { files = placed ∷ s.files })
place_upload written is_removed placed run s =
    settle_upload is_removed placed (placed ∷ s.files) run

abbrev pub settle_url : List Text → Run IngestError Dispatched × JobStore → Route × ImportState
settle_url files ((halt e, made), jobs) =
    ((halt (error (url_status e)), made), record { jobs = jobs; files = files })
settle_url files ((go d, made), jobs) =
    ((go (accepted d), made), record { jobs = jobs; files = files })

module _ (w : ImportWorld) (auth : Option AuthContext) where
  unfoldable pub upload_request : Text → UploadForm → UploadedFile → IngestRequest
  upload_request domain form file = record {
    domain = domain;
    source = path (upload_path domain w.file_draw (extension w.to_lower file.name));
    source_label = some (option_or form.source_label file.name);
    tags = some (upload_tags form.tags);
    file_id = some w.file_draw;
    original_filename = some file.name;
    uploaded_by = caller_name auth;
  }

  unfoldable pub url_request : Text → Text → UrlBody → IngestRequest
  url_request domain address body = record {
    domain = domain;
    source = url address;
    source_label = body.source_label;
    tags = some (option_or body.tags []);
    file_id = none;
    original_filename = none;
    uploaded_by = caller_name auth;
  }

  abbrev dispatched : Text → IngestRequest → JobStore → Run IngestError Dispatched × JobStore
  dispatched name req jobs =
      dispatch w.sidecar w.fresh w.now w.job_draw (w.is_office_file name) req (w.look req.source)
        w.ingest_env jobs

  -- The file that a form carries, where its size is allowed.
  unfoldable pub check_upload : Text → Option UploadForm → Run Answer (UploadForm × UploadedFile)
  check_upload domain form = do
    require_perm auth domain write
    f ← require_some form (error 400)
    file ← require_some f.file (error 400)
    require (leb file.size w.ingest_env.max_bytes) (error 413)
    pass (f, file)

  unfoldable pub upload_checked :
      Text → Run Answer (UploadForm × UploadedFile) → ImportState → Route × ImportState
  upload_checked domain (halt a, made) s = ((halt a, made), s)
  upload_checked domain (go (form, file), made) s =
      let placed = upload_path domain w.file_draw (extension w.to_lower file.name) in
      place_upload w.placing w.is_removed placed
        (dispatched placed (upload_request domain form file) s.jobs) s

  unfoldable pub upload : Text → Option UploadForm → ImportState → Route × ImportState
  upload domain form s = upload_checked domain (check_upload domain form) s

  unfoldable pub check_url : Text → Option UrlBody → Run Answer (UrlBody × Text)
  check_url domain body = do
    require_perm auth domain write
    b ← require_some body (error 400)
    require (not (is_empty (option_or b.url []))) (error 400)
    pass (b, option_or b.url [])

  unfoldable pub url_checked :
      Text → Run Answer (UrlBody × Text) → ImportState → Route × ImportState
  url_checked domain (halt a, made) s = ((halt a, made), s)
  url_checked domain (go (body, address), made) s =
      settle_url s.files (dispatched address (url_request domain address body) s.jobs)

  unfoldable pub import_url : Text → Option UrlBody → ImportState → Route × ImportState
  import_url domain body s = url_checked domain (check_url domain body) s

  unfoldable pub poll_job : Text → Text → JobStore → Route
  poll_job domain id jobs = do
    require_perm auth domain read
    j ← require_some (get_job id jobs) (error 404)
    require (text_eq j.domain domain) (error 404)
    pass (job j)
