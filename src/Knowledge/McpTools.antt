-- ===== src/Knowledge/McpTools.antt =====
-- server/routes/mcp.ts: the seven tools. The caller is `none` where the transport runs a tool
-- without one. A tool's text is given by its template and the values that it shows.
pub mod Guarded
use ob2_turbo_quant.Common.{
  ℕ, Bool, true, false, Option, none, some, List, [], ◌∷◌, ◌++◌, if◌then◌else◌, Text, codes,
  is_empty, option_or, starts_with,
}
use ob2_turbo_quant.Common.JsMap
use ob2_turbo_quant.Users.{Permission, read, write, admin, AuthContext, has_permission}
use ob2_turbo_quant.Import.Runner.{
  Source, path, url, IngestEnv, IngestRequest, IngestResult, IngestError, Found, Dispatched,
  ingested, queued, dispatch,
}
use ob2_turbo_quant.Import.Jobs.{JobStore}
use ob2_turbo_quant.Knowledge
use ob2_turbo_quant.Knowledge.{
  Request, Reply, Doc, ChatMessage, capture, retrieve, build_context, list_domains,
}
use ob2_turbo_quant.Knowledge.Run.{Outcome, halt, go, Run, ◌>>=◌, ◌>>◌, pass, answer, require, ask}

-- The texts of the tools; `failed`, `denied`, `not_global_admin` and `path_outside_volume` are those
-- with `isError`.
pub data ToolResult : Type 0 where
  denied : (username domain : Text) → Permission → ToolResult
  not_global_admin : (username : Text) → ToolResult
  failed : ToolResult
  path_outside_volume : Text → ToolResult
  captured : (domain doc_id : Text) → Option ℕ → ToolResult
  capture_queued : (domain job_id : Text) → ToolResult
  file_captured : (domain : Text) → IngestResult → ToolResult
  unknown_domain : Text → ToolResult
  no_hits : (query domain : Text) → ToolResult
  hits : (domain : Text) → List Doc → ToolResult
  no_domains : ToolResult
  domain_counts : List (Text × ℕ) → ToolResult
  domain_empty : Text → ToolResult
  domain_count : Text → Option ℕ → ToolResult
  grounded : (content : Text) → List Doc → ToolResult
  domain_created : (domain : Text) → Option Text → ToolResult
  confirm_doc : (doc_id domain : Text) → ToolResult
  doc_deleted doc_not_found : (doc_id domain : Text) → ToolResult
  confirm_domain : (domain : Text) → Option ℕ → ToolResult
  domain_deleted : (domain : Text) → ℕ → ToolResult

abbrev pub Tool : Type 0
Tool = Run ToolResult ToolResult

-- The text of the refusal, where there is one.
unfoldable pub check_perm : Option AuthContext → Text → Permission → Option ToolResult
check_perm none domain required = none
check_perm (some auth) domain required =
    if has_permission auth domain required
    then none
    else some (denied auth.username domain required)

unfoldable pub check_global_admin : Option AuthContext → Option ToolResult
check_global_admin none = none
check_global_admin (some auth) =
    if auth.global_admin then none else some (not_global_admin auth.username)

-- `if (denied) return …`
abbrev pub unless : Option ToolResult → Tool → Tool
unless none next = next
unless (some refusal) next = answer refusal

-- `auth?.username`
abbrev pub caller_name : Option AuthContext → Option Text
caller_name none = none
caller_name (some auth) = some auth.username

-- `auth?.username ? { _ob2_uploaded_by: auth.username } : {}`
abbrev pub uploader : Option AuthContext → Option Text
uploader auth = JsMap.kept (λ t. if is_empty t then false else true) (caller_name auth)

-- What the tools take of the rest of the server: the sidecar, the draws of `newDocId` and
-- `crypto.randomUUID`, the chat provider, the file system and the network.
pub record World : Type 0 where
  pub sidecar : Request → Option Reply
  pub new_doc_id : Text
  pub fresh : ℕ → Text
  pub chat : List ChatMessage → Option Text
  pub is_url : Text → Bool
  pub real_path : Text → Option Text
  pub look : Source → Outcome IngestError Found
  pub is_office_file : Text → Bool
  pub ingest_env : IngestEnv
  pub now : ℕ
  pub job_draw : Text

-- The system message of `chat_knowledge`.
abbrev pub grounding : Text → Text
grounding compressed_text =
    codes "Answer using the SOURCES below as ground truth. "
    ++ (codes "If the sources don't contain the answer, say you don't know.\n\n"
        ++ (codes "=== SOURCES ===\n" ++ compressed_text))

-- `… ?? "an unknown number of"`, where the sidecar may not answer.
abbrev pub count_of : Outcome ToolResult Reply → Option ℕ
count_of (halt r) = none
count_of (go stats) = stats.doc_count

module _ (w : World) (auth : Option AuthContext) where
  unfoldable pub capture_knowledge : Text → Text → Option (List Text) → Option Text → Tool
  capture_knowledge domain text tags source = unless (check_perm auth domain write) do
    r ←
        ask w.sidecar
          (capture domain w.new_doc_id text (option_or tags []) (option_or source (codes "user"))
            (record { uploaded_by = uploader auth; imported = none }))
          failed
    pass (captured domain r.doc_id r.doc_count)

  abbrev hits_text : Text → Text → List Doc → ToolResult
  hits_text query domain [] = no_hits query domain
  hits_text query domain (d ∷ ds) = hits domain (d ∷ ds)

  unfoldable pub search_knowledge : Text → Text → ℕ → Tool
  search_knowledge domain query top_k = unless (check_perm auth domain read) do
    r ← ask w.sidecar (retrieve domain query top_k) failed
    pass (if r.unknown_domain then unknown_domain domain else hits_text query domain r.docs)

  abbrev pub stats_text : Option (List (Text × ℕ)) → Option Bool → Text → Option ℕ → ToolResult
  stats_text (some []) exists domain doc_count = no_domains
  stats_text (some (d ∷ ds)) exists domain doc_count = domain_counts (d ∷ ds)
  stats_text none (some false) domain doc_count = domain_empty domain
  stats_text none (some true) domain doc_count = domain_count domain doc_count
  stats_text none none domain doc_count = domain_count domain doc_count

  unfoldable pub knowledge_stats : Option Text → Tool
  knowledge_stats domain = do
    r ←
        ask w.sidecar
          (Knowledge.knowledge_stats (JsMap.kept (λ t. if is_empty t then false else true) domain))
          failed
    pass (stats_text r.domains r.exists r.domain r.doc_count)

  -- The provider's answer, where it gives one.
  abbrev pub synthesized : Option Text → List Doc → Tool
  synthesized none docs = answer failed
  synthesized (some content) docs = pass (grounded content docs)

  unfoldable pub answer_from : Text → Reply → Tool
  answer_from question ctx =
      synthesized
        (w.chat (
          record { role = codes "system"; content = grounding ctx.compressed_text }
          ∷ record { role = codes "user"; content = question }
          ∷ []))
        ctx.docs

  unfoldable pub answer_context : Text → Text → Reply → Tool
  answer_context domain question ctx =
      let synthesis = answer_from question ctx in
      if ctx.unknown_domain
      then pass (unknown_domain domain)
      else if is_empty ctx.compressed_text
      then pass (no_hits question domain)
      else synthesis

  unfoldable pub chat_knowledge : Text → Text → Tool
  chat_knowledge domain question = unless (check_perm auth domain read) do
    ctx ← ask w.sidecar (build_context domain question 1500) failed
    answer_context domain question ctx

  unfoldable pub create_domain : Text → Option Text → Tool
  create_domain domain description = unless (check_global_admin auth) do
    r ← ask w.sidecar (Knowledge.create_domain domain (option_or description [])) failed
    pass (domain_created domain description)

  unfoldable pub delete_doc : Text → Text → Bool → Tool
  delete_doc domain doc_id false =
      unless (check_perm auth domain admin) (pass (confirm_doc doc_id domain))
  delete_doc domain doc_id true = unless (check_perm auth domain admin) do
    r ← ask w.sidecar (Knowledge.delete_doc domain doc_id) failed
    pass (if r.deleted then doc_deleted doc_id domain else doc_not_found doc_id domain)

  unfoldable pub delete_domain : Text → Bool → Tool
  delete_domain domain false =
      let (stats, made) = ask w.sidecar (Knowledge.knowledge_stats (some domain)) failed in
      unless (check_global_admin auth) (go (confirm_domain domain (count_of stats)), made)
  delete_domain domain true = unless (check_global_admin auth) do
    r ← ask w.sidecar (Knowledge.delete_domain domain) failed
    pass (domain_deleted domain r.deleted_count)

  abbrev pub shown : Text → Run IngestError Dispatched → Tool
  shown domain (halt e, made) = (halt failed, made)
  shown domain (go (ingested r), made) = (go (file_captured domain r), made)
  shown domain (go (queued job_id), made) = (go (capture_queued domain job_id), made)

  -- The source of a file must lie under the volume.
  abbrev on_volume : Text → Option Text → Outcome ToolResult Source
  on_volume path_or_url none = halt (path_outside_volume path_or_url)
  on_volume path_or_url (some real) =
      if starts_with (codes "/data/") real
      then go (path real)
      else halt (path_outside_volume path_or_url)

  unfoldable pub locate : Text → Outcome ToolResult Source
  locate path_or_url =
      if w.is_url path_or_url
      then go (url path_or_url)
      else on_volume path_or_url (w.real_path path_or_url)

  abbrev source_name : Source → Text
  source_name (path p) = p
  source_name (url u) = u

  unfoldable pub capture_located :
      Text
      → Option Text
      → Option (List Text)
      → Outcome ToolResult Source
      → JobStore
      → Tool × JobStore
  capture_located domain source_label tags (halt r) jobs = (answer r, jobs)
  capture_located domain source_label tags (go source) jobs =
      let req : IngestRequest = record {
        domain = domain;
        source = source;
        source_label = source_label;
        tags = tags;
        file_id = none;
        original_filename = none;
        uploaded_by = caller_name auth;
      } in
      let (run, jobs') =
        dispatch w.sidecar w.fresh w.now w.job_draw (w.is_office_file (source_name source)) req
          (w.look source) w.ingest_env jobs in
      (shown domain run, jobs')

  unfoldable pub capture_file :
      Text → Text → Option Text → Option (List Text) → JobStore → Tool × JobStore
  capture_file domain path_or_url source_label tags jobs = elim (check_perm auth domain write) [
    | some refusal ↦ (answer refusal, jobs)
    | none ↦ capture_located domain source_label tags (locate path_or_url) jobs
  ]

-- A call of a tool, with its arguments.
pub data ToolCall : Type 0 where
  capture_text : (domain text : Text) → Option (List Text) → Option Text → ToolCall
  capture_source : (domain path_or_url : Text) → Option Text → Option (List Text) → ToolCall
  search : (domain query : Text) → (top_k : ℕ) → ToolCall
  stats : Option Text → ToolCall
  chat : (domain question : Text) → ToolCall
  add_domain : (domain : Text) → Option Text → ToolCall
  drop_doc : (domain doc_id : Text) → (confirmed : Bool) → ToolCall
  drop_domain : (domain : Text) → (confirmed : Bool) → ToolCall

unfoldable pub call_tool : World → Option AuthContext → ToolCall → JobStore → Tool × JobStore
call_tool w auth (capture_text domain text tags source) jobs =
    (capture_knowledge w auth domain text tags source, jobs)
call_tool w auth (capture_source domain path_or_url source_label tags) jobs =
    capture_file w auth domain path_or_url source_label tags jobs
call_tool w auth (search domain query top_k) jobs =
    (search_knowledge w auth domain query top_k, jobs)
call_tool w auth (stats domain) jobs = (knowledge_stats w auth domain, jobs)
call_tool w auth (chat domain question) jobs = (chat_knowledge w auth domain question, jobs)
call_tool w auth (add_domain domain description) jobs =
    (create_domain w auth domain description, jobs)
call_tool w auth (drop_doc domain doc_id confirmed) jobs =
    (delete_doc w auth domain doc_id confirmed, jobs)
call_tool w auth (drop_domain domain confirmed) jobs = (delete_domain w auth domain confirmed, jobs)
