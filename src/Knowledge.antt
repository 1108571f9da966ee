-- ===== src/Knowledge.antt =====
-- The knowledge that the sidecar keeps: what server/routes/mcp.ts, server/routes/gateway.ts and the
-- domain routes of server/routes/admin.ts ask of it, and what a caller must hold for each request.
pub mod Run
pub mod McpTools
pub mod Gateway
pub mod DomainRoutes
pub mod Download
use ob2_turbo_quant.Common.{ℕ, ◌≡◌, Bool, true, false, Option, none, some, List, [], ◌∷◌, Text, All}
use ob2_turbo_quant.Users.{Permission, read, write, admin, AuthContext, has_permission}

-- What a chunk of an imported file carries.
pub record ImportMeta : Type 0 where
  pub import_source : Text
  pub import_format : Text
  pub chunk_index : ℕ
  pub chunk_total : ℕ
  pub breadcrumb : Text
  pub import_file_id : Option Text
  pub import_filename : Option Text

pub record Metadata : Type 0 where
  pub uploaded_by : Option Text
  pub imported : Option ImportMeta

-- The requests by their methods, with the parameters that matter to the callers.
pub data Request : Type 0 where
  convert_to_markdown : (source : Text) → Request
  capture : (domain doc_id text : Text) → (tags : List Text) → (source : Text) → Metadata → Request
  retrieve : (domain query : Text) → (top_k : ℕ) → Request
  knowledge_stats : (domain : Option Text) → Request
  build_context : (domain query : Text) → (budget_tokens : ℕ) → Request
  build_multi_context : (domains : List Text) → (query : Text) → (budget_tokens : ℕ) → Request
  list_domains : Request
  create_domain : (domain description : Text) → Request
  delete_doc : (domain doc_id : Text) → Request
  delete_domain : (domain : Text) → Request
  list_aliases : (domain : Text) → Request
  upsert_alias : (domain alias canonical : Text) → Request
  list_docs : (domain : Text) → (limit offset : ℕ) → Request
  export_domain : (domain : Text) → Request
  import_domain : (target_domain : Option Text) → Request
  set_domain_description : (domain description : Text) → Request
  sync_status : Request
  graph_stats : (domain : Text) → Request
  list_entities : (domain : Text) → Request
  list_edges : (domain : Text) → Request
  docs_for_entity : (domain entity_id : Text) → Request
  graph_backfill_start : (domain : Text) → (force : Bool) → Request
  graph_backfill_status graph_backfill_cancel : (job_id : Text) → Request
  graph_backfill_list : Request
  list_entities_multi : (domains : List Text) → Request

-- What a request takes of its caller.
pub data Need : Type 0 where
  open_to_all : Need
  global_only : Need
  on_each : List Text → Permission → Need

-- The policy, stated once for all routes. The conversion of a file, the counts of documents and the
-- sync status are open to every caller.
abbrev pub needed : Request → Need
needed (convert_to_markdown source) = open_to_all
needed (capture domain doc_id text tags source metadata) = on_each (domain ∷ []) write
needed (retrieve domain query top_k) = on_each (domain ∷ []) read
needed (knowledge_stats domain) = open_to_all
needed (build_context domain query budget_tokens) = on_each (domain ∷ []) read
needed (build_multi_context domains query budget_tokens) = on_each domains read
needed list_domains = global_only
needed (create_domain domain description) = global_only
needed (delete_doc domain doc_id) = on_each (domain ∷ []) admin
needed (delete_domain domain) = on_each (domain ∷ []) admin
needed (list_aliases domain) = on_each (domain ∷ []) read
needed (upsert_alias domain alias canonical) = on_each (domain ∷ []) admin
needed (list_docs domain limit offset) = on_each (domain ∷ []) read
needed (export_domain domain) = on_each (domain ∷ []) admin
needed (import_domain target_domain) = global_only
needed (set_domain_description domain description) = on_each (domain ∷ []) admin
needed sync_status = open_to_all
needed (graph_stats domain) = on_each (domain ∷ []) read
needed (list_entities domain) = on_each (domain ∷ []) read
needed (list_edges domain) = on_each (domain ∷ []) read
needed (docs_for_entity domain entity_id) = on_each (domain ∷ []) read
needed (graph_backfill_start domain force) = on_each (domain ∷ []) admin
needed (graph_backfill_status job_id) = global_only
needed (graph_backfill_cancel job_id) = global_only
needed graph_backfill_list = global_only
needed (list_entities_multi domains) = on_each domains read

abbrev pub Meets : AuthContext → Need → Type 0
Meets auth open_to_all = Unit
Meets auth global_only = auth.global_admin ≡ true
Meets auth (on_each domains perm) = All (λ d. has_permission auth d perm ≡ true) domains

-- The caller holds what the request takes.
abbrev pub Permits : AuthContext → Request → Type 0
Permits auth r = Meets auth (needed r)

-- A message of a chat.
pub record ChatMessage : Type 0 where
  pub role : Text
  pub content : Text

-- What the graph of a domain has: its entities, and the relations between them.
pub record Entity : Type 0 where
  pub entity_id : Text
  pub name : Text
  pub type : Text
  pub mention_count : ℕ

pub record Edge : Type 0 where
  pub src_id : Text
  pub dst_id : Text
  pub relation : Text
  pub weight : Text

-- A document that was retrieved.
pub record Doc : Type 0 where
  pub doc_id : Text
  pub content : Text
  pub source : Text
  pub tags : List Text
  pub import_file_id : Option Text
  pub import_filename : Option Text

-- The fields of a reply that its readers look at; one that a reply lacks is empty, false or `none`.
pub record Reply : Type 0 where
  pub is_ok : Bool
  pub error : Option Text
  pub doc_id : Text
  pub domain : Text
  pub doc_count : Option ℕ
  pub exists : Option Bool
  pub deleted : Bool
  pub deleted_count : ℕ
  pub unknown_domain : Bool
  pub compressed_text : Text
  pub docs : List Doc
  pub markdown : Text
  pub source_format : Text
  pub warnings : List Text
  pub domains : Option (List (Text × ℕ))
  pub domain_names : List Text
  pub entities : List Entity
  pub edges : List Edge
