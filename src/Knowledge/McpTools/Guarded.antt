-- ===== src/Knowledge/McpTools/Guarded.antt =====
-- What a caller makes the tools ask of the sidecar.
use ob2_turbo_quant.Common.{
  ℕ, ◌≡◌, refl, arith, Bool, true, false, Option, none, some, List, Text, Option-cases, inl, inr,
  is_empty,
}
use ob2_turbo_quant.Import.Jobs.{JobStore}
use ob2_turbo_quant.Import.Runner.{IngestError, Dispatched, ingested, queued, Source}
use ob2_turbo_quant.Import.Runner.Grants.{dispatch-KeepsTo}
use ob2_turbo_quant.Users.{read, write, admin, AuthContext}
use ob2_turbo_quant.Knowledge.{
  Request, Reply, Doc, Metadata, convert_to_markdown, capture, retrieve, build_context, delete_doc,
  delete_domain,
}
use ob2_turbo_quant.Knowledge
use ob2_turbo_quant.Knowledge.Run.{
  Outcome, halt, go, Run, KeepsTo, ask-KeepsTo, if-KeepsTo, ask->>=-KeepsTo,
}
use ob2_turbo_quant.Knowledge.McpTools
use ob2_turbo_quant.Knowledge.McpTools.{
  World, Tool, ToolCall, ToolResult, failed, capture_text, capture_source, search, stats, chat,
  add_domain, drop_doc, drop_domain, call_tool, check_perm, check_global_admin, unless,
  capture_knowledge, capture_file, capture_located, locate, search_knowledge, knowledge_stats,
  chat_knowledge, answer_context, answer_from, synthesized, create_domain, shown,
}

module _ (P : Request → Type 0) where
  unless-KeepsTo :
      (refusal : Option ToolResult) (next : Tool)
      → (refusal ≡ none → KeepsTo P next)
      → KeepsTo P (unless refusal next)
  unless-KeepsTo none next k = k refl
  unless-KeepsTo (some r) next k = tt

  shown-KeepsTo :
      (w : World) (auth : Option AuthContext) (domain : Text) (run : Run IngestError Dispatched)
      → KeepsTo P run
      → KeepsTo P (shown w auth domain run)
  shown-KeepsTo w auth domain (halt e, made) h = h
  shown-KeepsTo w auth domain (go (ingested r), made) h = h
  shown-KeepsTo w auth domain (go (queued id), made) h = h

  synthesized-KeepsTo :
      (w : World) (auth : Option AuthContext) (o : Option Text) (docs : List Doc)
      → KeepsTo P (synthesized w auth o docs)
  synthesized-KeepsTo w auth none docs = tt
  synthesized-KeepsTo w auth (some content) docs = tt

  answer_context-KeepsTo :
      (w : World) (auth : Option AuthContext) (domain question : Text) (ctx : Reply)
      → KeepsTo P (answer_context w auth domain question ctx)
  unfolding answer_context answer_from
  answer_context-KeepsTo w auth domain question ctx =
      if-KeepsTo P ctx.unknown_domain _ _ tt
        (if-KeepsTo P (is_empty ctx.compressed_text) _ _ tt (synthesized-KeepsTo w auth _ ctx.docs))

-- The call deletes, and says so.
abbrev confirms : ToolCall → Bool
confirms (capture_text domain text tags source) = false
confirms (capture_source domain path_or_url source_label tags) = false
confirms (search domain query top_k) = false
confirms (stats domain) = false
confirms (chat domain question) = false
confirms (add_domain domain description) = false
confirms (drop_doc domain doc_id confirmed) = confirmed
confirms (drop_domain domain confirmed) = confirmed

-- `P` holds of what the checks let pass.
record Covers (P : Request → Type 0) (auth : Option AuthContext) (confirmed : Bool) : Type 0 where
  converts : (source : Text) → P (convert_to_markdown source)
  counts : (domain : Option Text) → P (Knowledge.knowledge_stats domain)
  writes :
      (domain : Text)
      → check_perm auth domain write ≡ none
      → (doc_id text : Text) (tags : List Text) (source : Text) (metadata : Metadata)
      → P (capture domain doc_id text tags source metadata)
  reads :
      (domain : Text)
      → check_perm auth domain read ≡ none
      → ((query : Text) (top_k : ℕ) → P (retrieve domain query top_k))
        × ((query : Text) (budget : ℕ) → P (build_context domain query budget))
  creates :
      check_global_admin auth ≡ none
      → (domain description : Text) → P (Knowledge.create_domain domain description)
  drops_doc :
      confirmed ≡ true
      → (domain : Text) → check_perm auth domain admin ≡ none
      → (doc_id : Text) → P (Knowledge.delete_doc domain doc_id)
  drops_domain :
      confirmed ≡ true
      → check_global_admin auth ≡ none
      → (domain : Text) → P (Knowledge.delete_domain domain)

module _ (P : Request → Type 0) (w : World) (auth : Option AuthContext) where
  capture_located-KeepsTo :
      (domain : Text) (source_label : Option Text) (tags : Option (List Text))
      (located : Outcome ToolResult Source) (jobs : JobStore)
      → ((source : Text) → P (convert_to_markdown source))
      → ((doc_id text : Text) (tags : List Text) (source : Text) (metadata : Metadata)
          → P (capture domain doc_id text tags source metadata))
      → KeepsTo P (capture_located w auth domain source_label tags located jobs).0
  unfolding capture_located
  capture_located-KeepsTo domain source_label tags (halt r) jobs h k = tt
  capture_located-KeepsTo domain source_label tags (go source) jobs h k =
      shown-KeepsTo P w auth domain _ (
        dispatch-KeepsTo P w.sidecar w.fresh _ h k w.now w.job_draw _ (w.look source) w.ingest_env
          jobs)

  capture_file-KeepsTo :
      (domain path_or_url : Text) (source_label : Option Text) (tags : Option (List Text))
      (jobs : JobStore)
      → ((source : Text) → P (convert_to_markdown source))
      → (check_perm auth domain write ≡ none
          → (doc_id text : Text) (tags : List Text) (source : Text) (metadata : Metadata)
          → P (capture domain doc_id text tags source metadata))
      → KeepsTo P (capture_file w auth domain path_or_url source_label tags jobs).0
  unfolding capture_file
  capture_file-KeepsTo domain path_or_url source_label tags jobs h k =
      elim (Option-cases (check_perm auth domain write)) [
        | inl allowed ↦
            rw (capture_file, allowed)
              (capture_located-KeepsTo domain source_label tags (locate w auth path_or_url) jobs h
                (k allowed))
        | inr (refusal, refused) ↦ rw (capture_file, refused) tt
      ]

  call_tool_covered :
      (call : ToolCall) (jobs : JobStore)
      → Covers P auth (confirms call)
      → KeepsTo P (call_tool w auth call jobs).0
  unfolding call_tool capture_knowledge search_knowledge knowledge_stats chat_knowledge
      create_domain McpTools.delete_doc McpTools.delete_domain
  call_tool_covered (capture_text domain text tags source) jobs c =
      unless-KeepsTo P (check_perm auth domain write) _
        (λ e. ask->>=-KeepsTo P w.sidecar _ failed _ (c.writes domain e _ _ _ _ _) (λ r. tt))
  call_tool_covered (capture_source domain path_or_url source_label tags) jobs c =
      capture_file-KeepsTo domain path_or_url source_label tags jobs c.converts (c.writes domain)
  call_tool_covered (search domain query top_k) jobs c =
      unless-KeepsTo P (check_perm auth domain read) _
        (λ e. ask->>=-KeepsTo P w.sidecar _ failed _ ((c.reads domain e).0 _ _) (λ r. tt))
  call_tool_covered (stats domain) jobs c =
      ask->>=-KeepsTo P w.sidecar _ failed _ (c.counts _) (λ r. tt)
  call_tool_covered (chat domain question) jobs c =
      unless-KeepsTo P (check_perm auth domain read) _ (λ e.
        ask->>=-KeepsTo P w.sidecar _ failed _ ((c.reads domain e).1 _ _)
          (λ ctx. answer_context-KeepsTo P w auth domain question ctx))
  call_tool_covered (add_domain domain description) jobs c =
      unless-KeepsTo P (check_global_admin auth) _
        (λ e. ask->>=-KeepsTo P w.sidecar _ failed _ (c.creates e _ _) (λ r. tt))
  call_tool_covered (drop_doc domain doc_id false) jobs c =
      unless-KeepsTo P (check_perm auth domain admin) _ (λ e. tt)
  call_tool_covered (drop_doc domain doc_id true) jobs c =
      unless-KeepsTo P (check_perm auth domain admin) _
        (λ e. ask->>=-KeepsTo P w.sidecar _ failed _ (c.drops_doc refl domain e _) (λ r. tt))
  call_tool_covered (drop_domain domain false) jobs c =
      unless-KeepsTo P (check_global_admin auth) _
        (λ e. ask-KeepsTo P w.sidecar _ failed (c.counts _))
  call_tool_covered (drop_domain domain true) jobs c =
      unless-KeepsTo P (check_global_admin auth) _
        (λ e. ask->>=-KeepsTo P w.sidecar _ failed _ (c.drops_domain refl e _) (λ r. tt))

abbrev pub deletes : Request → Bool
deletes (delete_doc domain doc_id) = true
deletes (delete_domain domain) = true
deletes _ = false

-- No tool deletes anything unless its call says that the user has confirmed the deletion, whoever
-- calls and whatever the sidecar answers.
pub call_tool_unconfirmed :
    (w : World) (auth : Option AuthContext) (call : ToolCall) (jobs : JobStore)
    → confirms call ≡ false
    → KeepsTo (λ r. deletes r ≡ false) (call_tool w auth call jobs).0
call_tool_unconfirmed w auth call jobs h =
    call_tool_covered (λ r. deletes r ≡ false) w auth call jobs
      (record {
        converts = λ source. refl;
        counts = λ domain. refl;
        writes = λ domain e doc_id text tags source metadata. refl;
        reads = λ domain e. ((λ query top_k. refl), (λ query budget. refl));
        creates = λ e domain description. refl;
        drops_doc = λ c domain e doc_id. ground arith;
        drops_domain = λ c e domain. ground arith;
      })
