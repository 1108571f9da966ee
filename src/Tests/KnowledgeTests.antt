-- ===== src/Tests/KnowledgeTests.antt =====
-- server/import/runner.ts, server/routes/mcp.ts and server/routes/gateway.ts at concrete inputs.
use ob2_turbo_quant.Common.{
  ℕ, ◌+◌, length, ◌≡◌, refl, true, false, Option, none, some, List, [], ◌∷◌, ◌++◌, Text, codes, All,
  any, text_eq, is_space,
}
use ob2_turbo_quant.Users.{write, AuthContext, has_permission, granted}
use ob2_turbo_quant.Import.Chunker.{Chunk, chunk_markdown, default_max_chars, default_overlap}
use ob2_turbo_quant.Import.Jobs.{JobStore, missing}
use ob2_turbo_quant.Import.Runner.{path, unreadable, IngestRequest, run_ingest}
use ob2_turbo_quant.Import.Runner.Captures.{
  ids_from, import_requests, run_ingest_complete, run_ingest-prefix,
}
use ob2_turbo_quant.Knowledge.{Request, Reply, Doc, convert_to_markdown}
use ob2_turbo_quant.Knowledge.Run.{go, halt, KeepsTo}
use ob2_turbo_quant.Knowledge.McpTools.{World, drop_domain, call_tool}
use ob2_turbo_quant.Knowledge.McpTools.Guarded.{deletes, call_tool_unconfirmed}
use ob2_turbo_quant.Knowledge.Gateway.{source_lines}
use ob2_turbo_quant.Knowledge.Gateway.Chat.{
  ChatRequest, GatewayEnv, chat_completions, completed, forward,
}
use ob2_turbo_quant.Knowledge.Gateway.Chat.Guarded.{
  MayAsk, named_domain, offline, chat_completions-KeepsTo, chat_completions-offline,
}
use ob2_turbo_quant.Knowledge.Gateway.Prefix.{
  resolve_domain, take_prefix, parse_prefix, at_prefix, name_and_rest, span_name, spaced_rest,
  is_name_char, is_name_start,
}
use ob2_turbo_quant.Knowledge.Gateway.Links.{AreNew, Works, source_lines_sound}
use ob2_turbo_quant.Tests.{test_sign, same_text}

abbrev test_doc : Doc
test_doc = record {
  doc_id = codes "d1";
  content = codes "text";
  source = codes "net";
  tags = [];
  import_file_id = some (codes "f1");
  import_filename = some (codes "a.md");
}

abbrev pub test_reply : Request → Reply
test_reply r = record {
  is_ok = true;
  error = none;
  doc_id = codes "d1";
  domain = codes "net";
  doc_count = some 1;
  exists = some true;
  deleted = true;
  deleted_count = 1;
  unknown_domain = false;
  compressed_text = codes "text";
  docs = test_doc ∷ test_doc ∷ [];
  markdown = codes "# A\nbody";
  source_format = codes "md";
  warnings = [];
  domains = none;
  domain_names = codes "net" ∷ [];
  entities = [];
  edges = [];
}

abbrev pub numbered : ℕ → Text
numbered i = (48 + i) ∷ []

abbrev test_request : IngestRequest
test_request = record {
  domain = codes "net";
  source = path (codes "/data/a.md");
  source_label = none;
  tags = none;
  file_id = some (codes "f1");
  original_filename = none;
  uploaded_by = some (codes "carol");
}

run_ingest_complete_example :
    (cs : List Chunk) × (chunk_markdown (codes "# A\nbody") default_max_chars default_overlap
      ≡ some cs)
    × (run_ingest
          (λ r. some (test_reply r))
          numbered
          test_request
          (codes "/data/a.md")
          (codes "a.md")
        ≡ (
          go (record {
            doc_ids = ids_from numbered test_request (codes "md") (codes "a.md") 0 cs;
            source_format = codes "md";
            chunks_captured =
                length (ids_from numbered test_request (codes "md") (codes "a.md") 0 cs);
            warnings = [];
            file_id = some (codes "f1");
          }),
          import_requests numbered test_request (codes "/data/a.md") (codes "md") (codes "a.md") cs,
        ))
run_ingest_complete_example =
    run_ingest_complete test_reply numbered test_request (codes "/data/a.md") (codes "a.md")

-- A sidecar that converts, and then is gone.
abbrev only_converts : Request → Option Reply
only_converts (convert_to_markdown source) = some (test_reply (convert_to_markdown source))
only_converts _ = none

run_ingest-prefix_example :
    (cs : List Chunk) × (rest : List Request) × (chunk_markdown
        (codes "# A\nbody")
        default_max_chars
        default_overlap
      ≡ some cs)
    × ((run_ingest only_converts numbered test_request (codes "/data/a.md") (codes "a.md")).1
          ++ rest
        ≡ import_requests numbered test_request (codes "/data/a.md") (codes "md") (codes "a.md") cs)
run_ingest-prefix_example =
    run_ingest-prefix only_converts numbered test_request (codes "/data/a.md") (codes "a.md")
      (test_reply (convert_to_markdown (codes "/data/a.md"))) refl

abbrev pub carol : AuthContext
carol = record {
  username = codes "carol";
  email = none;
  global_admin = false;
  domains = (codes "net", write) ∷ [];
  service_only = false;
}

abbrev test_world : World
test_world = record {
  sidecar = λ r. some (test_reply r);
  new_doc_id = codes "n1";
  fresh = numbered;
  chat = λ messages. some (codes "answer");
  is_url = λ t. false;
  real_path = λ t. some t;
  look = λ source. halt unreadable;
  is_office_file = λ t. false;
  ingest_env = record { max_bytes = 1000; sync_threshold_bytes = 100 };
  now = 1;
  job_draw = codes "abcdefghijklmnop";
}

abbrev pub no_jobs : JobStore
no_jobs = record { jobs = []; loaded = true; file = missing }

call_tool_unconfirmed_example :
    KeepsTo
      (λ r. deletes r ≡ false)
      (call_tool test_world (some carol) (drop_domain (codes "net") false) no_jobs).0
call_tool_unconfirmed_example =
    call_tool_unconfirmed test_world (some carol) (drop_domain (codes "net") false) no_jobs refl

abbrev test_gateway : GatewayEnv
test_gateway = record {
  sidecar = λ r. some (test_reply r);
  chat = λ messages. some (codes "answer");
  chat_stream = λ messages. none;
  total_token_budget = 1500;
  sign = test_sign;
  decimal = numbered;
  encode = same_text;
  public_url = codes "https://o";
  now_sec = 100;
  instructions = codes "Use the sources.";
  citing = codes "Cite.";
}

abbrev carol_chat : ChatRequest
carol_chat = record {
  model = [];
  messages = some (record { role = codes "user"; content = codes "@net why?" } ∷ []);
  stream = none;
}

chat_completions-KeepsTo_example :
    KeepsTo
      (MayAsk carol (named_domain (some carol_chat)))
      (chat_completions test_gateway (some carol) (some carol_chat))
chat_completions-KeepsTo_example = chat_completions-KeepsTo test_gateway carol (some carol_chat)

chat_completions-offline_example :
    (chat_completions (offline test_gateway) (some carol) (some carol_chat)).0
    ≡ go (completed (codes "ob2") (codes "answer"))
unfolding resolve_domain take_prefix any text_eq parse_prefix at_prefix name_and_rest is_name_start
    spaced_rest span_name is_name_char is_space has_permission granted forward
chat_completions-offline_example =
    chat_completions-offline test_gateway (some carol) carol_chat
      (record { role = codes "user"; content = codes "@net why?" } ∷ []) refl refl refl

source_lines_sound_example :
    let ls =
      source_lines test_sign numbered same_text
        (codes "https://o")
        100
        []
        (test_doc ∷ test_doc ∷ []) in
    AreNew [] ls
    × All (Works test_sign numbered same_text (codes "https://o") 100 (test_doc ∷ test_doc ∷ [])) ls
source_lines_sound_example =
    source_lines_sound test_sign numbered same_text (codes "https://o") 100
      (test_doc ∷ test_doc ∷ []) refl
