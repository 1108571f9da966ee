-- ===== src/Runtime/Settings.antt =====
-- server/runtime_config.ts: the defaults, and the names of the environment's variables.
use ob2_turbo_quant.Common.{List, [], ◌∷◌, true, false, Text, codes}
use ob2_turbo_quant.Runtime.Values.{
  integer, decimal, bool, num, str, obj, arr, Fields, nothing, entry,
}

-- `ENV_KEYS`: the section, the leaf, and the variable that overrides it.
abbrev pub env_keys : List (Text × Text × Text)
env_keys =
    (codes "llm", codes "provider", codes "OB2_LLM_PROVIDER")
    ∷ (codes "llm", codes "classifier_provider", codes "OB2_LLM_CLASSIFIER_PROVIDER")
    ∷ (codes "ollama", codes "url", codes "OB2_OLLAMA_URL")
    ∷ (codes "ollama", codes "model", codes "OB2_OLLAMA_MODEL")
    ∷ (codes "ollama", codes "classifier_model", codes "OB2_CLASSIFIER_MODEL")
    ∷ (codes "ollama", codes "auto_route", codes "OB2_AUTO_ROUTE")
    ∷ (codes "llamacpp", codes "manager_url", codes "OB2_LLAMACPP_MANAGER_URL")
    ∷ (codes "llamacpp", codes "chat_url", codes "OB2_LLAMACPP_CHAT_URL")
    ∷ (codes "llamacpp", codes "models_dir", codes "OB2_LLAMACPP_MODELS_DIR")
    ∷ (codes "llamacpp", codes "default_model", codes "OB2_LLAMACPP_DEFAULT_MODEL")
    ∷ (codes "llamacpp", codes "ctx_size", codes "OB2_LLAMACPP_CTX_SIZE")
    ∷ (codes "llamacpp", codes "gpu_layers", codes "OB2_LLAMACPP_GPU_LAYERS")
    ∷ (codes "llamacpp", codes "parallel_slots", codes "OB2_LLAMACPP_PARALLEL_SLOTS")
    ∷ (codes "openai", codes "base_url", codes "OB2_OPENAI_BASE_URL")
    ∷ (codes "openai", codes "model", codes "OB2_OPENAI_MODEL")
    ∷ (codes "openai", codes "classifier_model", codes "OB2_OPENAI_CLASSIFIER_MODEL")
    ∷ (codes "anthropic", codes "base_url", codes "OB2_ANTHROPIC_BASE_URL")
    ∷ (codes "anthropic", codes "model", codes "OB2_ANTHROPIC_MODEL")
    ∷ (codes "anthropic", codes "classifier_model", codes "OB2_ANTHROPIC_CLASSIFIER_MODEL")
    ∷ (codes "anthropic", codes "max_tokens", codes "OB2_ANTHROPIC_MAX_TOKENS")
    ∷ (codes "anthropic", codes "api_version", codes "OB2_ANTHROPIC_API_VERSION")
    ∷ (codes "anthropic", codes "prompt_caching", codes "OB2_ANTHROPIC_PROMPT_CACHING")
    ∷ (codes "gemini", codes "base_url", codes "OB2_GEMINI_BASE_URL")
    ∷ (codes "gemini", codes "model", codes "OB2_GEMINI_MODEL")
    ∷ (codes "gemini", codes "classifier_model", codes "OB2_GEMINI_CLASSIFIER_MODEL")
    ∷ (codes "embedder", codes "model", codes "OB2_EMBEDDING_MODEL")
    ∷ (codes "embedder", codes "dim", codes "OB2_EMBEDDING_DIM")
    ∷ (codes "embedder", codes "batch_flush_ms", codes "OB2_BATCH_FLUSH_MS")
    ∷ (codes "embedder", codes "batch_max_size", codes "OB2_BATCH_MAX_SIZE")
    ∷ (codes "sync", codes "interval_sec", codes "OB2_SYNC_INTERVAL_SEC")
    ∷ (codes "sync", codes "batch_size", codes "OB2_SYNC_BATCH_SIZE")
    ∷ (codes "retrieval", codes "default_top_k", codes "OB2_RETRIEVAL_TOP_K")
    ∷ (codes "retrieval", codes "hybrid_alpha", codes "OB2_HYBRID_ALPHA")
    ∷ (codes "retrieval", codes "total_token_budget", codes "OB2_TOTAL_TOKEN_BUDGET")
    ∷ (codes "mail", codes "driver", codes "OB2_SMTP_DRIVER")
    ∷ (codes "mail", codes "host", codes "OB2_SMTP_HOST")
    ∷ (codes "mail", codes "port", codes "OB2_SMTP_PORT")
    ∷ (codes "mail", codes "user", codes "OB2_SMTP_USER")
    ∷ (codes "mail", codes "pass", codes "OB2_SMTP_PASS")
    ∷ (codes "mail", codes "secure", codes "OB2_SMTP_SECURE")
    ∷ (codes "mail", codes "from", codes "OB2_SMTP_FROM")
    ∷ (codes "mail", codes "public_url", codes "OB2_PUBLIC_URL")
    ∷ (codes "graph", codes "enabled", codes "OB2_GRAPH_ENABLED")
    ∷ (codes "graph", codes "extraction_enabled", codes "OB2_GRAPH_EXTRACTION_ENABLED")
    ∷ (codes "graph", codes "extraction_model", codes "OB2_GRAPH_EXTRACTION_MODEL")
    ∷ (codes "graph", codes "extraction_concurrency", codes "OB2_GRAPH_EXTRACTION_CONCURRENCY")
    ∷ (codes "graph", codes "rerank_alpha", codes "OB2_GRAPH_RERANK_ALPHA")
    ∷ (codes "context", codes "show_uploader_in_context", codes "OB2_CONTEXT_SHOW_UPLOADER")
    ∷ []

abbrev llm_defaults : Fields
llm_defaults =
    entry (codes "provider") (str (codes "ollama"))
      (entry (codes "classifier_provider") (str []) nothing)

abbrev ollama_defaults : Fields
ollama_defaults = entry (codes "url") (str (codes "http://localhost:11434")) (
    entry (codes "model") (str (codes "gemma3:4b"))
      (entry (codes "classifier_model") (str []) (entry (codes "auto_route") (bool false) nothing)))

abbrev llamacpp_defaults : Fields
llamacpp_defaults = entry (codes "manager_url") (str (codes "http://localhost:8081")) (
    entry (codes "chat_url") (str (codes "http://localhost:8080")) (
      entry (codes "models_dir") (str (codes "/data/llamacpp/models")) (
        entry (codes "default_model") (str []) (
          entry (codes "ctx_size") (num (integer false 8192)) (
            entry (codes "gpu_layers") (num (integer true 1)) (
              entry (codes "parallel_slots") (num (integer false 1))
                (entry (codes "extra_args") (arr nothing) nothing)))))))

abbrev openai_defaults : Fields
openai_defaults = entry (codes "base_url") (str (codes "https://api.openai.com/v1")) (
    entry (codes "model") (str (codes "gpt-4o-mini"))
      (entry (codes "classifier_model") (str []) nothing))

abbrev anthropic_defaults : Fields
anthropic_defaults = entry (codes "base_url") (str (codes "https://api.anthropic.com")) (
    entry (codes "model") (str (codes "claude-sonnet-4-6")) (
      entry (codes "classifier_model") (str (codes "claude-haiku-4-5")) (
        entry (codes "max_tokens") (num (integer false 4096)) (
          entry (codes "api_version") (str (codes "2023-06-01"))
            (entry (codes "prompt_caching") (bool true) nothing)))))

abbrev gemini_defaults : Fields
gemini_defaults =
    entry (codes "base_url") (str (codes "https://generativelanguage.googleapis.com")) (
      entry (codes "model") (str (codes "gemini-2.0-flash"))
        (entry (codes "classifier_model") (str []) nothing))

abbrev embedder_defaults : Fields
embedder_defaults = entry (codes "model") (str (codes "all-MiniLM-L6-v2")) (
    entry (codes "dim") (num (integer false 384)) (
      entry (codes "batch_flush_ms") (num (integer false 100))
        (entry (codes "batch_max_size") (num (integer false 32)) nothing)))

abbrev sync_defaults : Fields
sync_defaults =
    entry (codes "interval_sec") (num (integer false 5))
      (entry (codes "batch_size") (num (integer false 256)) nothing)

abbrev retrieval_defaults : Fields
retrieval_defaults = entry (codes "default_top_k") (num (integer false 5)) (
    entry (codes "hybrid_alpha") (num (decimal false 65 2))
      (entry (codes "total_token_budget") (num (integer false 2048)) nothing))

abbrev mail_defaults : Fields
mail_defaults = entry (codes "driver") (str []) (
    entry (codes "host") (str []) (
      entry (codes "port") (num (integer false 587)) (
        entry (codes "user") (str []) (
          entry (codes "pass") (str []) (
            entry (codes "secure") (str (codes "starttls"))
              (entry (codes "from") (str []) (entry (codes "public_url") (str []) nothing)))))))

abbrev graph_defaults : Fields
graph_defaults = entry (codes "enabled") (bool false) (
    entry (codes "extraction_enabled") (bool false) (
      entry (codes "extraction_model") (str []) (
        entry (codes "extraction_concurrency") (num (integer false 1))
          (entry (codes "rerank_alpha") (num (decimal false 3 1)) nothing))))

abbrev context_defaults : Fields
context_defaults = entry (codes "show_uploader_in_context") (bool true) nothing

abbrev pub defaults : Fields
defaults = entry (codes "llm") (obj llm_defaults) (
    entry (codes "ollama") (obj ollama_defaults) (
      entry (codes "llamacpp") (obj llamacpp_defaults) (
        entry (codes "openai") (obj openai_defaults) (
          entry (codes "anthropic") (obj anthropic_defaults) (
            entry (codes "gemini") (obj gemini_defaults) (
              entry (codes "embedder") (obj embedder_defaults) (
                entry (codes "sync") (obj sync_defaults) (
                  entry (codes "retrieval") (obj retrieval_defaults) (
                    entry (codes "mail") (obj mail_defaults) (
                      entry (codes "graph") (obj graph_defaults)
                        (entry (codes "context") (obj context_defaults) nothing)))))))))))
