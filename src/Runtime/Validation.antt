-- ===== src/Runtime/Validation.antt =====
-- server/runtime_config.ts: `validateRuntime`. False stands for an exception.
use ob2_turbo_quant.Common.{
  ℕ, Bool, true, false, not, ◌&&◌, ◌||◌, ◌^◌, ◌==◌, leb, Option, none, some, List, [], ◌∷◌, Text,
  text_eq, codes, is_empty, any, starts_with,
}
use ob2_turbo_quant.Runtime.Values.{
  Number, integer, decimal, not_a_number, infinity, minus_infinity, Value, null, bool, num, str,
  obj, arr, Fields, nothing, entry, get, is_truthy,
}

-- `names.every(p)`
unfoldable pub every : (Text → Bool) → List Text → Bool
every p [] = true
every p (x ∷ xs) = p x && every p xs

abbrev pub is_object : Value → Bool
is_object (obj fs) = true
is_object (arr fs) = true
is_object null = false
is_object (bool b) = false
is_object (num n) = false
is_object (str t) = false

abbrev pub is_string : Value → Bool
is_string (str t) = true
is_string (obj fs) = false
is_string (arr fs) = false
is_string null = false
is_string (bool b) = false
is_string (num n) = false

abbrev pub is_boolean : Value → Bool
is_boolean (bool b) = true
is_boolean (str t) = false
is_boolean (obj fs) = false
is_boolean (arr fs) = false
is_boolean null = false
is_boolean (num n) = false

-- A number that a test accepts.
abbrev pub is_number_with : (Number → Bool) → Value → Bool
is_number_with p (num n) = p n
is_number_with p (bool b) = false
is_number_with p (str t) = false
is_number_with p (obj fs) = false
is_number_with p (arr fs) = false
is_number_with p null = false

-- `Number.isInteger(n) && n >= least`, for a least integer of at least 0.
unfoldable pub is_integer_from : ℕ → Number → Bool
is_integer_from least (integer true n) = (n == 0) && (least == 0)
is_integer_from least (integer false n) = leb least n
is_integer_from least (decimal sign digits scale) = false
is_integer_from least not_a_number = false
is_integer_from least infinity = false
is_integer_from least minus_infinity = false

-- `Number.isInteger(n) && n >= -1`
unfoldable pub is_layer_count : Number → Bool
is_layer_count (integer true n) = leb n 1
is_layer_count (integer false n) = true
is_layer_count (decimal sign digits scale) = false
is_layer_count not_a_number = false
is_layer_count infinity = false
is_layer_count minus_infinity = false

-- `!(a < 0 || a > 1)`, which what is no number passes.
unfoldable pub is_weight : Number → Bool
is_weight (integer true n) = n == 0
is_weight (integer false n) = leb n 1
is_weight (decimal true digits scale) = digits == 0
is_weight (decimal false digits scale) = leb digits (10 ^ scale)
is_weight not_a_number = true
is_weight infinity = false
is_weight minus_infinity = false

-- `v && !v.startsWith("http://") && !v.startsWith("https://")` throws.
unfoldable pub is_address : Text → Bool
is_address t = is_empty t || starts_with (codes "http://") t || starts_with (codes "https://") t

abbrev pub is_address_value : Value → Bool
is_address_value (str t) = is_address t
is_address_value (obj fs) = true
is_address_value (arr fs) = true
is_address_value null = true
is_address_value (bool b) = true
is_address_value (num n) = true

-- `x !== undefined && !p(x)` throws.
abbrev pub holds_if_set : (Value → Bool) → Option Value → Bool
holds_if_set p none = true
holds_if_set p (some v) = p v

unfoldable pub leaf : (Value → Bool) → Fields → Text → Bool
leaf p fs name = holds_if_set p (get name fs)

-- A text of a list.
abbrev pub is_one_of : List Text → Value → Bool
is_one_of names (str t) = any (text_eq t) names
is_one_of names (obj fs) = false
is_one_of names (arr fs) = false
is_one_of names null = false
is_one_of names (bool b) = false
is_one_of names (num n) = false

abbrev pub any_number : Value → Bool
any_number v = is_number_with (λ n. true) v

unfoldable pub valid_ollama : Fields → Bool
valid_ollama fs =
    holds_if_set (λ v. is_string v || not (is_truthy v)) (get (codes "url") fs)
    && leaf is_boolean fs (codes "auto_route")

unfoldable pub valid_embedder : Fields → Bool
valid_embedder fs =
    every (leaf any_number fs) (codes "dim" ∷ codes "batch_flush_ms" ∷ codes "batch_max_size" ∷ [])

unfoldable pub valid_sync : Fields → Bool
valid_sync fs = every (leaf any_number fs) (codes "interval_sec" ∷ codes "batch_size" ∷ [])

unfoldable pub valid_retrieval : Fields → Bool
valid_retrieval fs =
    leaf (is_number_with is_weight) fs (codes "hybrid_alpha")
    && every (leaf any_number fs) (codes "default_top_k" ∷ codes "total_token_budget" ∷ [])

unfoldable pub valid_mail : Fields → Bool
valid_mail fs =
    leaf (is_one_of ([] ∷ codes "smtp" ∷ codes "log" ∷ [])) fs (codes "driver")
    && leaf (is_one_of (codes "tls" ∷ codes "starttls" ∷ codes "none" ∷ [])) fs (codes "secure")
    && leaf (is_number_with (is_integer_from 1)) fs (codes "port")
    && every (leaf is_string fs)
        (codes "host" ∷ codes "user" ∷ codes "pass" ∷ codes "from" ∷ codes "public_url" ∷ [])
    && leaf is_address_value fs (codes "public_url")

unfoldable pub valid_context : Fields → Bool
valid_context fs = leaf is_boolean fs (codes "show_uploader_in_context")

abbrev pub providers : List Text
providers =
    codes "ollama" ∷ codes "llamacpp" ∷ codes "openai" ∷ codes "anthropic" ∷ codes "gemini" ∷ []

unfoldable pub valid_llm : Fields → Bool
valid_llm fs =
    leaf (is_one_of providers) fs (codes "provider")
    && leaf (is_one_of ([] ∷ providers)) fs (codes "classifier_provider")

-- `validateCloudProvider`
unfoldable pub valid_cloud : Fields → Bool
valid_cloud fs =
    every (leaf is_string fs) (codes "base_url" ∷ codes "model" ∷ codes "classifier_model" ∷ [])
    && leaf is_address_value fs (codes "base_url")

unfoldable pub valid_anthropic : Fields → Bool
valid_anthropic fs =
    leaf (is_number_with (is_integer_from 1)) fs (codes "max_tokens")
    && leaf is_string fs (codes "api_version")
    && leaf is_boolean fs (codes "prompt_caching")

unfoldable pub all_strings : Fields → Bool
all_strings nothing = true
all_strings (entry k v fs) = is_string v && all_strings fs

abbrev pub is_string_array : Value → Bool
is_string_array (arr items) = all_strings items
is_string_array (obj fs) = false
is_string_array (str t) = false
is_string_array null = false
is_string_array (bool b) = false
is_string_array (num n) = false

unfoldable pub valid_llamacpp : Fields → Bool
valid_llamacpp fs =
    every (λ f. leaf is_string fs f && leaf is_address_value fs f)
      (codes "manager_url" ∷ codes "chat_url" ∷ [])
    && every (leaf is_string fs) (codes "models_dir" ∷ codes "default_model" ∷ [])
    && leaf (is_number_with (is_integer_from 1)) fs (codes "ctx_size")
    && leaf (is_number_with is_layer_count) fs (codes "gpu_layers")
    && leaf (is_number_with (is_integer_from 1)) fs (codes "parallel_slots")
    && leaf is_string_array fs (codes "extra_args")

-- A section that is there must be an object, and one that the test accepts.
abbrev pub section_holds : (Fields → Bool) → Option Value → Bool
section_holds p none = true
section_holds p (some (obj fs)) = p fs
section_holds p (some (arr fs)) = p fs
section_holds p (some null) = false
section_holds p (some (bool b)) = false
section_holds p (some (num n)) = false
section_holds p (some (str t)) = false

unfoldable pub section : Fields → Text → (Fields → Bool) → Bool
section c name p = section_holds p (get name c)

-- `validateRuntime` of an object; the order of the tests only decides which message is thrown.
unfoldable pub validate_runtime : Fields → Bool
validate_runtime c =
    section c (codes "ollama") valid_ollama
    && section c (codes "embedder") valid_embedder
    && section c (codes "sync") valid_sync
    && section c (codes "retrieval") valid_retrieval
    && section c (codes "mail") valid_mail
    && section c (codes "context") valid_context
    && section c (codes "llm") valid_llm
    && section c (codes "openai") valid_cloud
    && section c (codes "anthropic") valid_cloud
    && section c (codes "gemini") valid_cloud
    && section c (codes "anthropic") valid_anthropic
    && section c (codes "llamacpp") valid_llamacpp
    && section c (codes "graph") (λ fs. true)
