-- ===== src/Tests/ManagerTests.antt =====
-- llamacpp-manager/ at concrete inputs.
use ob2_turbo_quant.Manager.Models.{
  chunk, Target, Response, pull_from_url, resolve_and_check, download, write_body, is_safe_filename,
  includes, ends_with,
}
use ob2_turbo_quant.Manager.Models.Downloads.{IsPull, pull_from_url-IsPull}
use ob2_turbo_quant.Common.{
  Bool, true, starts_with, any, text_eq, ◌≡◌, ◌≢◌, ◌↔◌, refl, Option, none, some, [], ◌∷◌, ◌++◌,
  Text, codes,
}
use ob2_turbo_quant.Manager.Token.{passed, bearer_auth}
use ob2_turbo_quant.Manager.Token.Laws.{bearer_auth-passed_iff}
use ob2_turbo_quant.Manager.Supervisor.{
  SpawnOpts, SupervisorConfig, Supervisor, spawns, writes_stderr, exits, after_all,
}
use ob2_turbo_quant.Manager.Supervisor.Generations.{after_all_stale}

bearer_auth-passed_iff_example :
    (bearer_auth (some (codes "tok")) (some (codes "Bearer tok")) ≡ passed) ↔ (
      (token : Text) × (◌≡◌ {A = Option Text} (some (codes "tok")) (some token))
      × (token ≢ [])
      × (◌≡◌ {A = Option Text} (some (codes "Bearer tok")) (some (codes "Bearer " ++ token))))
bearer_auth-passed_iff_example =
    bearer_auth-passed_iff (some (codes "tok")) (some (codes "Bearer tok"))

abbrev test_opts : SpawnOpts
test_opts = record {
  filename = codes "m.gguf";
  ctx_size = codes "4096";
  gpu_layers = codes "99";
  parallel_slots = codes "1";
  cache_type_k = none;
  cache_type_v = none;
}

abbrev test_manager : SupervisorConfig
test_manager = record {
  binary = codes "llama-server";
  pre_args = [];
  models_dir = codes "/models";
  chat_port = codes "8080";
}

abbrev idle : Supervisor
idle = record { child = none; state = none; stderr_buf = [] }

abbrev busy : Supervisor
busy = record {
  child = some 8;
  state = some (record { pid = 8; model = codes "m.gguf"; port = codes "8080"; started_at = 2 });
  stderr_buf = [];
}

after_all_stale_example :
    after_all test_manager (writes_stderr 7 (codes "x") ∷ exits 7 ∷ spawns test_opts 9 3 ∷ []) busy
    ≡ busy
after_all_stale_example =
    after_all_stale test_manager (writes_stderr 7 (codes "x") ∷ exits 7 ∷ spawns test_opts 9 3 ∷ [])
      busy (refl, (refl, (tt, tt)))

abbrev local_denied : Text → Bool
local_denied ip = starts_with (codes "127.") ip

abbrev public_target : Target
public_target = record { is_http = true; addresses = some (codes "1.2.3.4" ∷ []) }

abbrev small_response : Response
small_response = record { content_length = 5; body = some (chunk 2 2 ∷ chunk 3 1 ∷ []) }

pull_from_url-IsPull_example :
    IsPull local_denied public_target
      (codes "m.gguf")
      small_response
      (pull_from_url local_denied public_target (codes "m.gguf") small_response []).1
unfolding pull_from_url resolve_and_check download write_body is_safe_filename includes ends_with
    starts_with any text_eq
pull_from_url-IsPull_example =
    pull_from_url-IsPull local_denied public_target (codes "m.gguf") small_response []
      (pull_from_url local_denied public_target (codes "m.gguf") small_response []).1 refl
