-- ===== src/Tests/DomainTests.antt =====
-- The domains' routes of server/routes/admin.ts at concrete inputs.
use ob2_turbo_quant.Common.{
  ℕ, zero, suc, ◌≡◌, refl, arith, true, false, Option, none, some, [], ◌∷◌, ◌⊎◌, Text, codes,
  is_empty, starts_with, find, text_eq,
}
use ob2_turbo_quant.Auth.FileSigning.{sign_file_token, verify_file_token}
use ob2_turbo_quant.Auth.TimingSafe.{timing_safe_equal, diff_from}
use ob2_turbo_quant.Users.{read, AuthContext, has_permission}
use ob2_turbo_quant.Users.Access.{Headers, proceed, bearer_auth}
use ob2_turbo_quant.Import.Runner.{unreadable}
use ob2_turbo_quant.Knowledge.Run.{halt, KeepsTo}
use ob2_turbo_quant.Knowledge.DomainRoutes.Imports
use ob2_turbo_quant.Knowledge.DomainRoutes.Imports.{written, ImportState, ImportWorld, UploadForm}
use ob2_turbo_quant.Knowledge.DomainRoutes.Imports.Uploads.{own_path, FilesAfter, upload-FilesAfter}
use ob2_turbo_quant.Knowledge.DomainRoutes.Serve.{overlap, serve}
use ob2_turbo_quant.Knowledge.DomainRoutes.Guards.{RoutePermits}
use ob2_turbo_quant.Knowledge.DomainRoutes.Guarded.{serve-KeepsTo}
use ob2_turbo_quant.Knowledge.Download
use ob2_turbo_quant.Knowledge.Download.{
  DownloadWorld, LinkQuery, sent, is_signed, find_file, is_file_id, are_groups, after_hex, is_hex,
}
use ob2_turbo_quant.Knowledge.Download.Access.{Holds, download_guarded, download-sign_file_token}
use ob2_turbo_quant.Tests.{test_sign, same_text, test_config, test_server}
use ob2_turbo_quant.Tests.KnowledgeTests.{carol, test_reply, no_jobs, numbered}

abbrev test_imports : ImportWorld
test_imports = record {
  placing = written;
  is_removed = false;
  sidecar = λ r. some (test_reply r);
  to_lower = same_text;
  file_draw = codes "f2";
  fresh = numbered;
  look = λ source. halt unreadable;
  is_office_file = λ t. false;
  ingest_env = record { max_bytes = 1000; sync_threshold_bytes = 100 };
  now = 1;
  job_draw = codes "abcdefghijklmnop";
}

abbrev one_file : ImportState
one_file = record { jobs = no_jobs; files = codes "f1" ∷ [] }

serve-KeepsTo_example :
    KeepsTo
      (RoutePermits carol)
      (serve test_imports (some carol) (overlap (codes "net,hr")) one_file).0
serve-KeepsTo_example = serve-KeepsTo carol test_imports (overlap (codes "net,hr")) one_file

abbrev test_form : UploadForm
test_form = record {
  file = some (record { name = codes "a.md"; size = 5 });
  tags = none;
  source_label = none;
}

upload-FilesAfter_example :
    FilesAfter written false
      (own_path test_imports (codes "net"))
      (some test_form)
      (Imports.upload test_imports (some carol) (codes "net") (some test_form) one_file).0.0
      (codes "f1" ∷ [])
      (Imports.upload test_imports (some carol) (codes "net") (some test_form) one_file).1.files
unfolding text_eq
upload-FilesAfter_example =
    upload-FilesAfter test_imports (some carol) (codes "net") (some test_form) one_file
      (λ ext. (refl, tt))

abbrev test_id : Text
test_id = codes "00000000-0000-0000-0000-000000000000"

-- A number's text is as many zeros, and one more.
abbrev unary : ℕ → Text
unary zero = b'0' ∷ []
unary (suc n) = b'0' ∷ unary n

abbrev unary_value : Text → Option ℕ
unary_value [] = none
unary_value (c ∷ []) = some 0
unary_value (c ∷ d ∷ s) = elim (unary_value (d ∷ s)) [ none ↦ none | some n ↦ some (suc n) ]

unary_value-unary : (n : ℕ) → unary_value (unary n) ≡ some n
unary_value-unary zero = refl
unary_value-unary (suc zero) = refl
unary_value-unary (suc (suc n)) = rw (unary_value-unary (suc n)) refl

unary_is_text : (n : ℕ) → is_empty (unary n) ≡ false
unary_is_text zero = refl
unary_is_text (suc n) = refl

abbrev test_download : DownloadWorld
test_download = record {
  sign_link = test_sign;
  sign = test_sign;
  decimal = unary;
  parse_int = unary_value;
  to_lower = same_text;
  read_dir = λ dir.
      some (record { name = codes "00000000-0000-0000-0000-000000000000.md"; is_file = true } ∷ []);
  config = test_config;
}

abbrev no_headers : Headers
no_headers = record {
  x_brain_key = none;
  cookie = none;
  authorization = none;
  x_ob2_user = none;
  x_openwebui_user_name = none;
}

-- The link signed at 3 for 4 seconds.
abbrev test_link : LinkQuery
test_link = record {
  token = some (test_sign (codes "net|00000000-0000-0000-0000-000000000000|00000000"));
  exp = some (codes "00000000");
}

download-sign_file_token_example :
    Download.download test_download 5 0
      (codes "net")
      test_id
      test_link
      no_headers
      test_server.users
      test_server.sessions
    ≡ (
      find_file test_download test_id (Download.directory test_download (codes "net")),
      test_server.users,
      test_server.sessions,
    )
unfolding sign_file_token is_file_id are_groups after_hex is_hex
download-sign_file_token_example =
    download-sign_file_token test_download 3 4 5 0 (codes "net") test_id no_headers
      test_server.users test_server.sessions (λ payload. refl) unary_is_text unary_value-unary
      (omega arith) refl

download_guarded_example :
    Holds test_download 5 (codes "net") test_id test_link
    ⊎ ((auth : AuthContext) × ((bearer_auth test_sign test_config 0 no_headers test_server.users
            test_server.sessions).0
          ≡ proceed auth)
        × (has_permission auth (codes "net") read ≡ true))
unfolding Download.download is_signed find_file is_file_id are_groups after_hex is_hex
    verify_file_token timing_safe_equal diff_from find starts_with
download_guarded_example =
    download_guarded test_download 5 0 (codes "net") test_id test_link no_headers test_server.users
      test_server.sessions refl
