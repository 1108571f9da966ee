-- ===== src/Tests.antt =====
-- Sample data, and the theorems applied to it.
mod StreamTests
mod AuthTests
mod UsersTests
mod RoutesTests
mod ImportTests
mod ManagerTests
mod SidecarTests
mod KnowledgeTests
mod DomainTests
mod AdminTests
mod RuntimeTests
use ob2_turbo_quant.Common.{
  ℕ, Bool, true, false, Option, none, some, List, [], ◌∷◌, ◌++◌, Text, text_eq, codes,
}
use ob2_turbo_quant.Auth.Sessions.{SessionEntry, SessionStore}
use ob2_turbo_quant.Auth.ResetTokens
use ob2_turbo_quant.Auth.ResetTokens.{reset, ResetToken, TokenStore}
use ob2_turbo_quant.Users.{UserRecord, Config}
use ob2_turbo_quant.Users.Store.{UserStore, stored}
use ob2_turbo_quant.Routes.Handler.{Server, Platform, Call}

abbrev pub test_argon2id : Text → Text → Text
test_argon2id salt password = salt ++ password

abbrev pub test_argon2_verify : Text → Text → Option Bool
test_argon2_verify hash password = some (text_eq hash (codes "s" ++ password))

abbrev pub test_sign : Text → Text
test_sign payload = codes "h" ++ payload

abbrev pub same_text : Text → Text
same_text s = s

abbrev pub alice : UserRecord
alice = record {
  username = codes "alice";
  key = codes "ka";
  email = some (codes "a@b.c");
  password_hash = some (codes "spassword1");
  global_admin = true;
  domains = [];
  created_at = 1;
  enabled = true;
}

abbrev pub bob : UserRecord
bob = record {
  username = codes "bob";
  key = codes "kb";
  email = none;
  password_hash = none;
  global_admin = false;
  domains = [];
  created_at = 2;
  enabled = true;
}

abbrev pub two_users : List UserRecord
two_users = alice ∷ bob ∷ []

-- The file just written, not yet read.
abbrev pub store_of : List UserRecord → UserStore
store_of us = record {
  users = [];
  last_mtime = 0;
  disk = some (record { mtime = 5; content = stored us });
}

abbrev pub test_config : Config
test_config = record { brain_key = codes "brain"; openwebui_service_token = codes "svc" }

abbrev pub bob_session : SessionEntry
bob_session = record { username = codes "bob"; expires_at = 5000; created_at = 1 }

abbrev pub one_session : SessionStore
one_session = record { sessions = (codes "id", bob_session) ∷ []; ttl_sec = 60 }

abbrev pub bob_token : ResetToken
bob_token = record {
  token_hash = codes "t";
  username = codes "bob";
  kind = reset;
  expires_at = 9000;
  created_at = 1;
}

-- The store as it was read from the file.
abbrev pub one_token : TokenStore
one_token = record {
  tokens = bob_token ∷ [];
  last_mtime = 3;
  loaded = true;
  disk = some (record { mtime = 3; content = ResetTokens.stored (bob_token ∷ []) });
}

abbrev pub test_platform : Platform
test_platform = record {
  sign = test_sign;
  argon2id = test_argon2id;
  argon2_verify = test_argon2_verify;
  sha256_hex = same_text;
  to_lower = same_text;
}

abbrev pub test_call : Call
test_call = record {
  now = 100;
  ip = codes "ip";
  session_id = codes "id2";
  salt = codes "s";
  token_plaintext = codes "t2";
  api_key = codes "k2";
}

abbrev pub test_server : Server
test_server = record {
  users = store_of two_users;
  sessions = one_session;
  buckets = [];
  tokens = one_token;
  outbox = [];
}
