-- ===== src/Knowledge/DomainRoutes.antt =====
-- server/routes/admin.ts: the routes of the domains. The caller is `none` where no middleware has
-- set one; `to_lower` is `toLowerCase`. What a sidecar's reply shows is the reply itself.
pub mod Imports
pub mod Graph
pub mod Serve
pub mod Guards
pub mod Guarded
use ob2_turbo_quant.Common.{
  ℕ, Bool, true, false, not, ◌&&◌, ◌||◌, leb, ltb, ◌==◌, ◌*◌, min, Option, none, some, List, [],
  ◌∷◌, ◌++◌, if◌then◌else◌, Text, text_eq, codes, is_empty, option_or, trim, any, map, length,
}
use ob2_turbo_quant.Users.{
  Permission, read, write, admin, Domains, AuthContext, granted, has_permission,
}
use ob2_turbo_quant.Import.Jobs.{JobRecord}
use ob2_turbo_quant.Import.Runner.{Dispatched}
use ob2_turbo_quant.Knowledge
use ob2_turbo_quant.Knowledge.{
  Request, Reply, Entity, Edge, export_domain, import_domain, set_domain_description, sync_status,
}
use ob2_turbo_quant.Knowledge.Run.{
  Outcome, halt, go, Run, ◌>>=◌, ◌>>◌, pass, answer, require, require_some, ask,
}

-- The answers: an error with its status, the sidecar's reply, and what else the routes show.
pub data Answer : Type 0 where
  error : (status : ℕ) → Answer
  shows : (status : ℕ) → Reply → Answer
  ok : Answer
  created : (domain : Text) → Answer
  listed : List (Text × ℕ × Option Permission) → Answer
  job : JobRecord → Answer
  accepted : Dispatched → Answer
  bundle : (domain : Text) → Reply → Answer
  no_overlap : Answer
  gexf : (domain : Text) → List Entity → List Edge → Answer

abbrev pub Route : Type 0
Route = Run Answer Answer

abbrev pub Guard : Type 0
Guard = Run Answer (Unit {0})

-- `requirePerm`
unfoldable pub require_perm : Option AuthContext → Text → Permission → Guard
require_perm none domain required = answer (error 401)
require_perm (some auth) domain required = require (has_permission auth domain required) (error 403)

-- `requireGlobalAdmin`
unfoldable pub require_global_admin : Option AuthContext → Guard
require_global_admin none = answer (error 401)
require_global_admin (some auth) = require auth.global_admin (error 403)

-- `[a-z0-9-]+`, at most 64 characters.
unfoldable pub is_domain_name : Text → Bool
is_domain_name name =
    not (is_empty name)
    && not (any (λ c. not ((leb 97 c && leb c 122) || (leb 48 c && leb c 57) || (c == 45))) name)
    && leb (length name) 64

pub record DomainBody : Type 0 where
  pub domain : Option Text
  pub description : Option Text

pub record AliasBody : Type 0 where
  pub alias : Option Text
  pub canonical : Option Text

-- The upload of a bundle: its size, and the `target_domain` field where it is a text.
pub record BundleForm : Type 0 where
  pub bundle_size : Option ℕ
  pub target_domain : Option Text

abbrev pub is_error : Reply → Text → Bool
is_error r name = elim r.error [ none ↦ false | some e ↦ text_eq e name ]

-- The permission that GET /admin/domains shows next to a domain.
abbrev pub effective_permission : Option AuthContext → Text → Option Permission
effective_permission none domain = none
effective_permission (some auth) domain =
    if auth.global_admin then some admin else granted domain auth.domains

-- The status of a bundle that was refused.
abbrev pub import_status : Reply → ℕ
import_status r =
    if is_error r (codes "domain_exists")
    then 409
    else if is_error r (codes "embedding_model_mismatch")
        || is_error r (codes "embedding_dim_mismatch")
        || is_error r (codes "unsupported_bundle_version")
        || is_error r (codes "bundle_invalid")
        || is_error r (codes "invalid_domain_name")
    then 400
    else 500

abbrev pub max_bundle_bytes : ℕ
max_bundle_bytes = 1024 * 1024 * 1024

module _ (sidecar : Request → Option Reply) (to_lower : Text → Text)
    (auth : Option AuthContext) where
  unfoldable pub domains : Route
  domains = do
    r ← ask sidecar (Knowledge.knowledge_stats none) (error 500)
    pass (
        listed (
          map (λ (name, count). (name, count, effective_permission auth name))
            (option_or r.domains [])))

  -- A body is `none` where it is no JSON.
  unfoldable pub add_domain : Option DomainBody → Route
  add_domain body = do
    require_global_admin auth
    b ← require_some body (error 400)
    let domain = to_lower (trim (option_or b.domain []))
    require (not (is_empty domain)) (error 400)
    require (is_domain_name domain) (error 400)
    r ← ask sidecar (Knowledge.create_domain domain (option_or b.description [])) (error 500)
    pass (if not r.is_ok && is_error r (codes "already_exists") then error 409 else created domain)

  unfoldable pub domain_stats : Text → Route
  domain_stats domain = do
    require_perm auth domain read
    r ← ask sidecar (Knowledge.knowledge_stats (some domain)) (error 500)
    pass (shows 200 r)

  unfoldable pub aliases : Text → Route
  aliases domain = do
    require_perm auth domain read
    r ← ask sidecar (Knowledge.list_aliases domain) (error 500)
    pass (shows 200 r)

  -- `limit` and `offset` are the queries' numbers rounded down, and `none` where they are not finite
  -- or negative.
  unfoldable pub docs : Text → Option ℕ → Option ℕ → Route
  docs domain limit offset = do
    require_perm auth domain read
    n ← require_some limit (error 400)
    k ← require_some offset (error 400)
    r ← ask sidecar (Knowledge.list_docs domain (min 200 n) k) (error 500)
    pass (shows 200 r)

  unfoldable pub add_alias : Text → Option AliasBody → Route
  add_alias domain body = do
    require_perm auth domain admin
    b ← require_some body (error 400)
    require (not (is_empty (option_or b.alias [])) && not (is_empty (option_or b.canonical [])))
        (error 400)
    r ←
        ask sidecar
          (Knowledge.upsert_alias domain (option_or b.alias []) (option_or b.canonical []))
          (error 500)
    pass ok

  unfoldable pub remove_doc : Text → Text → Route
  remove_doc domain id = do
    require_perm auth domain admin
    r ← ask sidecar (Knowledge.delete_doc domain id) (error 500)
    pass (shows 200 r)

  -- `opens` says whether the bundle that the sidecar wrote can be opened.
  unfoldable pub export_bundle : Text → Bool → Route
  export_bundle domain opens = do
    require_perm auth domain admin
    r ← ask sidecar (export_domain domain) (error 500)
    require r.is_ok (error (if is_error r (codes "domain_not_found") then 404 else 400))
    require opens (error 500)
    pass (bundle domain r)

  unfoldable pub import_bundle : Option BundleForm → Route
  import_bundle form = do
    require_global_admin auth
    f ← require_some form (error 400)
    size ← require_some f.bundle_size (error 400)
    require (leb size max_bundle_bytes) (error 413)
    let target = to_lower (trim (option_or f.target_domain []))
    require (is_empty target || is_domain_name target) (error 400)
    r ← ask sidecar (import_domain (if is_empty target then none else some target)) (error 500)
    require r.is_ok (error (import_status r))
    pass (shows 201 r)

  unfoldable pub remove_domain : Text → Route
  remove_domain domain = do
    require_perm auth domain admin
    r ← ask sidecar (Knowledge.delete_domain domain) (error 500)
    pass (shows 200 r)

  unfoldable pub describe_domain : Text → Option DomainBody → Route
  describe_domain domain body = do
    require_perm auth domain admin
    b ← require_some body (error 400)
    r ← ask sidecar (set_domain_description domain (option_or b.description [])) (error 500)
    pass ok

  unfoldable pub sync : Route
  sync = do r ← ask sidecar sync_status (error 500); pass (shows 200 r)
