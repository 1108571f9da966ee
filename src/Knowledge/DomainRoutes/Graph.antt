-- ===== src/Knowledge/DomainRoutes/Graph.antt =====
-- server/routes/admin.ts: the routes of the domains' graphs. The limits and filters of the queries
-- only pass through to the sidecar.
use ob2_turbo_quant.Common.{
  Bool, true, false, not, ◌&&◌, Option, List, [], ◌∷◌, if◌then◌else◌, Text, text_eq, codes,
  is_empty, keep, any, trim, map, ◌==◌, ◌++◌,
}
use ob2_turbo_quant.Users.{read, admin, AuthContext, has_permission}
use ob2_turbo_quant.Knowledge
use ob2_turbo_quant.Knowledge.{
  Request, Reply, Entity, Edge, list_entities, list_edges, docs_for_entity, graph_backfill_start,
  graph_backfill_status, graph_backfill_cancel, graph_backfill_list, list_entities_multi,
}
use ob2_turbo_quant.Knowledge.Run.{halt, go, Run, ◌>>=◌, ◌>>◌, pass, require, require_some, ask}
use ob2_turbo_quant.Knowledge.DomainRoutes.{
  Answer, Route, error, shows, no_overlap, gexf, is_error, require_perm, require_global_admin,
}

-- The edges between entities that are exported.
unfoldable pub valid_edges : List Entity → List Edge → List Edge
valid_edges entities edges =
    let known : Text → Bool = λ id. any (λ e. text_eq e.entity_id id) entities in
    keep (λ e. known e.src_id && known e.dst_id) edges

-- `split(",")`, each part trimmed, the empty ones left out.
unfoldable pub split_commas : Text → List Text
split_commas [] = [] ∷ []
split_commas (c ∷ s) =
    let parts = split_commas s in
    if c == 44 then [] ∷ parts else (elim parts [ [] ↦ (c ∷ []) ∷ [] | p ∷ ps ↦ (c ∷ p) ∷ ps ])

abbrev pub requested_domains : Text → List Text
requested_domains query = keep (λ p. not (is_empty p)) (map trim (split_commas query))

abbrev pub readable_domains : AuthContext → List Text → List Text
readable_domains auth requested =
    if auth.global_admin then requested else keep (λ d. has_permission auth d read) requested

module _ (sidecar : Request → Option Reply) (auth : Option AuthContext) where
  unfoldable pub graph_stats : Text → Route
  graph_stats domain = do
    require_perm auth domain read
    r ← ask sidecar (Knowledge.graph_stats domain) (error 500)
    pass (shows 200 r)

  unfoldable pub entities : Text → Route
  entities domain = do
    require_perm auth domain read
    r ← ask sidecar (list_entities domain) (error 500)
    pass (shows 200 r)

  unfoldable pub edges : Text → Route
  edges domain = do
    require_perm auth domain read
    r ← ask sidecar (list_edges domain) (error 500)
    pass (shows 200 r)

  unfoldable pub entity_docs : Text → Text → Route
  entity_docs domain eid = do
    require_perm auth domain read
    r ← ask sidecar (docs_for_entity domain eid) (error 500)
    pass (shows 200 r)

  -- `force` is that of the body, and false without a body.
  unfoldable pub start_backfill : Text → Bool → Route
  start_backfill domain force = do
    require_perm auth domain admin
    r ← ask sidecar (graph_backfill_start domain force) (error 500)
    pass (shows 201 r)

  unfoldable pub backfill_status : Text → Route
  backfill_status job_id = do
    require_global_admin auth
    r ← ask sidecar (graph_backfill_status job_id) (error 500)
    pass (if not r.is_ok && is_error r (codes "not_found") then error 404 else shows 200 r)

  unfoldable pub cancel_backfill : Text → Route
  cancel_backfill job_id = do
    require_global_admin auth
    r ← ask sidecar (graph_backfill_cancel job_id) (error 500)
    pass (if r.is_ok then shows 200 r else error 404)

  unfoldable pub backfills : Route
  backfills = do
    require_global_admin auth
    r ← ask sidecar graph_backfill_list (error 500)
    pass (shows 200 r)

  -- The domains that the caller may read, of those that the query names.
  unfoldable pub overlap_of : List Text → Route
  overlap_of [] = pass no_overlap
  overlap_of (d ∷ ds) = do
    r ← ask sidecar (list_entities_multi (d ∷ ds)) (error 500)
    pass (shows 200 r)

  unfoldable pub overlap : Text → Route
  overlap query = do
    a ← require_some auth (error 401)
    let requested = requested_domains query
    require (elim requested [ [] ↦ false | d ∷ ds ↦ true ]) (error 400)
    overlap_of (readable_domains a requested)

  -- Both requests are made before either reply is awaited.
  unfoldable pub both : Text → Run Answer (Reply × Reply)
  both domain =
      let (first, made) = ask sidecar (list_entities domain) (error 500) in
      let (second, more) = ask sidecar (list_edges domain) (error 500) in
      (
        elim first [ halt e ↦ halt e | go r ↦ elim second [ halt e ↦ halt e | go s ↦ go (r, s) ] ],
        made ++ more,
      )

  unfoldable pub export_graph : Text → Route
  export_graph domain = do
    require_perm auth domain read
    r ← both domain
    pass (gexf domain r.0.entities (valid_edges r.0.entities r.1.edges))
