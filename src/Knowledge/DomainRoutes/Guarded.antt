-- ===== src/Knowledge/DomainRoutes/Guarded.antt =====
-- What the routes of the domains ask of the sidecar.
use ob2_turbo_quant.Common.{
  refl, not, ◌&&◌, some, [], is_empty, leb, option_or, trim, text_eq, ◌||◌,
}
use ob2_turbo_quant.Users.{read, admin, AuthContext}
use ob2_turbo_quant.Import.Jobs.{get_job}
use ob2_turbo_quant.Knowledge.Run.{
  KeepsTo, ask->>=-KeepsTo, >>=-KeepsTo, require-KeepsTo, require_some-KeepsTo,
}
use ob2_turbo_quant.Knowledge.DomainRoutes
use ob2_turbo_quant.Knowledge.DomainRoutes.{
  Answer, Route, Guard, error, DomainBody, AliasBody, BundleForm, require_perm,
  require_global_admin, is_domain_name, max_bundle_bytes, import_status,
}
use ob2_turbo_quant.Knowledge.DomainRoutes.Graph
use ob2_turbo_quant.Knowledge.DomainRoutes.Graph.{requested_domains, readable_domains}
use ob2_turbo_quant.Knowledge.DomainRoutes.Imports
use ob2_turbo_quant.Knowledge.DomainRoutes.Guards.{
  RoutePermits, require_perm-KeepsTo, require_global_admin-KeepsTo, perm_ask-KeepsTo,
  admin_ask-KeepsTo, readable_permitted, overlap_of-KeepsTo, both-KeepsTo, check_upload-KeepsTo,
  upload_checked-KeepsTo, check_url-KeepsTo, url_checked-KeepsTo, alone,
}
use ob2_turbo_quant.Knowledge.DomainRoutes.Serve.{
  DomainCall, serve, domains, sync, backfills, add_domain, domain_stats, aliases, remove_domain,
  graph_stats, entities, edges, export_graph, docs, upload, import_url, poll_job, remove_doc,
  entity_docs, add_alias, export_bundle, import_bundle, describe_domain, start_backfill,
  backfill_status, cancel_backfill, overlap,
}
use ob2_turbo_quant.Knowledge.DomainRoutes.Imports.{
  ImportState, ImportWorld, UploadForm, UploadedFile, UrlBody, check_upload, upload_checked,
  check_url, url_checked, settle_upload, settle_url, upload_request, url_request,
}

-- Whatever route of the domains a caller uses, with whatever parameters and body and whatever the
-- sidecar answers, every request that it makes before it answers is one that the caller may make. The
-- counts of a domain take the right to read it; the list of all domains with their counts, and the sync
-- status, are open to every caller. The requests of an import that is queued come later and are not
-- meant.
pub serve-KeepsTo :
    (auth : AuthContext) (w : ImportWorld) (call : DomainCall) (s : ImportState)
    → KeepsTo (RoutePermits auth) (serve w (some auth) call s).0
unfolding serve DomainRoutes.domains DomainRoutes.sync Graph.backfills DomainRoutes.add_domain
    DomainRoutes.domain_stats DomainRoutes.aliases DomainRoutes.remove_domain Graph.graph_stats
    Graph.entities Graph.edges Graph.export_graph DomainRoutes.docs Imports.upload
    Imports.import_url Imports.poll_job DomainRoutes.remove_doc Graph.entity_docs
    DomainRoutes.add_alias DomainRoutes.export_bundle DomainRoutes.import_bundle
    DomainRoutes.describe_domain Graph.start_backfill Graph.backfill_status Graph.cancel_backfill
    Graph.overlap
serve-KeepsTo auth w domains s =
    ask->>=-KeepsTo (RoutePermits auth) w.sidecar _ (error 500) _ tt (λ r. tt)
serve-KeepsTo auth w sync s =
    ask->>=-KeepsTo (RoutePermits auth) w.sidecar _ (error 500) _ tt (λ r. tt)
serve-KeepsTo auth w backfills s = admin_ask-KeepsTo auth w.sidecar _ 500 _ (λ may. may) (λ r. tt)
serve-KeepsTo auth w (add_domain body) s = require_global_admin-KeepsTo auth _ (λ may.
    require_some-KeepsTo (RoutePermits auth) body (error 400) _ (λ b e.
      let domain = w.to_lower (trim (option_or b.domain [])) in
      require-KeepsTo (RoutePermits auth) (not (is_empty domain)) (error 400) _ (λ named.
        require-KeepsTo (RoutePermits auth) (is_domain_name domain) (error 400) _
          (λ valid. ask->>=-KeepsTo (RoutePermits auth) w.sidecar _ (error 500) _ may (λ r. tt)))))
serve-KeepsTo auth w (domain_stats domain) s =
    perm_ask-KeepsTo auth w.sidecar domain read _ 500 _ (λ may. may) (λ r. tt)
serve-KeepsTo auth w (aliases domain) s =
    perm_ask-KeepsTo auth w.sidecar domain read _ 500 _ (λ may. (may, tt)) (λ r. tt)
serve-KeepsTo auth w (remove_domain domain) s =
    perm_ask-KeepsTo auth w.sidecar domain admin _ 500 _ (λ may. (may, tt)) (λ r. tt)
serve-KeepsTo auth w (graph_stats domain) s =
    perm_ask-KeepsTo auth w.sidecar domain read _ 500 _ (λ may. (may, tt)) (λ r. tt)
serve-KeepsTo auth w (entities domain) s =
    perm_ask-KeepsTo auth w.sidecar domain read _ 500 _ (λ may. (may, tt)) (λ r. tt)
serve-KeepsTo auth w (edges domain) s =
    perm_ask-KeepsTo auth w.sidecar domain read _ 500 _ (λ may. (may, tt)) (λ r. tt)
serve-KeepsTo auth w (export_graph domain) s = require_perm-KeepsTo auth domain read _ (λ may.
    >>=-KeepsTo (RoutePermits auth) (Graph.both w.sidecar (some auth) domain) _
      (both-KeepsTo auth w.sidecar domain may) (λ r. tt))
serve-KeepsTo auth w (docs domain limit offset) s = require_perm-KeepsTo auth domain read _ (λ may.
    require_some-KeepsTo (RoutePermits auth) limit (error 400) _ (λ n e.
      require_some-KeepsTo (RoutePermits auth) offset (error 400) _ (λ k e'.
        ask->>=-KeepsTo (RoutePermits auth) w.sidecar _ (error 500) _ (alone may) (λ r. tt))))
serve-KeepsTo auth w (upload domain form) s =
    let (made, ends) = check_upload-KeepsTo auth w domain form in
    upload_checked-KeepsTo auth w domain (check_upload w (some auth) domain form) s made ends
serve-KeepsTo auth w (import_url domain body) s =
    let (made, ends) = check_url-KeepsTo auth w domain body in
    url_checked-KeepsTo auth w domain (check_url w (some auth) domain body) s made ends
serve-KeepsTo auth w (poll_job domain id) s = require_perm-KeepsTo auth domain read _ (λ may.
    require_some-KeepsTo (RoutePermits auth) (get_job id s.jobs) (error 404) _ (λ j e.
      require-KeepsTo (RoutePermits auth) (text_eq j.domain domain) (error 404) _ (λ same. tt)))
serve-KeepsTo auth w (remove_doc domain id) s =
    perm_ask-KeepsTo auth w.sidecar domain admin _ 500 _ (λ may. (may, tt)) (λ r. tt)
serve-KeepsTo auth w (entity_docs domain id) s =
    perm_ask-KeepsTo auth w.sidecar domain read _ 500 _ (λ may. (may, tt)) (λ r. tt)
serve-KeepsTo auth w (add_alias domain body) s = require_perm-KeepsTo auth domain admin _ (λ may.
    require_some-KeepsTo (RoutePermits auth) body (error 400) _ (λ b e.
      require-KeepsTo (RoutePermits auth)
        (not (is_empty (option_or b.alias [])) && not (is_empty (option_or b.canonical [])))
        (error 400) _
        (λ given.
          ask->>=-KeepsTo (RoutePermits auth) w.sidecar _ (error 500) _ (alone may) (λ r. tt))))
serve-KeepsTo auth w (export_bundle domain opens) s =
    perm_ask-KeepsTo auth w.sidecar domain admin _ 500 _ (λ may. (may, tt))
      (λ r.
        require-KeepsTo (RoutePermits auth) r.is_ok _ _
          (λ fine. require-KeepsTo (RoutePermits auth) opens (error 500) _ (λ opened. tt)))
serve-KeepsTo auth w (import_bundle form) s = require_global_admin-KeepsTo auth _ (λ may.
    require_some-KeepsTo (RoutePermits auth) form (error 400) _ (λ f e.
      require_some-KeepsTo (RoutePermits auth) f.bundle_size (error 400) _ (λ size e'.
        let target = w.to_lower (trim (option_or f.target_domain [])) in
        require-KeepsTo (RoutePermits auth) (leb size max_bundle_bytes) (error 413) _ (λ small.
          require-KeepsTo (RoutePermits auth) (is_empty target || is_domain_name target) (error 400)
            _
            (λ valid. ask->>=-KeepsTo (RoutePermits auth) w.sidecar _ (error 500) _ may (λ r.
              require-KeepsTo (RoutePermits auth) r.is_ok (error (import_status r)) _
                (λ fine. tt)))))))
serve-KeepsTo auth w (describe_domain domain body) s =
    require_perm-KeepsTo auth domain admin _ (λ may.
      require_some-KeepsTo (RoutePermits auth) body (error 400) _ (λ b e.
        ask->>=-KeepsTo (RoutePermits auth) w.sidecar _ (error 500) _ (alone may) (λ r. tt)))
serve-KeepsTo auth w (start_backfill domain force) s =
    perm_ask-KeepsTo auth w.sidecar domain admin _ 500 _ (λ may. (may, tt)) (λ r. tt)
serve-KeepsTo auth w (backfill_status job_id) s =
    admin_ask-KeepsTo auth w.sidecar _ 500 _ (λ may. may) (λ r. tt)
serve-KeepsTo auth w (cancel_backfill job_id) s =
    admin_ask-KeepsTo auth w.sidecar _ 500 _ (λ may. may) (λ r. tt)
serve-KeepsTo auth w (overlap query) s =
    require-KeepsTo (RoutePermits auth) _ (error 400) _ (λ given.
      overlap_of-KeepsTo auth w.sidecar (readable_domains auth (requested_domains query))
        (readable_permitted auth auth.global_admin (requested_domains query) refl))
