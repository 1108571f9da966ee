-- ===== src/Knowledge/DomainRoutes/Serve.antt =====
-- server/routes/admin.ts: the routes of the domains together.
use ob2_turbo_quant.Common.{ℕ, Bool, Option, Text}
use ob2_turbo_quant.Users.{AuthContext}
use ob2_turbo_quant.Knowledge.DomainRoutes
use ob2_turbo_quant.Knowledge.DomainRoutes.{Route, DomainBody, AliasBody, BundleForm}
use ob2_turbo_quant.Knowledge.DomainRoutes.Graph
use ob2_turbo_quant.Knowledge.DomainRoutes.Imports
use ob2_turbo_quant.Knowledge.DomainRoutes.Imports.{ImportState, ImportWorld, UploadForm, UrlBody}

-- A call of a route, with its parameters and its body.
pub data DomainCall : Type 0 where
  domains sync backfills : DomainCall
  add_domain : Option DomainBody → DomainCall
  domain_stats aliases remove_domain graph_stats entities edges export_graph :
      (domain : Text) → DomainCall
  docs : (domain : Text) → (limit offset : Option ℕ) → DomainCall
  upload : (domain : Text) → Option UploadForm → DomainCall
  import_url : (domain : Text) → Option UrlBody → DomainCall
  poll_job remove_doc entity_docs : (domain id : Text) → DomainCall
  add_alias : (domain : Text) → Option AliasBody → DomainCall
  export_bundle : (domain : Text) → (opens : Bool) → DomainCall
  import_bundle : Option BundleForm → DomainCall
  describe_domain : (domain : Text) → Option DomainBody → DomainCall
  start_backfill : (domain : Text) → (force : Bool) → DomainCall
  backfill_status cancel_backfill : (job_id : Text) → DomainCall
  overlap : (query : Text) → DomainCall

abbrev still : ImportState → Route → Route × ImportState
still s route = (route, s)

unfoldable pub serve :
    ImportWorld → Option AuthContext → DomainCall → ImportState → Route × ImportState
serve w auth domains s = still s (DomainRoutes.domains w.sidecar w.to_lower auth)
serve w auth sync s = still s (DomainRoutes.sync w.sidecar w.to_lower auth)
serve w auth backfills s = still s (Graph.backfills w.sidecar auth)
serve w auth (add_domain body) s = still s (DomainRoutes.add_domain w.sidecar w.to_lower auth body)
serve w auth (domain_stats domain) s =
    still s (DomainRoutes.domain_stats w.sidecar w.to_lower auth domain)
serve w auth (aliases domain) s = still s (DomainRoutes.aliases w.sidecar w.to_lower auth domain)
serve w auth (remove_domain domain) s =
    still s (DomainRoutes.remove_domain w.sidecar w.to_lower auth domain)
serve w auth (graph_stats domain) s = still s (Graph.graph_stats w.sidecar auth domain)
serve w auth (entities domain) s = still s (Graph.entities w.sidecar auth domain)
serve w auth (edges domain) s = still s (Graph.edges w.sidecar auth domain)
serve w auth (export_graph domain) s = still s (Graph.export_graph w.sidecar auth domain)
serve w auth (docs domain limit offset) s =
    still s (DomainRoutes.docs w.sidecar w.to_lower auth domain limit offset)
serve w auth (upload domain form) s = Imports.upload w auth domain form s
serve w auth (import_url domain body) s = Imports.import_url w auth domain body s
serve w auth (poll_job domain id) s = still s (Imports.poll_job w auth domain id s.jobs)
serve w auth (remove_doc domain id) s =
    still s (DomainRoutes.remove_doc w.sidecar w.to_lower auth domain id)
serve w auth (entity_docs domain id) s = still s (Graph.entity_docs w.sidecar auth domain id)
serve w auth (add_alias domain body) s =
    still s (DomainRoutes.add_alias w.sidecar w.to_lower auth domain body)
serve w auth (export_bundle domain opens) s =
    still s (DomainRoutes.export_bundle w.sidecar w.to_lower auth domain opens)
serve w auth (import_bundle form) s =
    still s (DomainRoutes.import_bundle w.sidecar w.to_lower auth form)
serve w auth (describe_domain domain body) s =
    still s (DomainRoutes.describe_domain w.sidecar w.to_lower auth domain body)
serve w auth (start_backfill domain force) s =
    still s (Graph.start_backfill w.sidecar auth domain force)
serve w auth (backfill_status job_id) s = still s (Graph.backfill_status w.sidecar auth job_id)
serve w auth (cancel_backfill job_id) s = still s (Graph.cancel_backfill w.sidecar auth job_id)
serve w auth (overlap query) s = still s (Graph.overlap w.sidecar auth query)
