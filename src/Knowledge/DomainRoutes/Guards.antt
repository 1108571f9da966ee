-- ===== src/Knowledge/DomainRoutes/Guards.antt =====
-- What the parts of the routes of the domains ask of the sidecar.
use ob2_turbo_quant.Common.{
  ℕ, ◌≡◌, refl, Bool, true, false, not, Option, some, List, [], ◌∷◌, Text, All, Bool-cases, inl,
  inr, if◌then◌else◌, keep, is_empty, leb, option_or,
}
use ob2_turbo_quant.Users.{Permission, read, write, AuthContext, has_permission}
use ob2_turbo_quant.Import.Runner.{IngestError, Dispatched}
use ob2_turbo_quant.Import.Runner.Grants.{dispatch-KeepsTo}
use ob2_turbo_quant.Import.Jobs.{JobStore}
use ob2_turbo_quant.Knowledge.{Request, Reply, Permits, knowledge_stats}
use ob2_turbo_quant.Knowledge.Run.{
  halt, go, Run, ◌>>=◌, ◌>>◌, ask, KeepsTo, ask->>=-KeepsTo, Ends, require-KeepsTo,
  require_some-KeepsTo,
}
use ob2_turbo_quant.Knowledge.DomainRoutes.{Answer, error, require_perm, require_global_admin}
use ob2_turbo_quant.Knowledge.DomainRoutes.Graph
use ob2_turbo_quant.Knowledge.DomainRoutes.Graph.{requested_domains, readable_domains}
use ob2_turbo_quant.Knowledge.DomainRoutes.Imports.{
  ImportState, ImportWorld, UploadForm, UploadedFile, UrlBody, Placing, nowhere, partly, written,
  place_upload, check_upload, upload_checked, check_url, url_checked, settle_upload, settle_url,
  upload_request, url_request,
}

always-Ends : {R A : Type 0} (Q : A → Type 0) (h : (x : A) → Q x) (run : Run R A) → Ends Q run
always-Ends Q h (halt r, made) = tt
always-Ends Q h (go x, made) = h x

abbrev pub alone : {A : Type 0} → A → A × Unit {0}
alone x = (x, tt)

-- What a route of the domains takes of its caller for a request: the counts of one domain take the right
-- to read it, and any other request what the common policy says.
abbrev pub RoutePermits : AuthContext → Request → Type 0
RoutePermits auth (knowledge_stats (some domain)) = has_permission auth domain read ≡ true
RoutePermits auth request = Permits auth request

module _ (auth : AuthContext) where
  pub require_perm-KeepsTo :
      {A : Type 0} (domain : Text) (required : Permission) (next : Run Answer A)
      → (has_permission auth domain required ≡ true → KeepsTo (RoutePermits auth) next)
      → KeepsTo (RoutePermits auth) (require_perm (some auth) domain required >> next)
  unfolding require_perm
  require_perm-KeepsTo domain required next k =
      require-KeepsTo (RoutePermits auth) (has_permission auth domain required) (error 403) next k

  pub require_global_admin-KeepsTo :
      {A : Type 0} (next : Run Answer A)
      → (auth.global_admin ≡ true → KeepsTo (RoutePermits auth) next)
      → KeepsTo (RoutePermits auth) (require_global_admin (some auth) >> next)
  unfolding require_global_admin
  require_global_admin-KeepsTo next k =
      require-KeepsTo (RoutePermits auth) auth.global_admin (error 403) next k

  -- A route that checks a right on its domain, asks, and shows what it got.
  pub perm_ask-KeepsTo :
      {A : Type 0} (sidecar : Request → Option Reply) (domain : Text) (required : Permission)
      (request : Request) (status : ℕ) (f : Reply → Run Answer A)
      → (has_permission auth domain required ≡ true → RoutePermits auth request)
      → ((r : Reply) → KeepsTo (RoutePermits auth) (f r))
      → KeepsTo
          (RoutePermits auth)
          (require_perm (some auth) domain required >> (ask sidecar request (error status) >>= f))
  perm_ask-KeepsTo sidecar domain required request status f h k =
      require_perm-KeepsTo domain required _
        (λ may. ask->>=-KeepsTo (RoutePermits auth) sidecar request (error status) f (h may) k)

  -- One that asks on behalf of a global administrator.
  pub admin_ask-KeepsTo :
      {A : Type 0} (sidecar : Request → Option Reply) (request : Request) (status : ℕ)
      (f : Reply → Run Answer A)
      → (auth.global_admin ≡ true → RoutePermits auth request)
      → ((r : Reply) → KeepsTo (RoutePermits auth) (f r))
      → KeepsTo
          (RoutePermits auth)
          (require_global_admin (some auth) >> (ask sidecar request (error status) >>= f))
  admin_ask-KeepsTo sidecar request status f h k =
      require_global_admin-KeepsTo _
        (λ may. ask->>=-KeepsTo (RoutePermits auth) sidecar request (error status) f (h may) k)

  keep_permitted :
      (ds : List Text)
      → All (λ d. has_permission auth d read ≡ true) (keep (λ d. has_permission auth d read) ds)
  unfolding keep
  keep_permitted [] = tt
  keep_permitted (d ∷ ds) =
      let rest = keep_permitted ds in
      elim (Bool-cases (has_permission auth d read)) [
        | inl may ↦ rw may (may, rest)
        | inr may_not ↦ rw may_not rest
      ]

  readable_by_admin :
      (ds : List Text) → auth.global_admin ≡ true → All (λ d. has_permission auth d read ≡ true) ds
  unfolding has_permission
  readable_by_admin [] h = tt
  readable_by_admin (d ∷ ds) h = (rw h refl, readable_by_admin ds h)

  pub readable_permitted :
      (is_global : Bool) (ds : List Text)
      → auth.global_admin ≡ is_global
      → All
          (λ d. has_permission auth d read ≡ true)
          (if is_global then ds else keep (λ d. has_permission auth d read) ds)
  readable_permitted true ds h = readable_by_admin ds h
  readable_permitted false ds h = keep_permitted ds

  pub overlap_of-KeepsTo :
      (sidecar : Request → Option Reply) (ds : List Text)
      → All (λ d. has_permission auth d read ≡ true) ds
      → KeepsTo (RoutePermits auth) (Graph.overlap_of sidecar (some auth) ds)
  unfolding Graph.overlap_of
  overlap_of-KeepsTo sidecar [] h = tt
  overlap_of-KeepsTo sidecar (d ∷ ds) h =
      ask->>=-KeepsTo (RoutePermits auth) sidecar _ (error 500) _ h (λ r. tt)

  pub both-KeepsTo :
      (sidecar : Request → Option Reply) (domain : Text)
      → has_permission auth domain read ≡ true
      → KeepsTo (RoutePermits auth) (Graph.both sidecar (some auth) domain)
  unfolding Graph.both ask
  both-KeepsTo sidecar domain may = ((may, tt), ((may, tt), tt))

  settle_upload-KeepsTo :
      (is_removed : Bool) (placed : Text) (files : List Text) (run : Run IngestError Dispatched)
      (jobs : JobStore)
      → KeepsTo (RoutePermits auth) run
      → KeepsTo (RoutePermits auth) (settle_upload is_removed placed files (run, jobs)).0
  settle_upload-KeepsTo is_removed placed files (halt e, made) jobs h = h
  settle_upload-KeepsTo is_removed placed files (go d, made) jobs h = h

  place_upload-KeepsTo :
      (placing : Placing) (is_removed : Bool) (placed : Text) (run : Run IngestError Dispatched)
      (jobs : JobStore) (s : ImportState)
      → KeepsTo (RoutePermits auth) run
      → KeepsTo (RoutePermits auth) (place_upload placing is_removed placed (run, jobs) s).0
  place_upload-KeepsTo nowhere is_removed placed run jobs s h = tt
  place_upload-KeepsTo partly is_removed placed run jobs s h = tt
  place_upload-KeepsTo written is_removed placed run jobs s h =
      settle_upload-KeepsTo is_removed placed (placed ∷ s.files) run jobs h

  settle_url-KeepsTo :
      (files : List Text) (run : Run IngestError Dispatched) (jobs : JobStore)
      → KeepsTo (RoutePermits auth) run
      → KeepsTo (RoutePermits auth) (settle_url files (run, jobs)).0
  settle_url-KeepsTo files (halt e, made) jobs h = h
  settle_url-KeepsTo files (go d, made) jobs h = h

  -- What follows a right is reached with that right only.
  pub require_perm-Ends :
      {A : Type 0} (domain : Text) (required : Permission) (next : Run Answer A)
      → Ends
          (λ x. has_permission auth domain required ≡ true)
          (require_perm (some auth) domain required >> next)
  unfolding require_perm
  require_perm-Ends domain required next = elim (Bool-cases (has_permission auth domain required)) [
    | inl may ↦ always-Ends _ (λ x. may) (require_perm (some auth) domain required >> next)
    | inr may_not ↦ rw may_not tt
  ]

  pub check_upload-KeepsTo :
      (w : ImportWorld) (domain : Text) (form : Option UploadForm)
      → KeepsTo (RoutePermits auth) (check_upload w (some auth) domain form)
        × Ends
            (λ x. has_permission auth domain write ≡ true)
            (check_upload w (some auth) domain form)
  unfolding check_upload
  check_upload-KeepsTo w domain form = (
    require_perm-KeepsTo domain write _ (λ may.
        require_some-KeepsTo (RoutePermits auth) form (error 400) _ (λ f e.
          require_some-KeepsTo (RoutePermits auth) f.file (error 400) _ (λ file e'.
            require-KeepsTo (RoutePermits auth) (leb file.size w.ingest_env.max_bytes) (error 413) _
              (λ small. tt)))),
    require_perm-Ends domain write _,
  )

  pub upload_checked-KeepsTo :
      (w : ImportWorld) (domain : Text) (checked : Run Answer (UploadForm × UploadedFile))
      (s : ImportState)
      → KeepsTo (RoutePermits auth) checked
      → Ends (λ x. has_permission auth domain write ≡ true) checked
      → KeepsTo (RoutePermits auth) (upload_checked w (some auth) domain checked s).0
  unfolding upload_checked upload_request
  upload_checked-KeepsTo w domain (halt a, made) s h e = h
  upload_checked-KeepsTo w domain (go (form, file), made) s h may =
      place_upload-KeepsTo w.placing w.is_removed _ _ _ s (
        dispatch-KeepsTo (RoutePermits auth) w.sidecar w.fresh _ (λ source. tt)
          (λ doc_id text tags source metadata. (may, tt)) w.now w.job_draw _ _ w.ingest_env s.jobs)

  pub check_url-KeepsTo :
      (w : ImportWorld) (domain : Text) (body : Option UrlBody)
      → KeepsTo (RoutePermits auth) (check_url w (some auth) domain body)
        × Ends (λ x. has_permission auth domain write ≡ true) (check_url w (some auth) domain body)
  unfolding check_url
  check_url-KeepsTo w domain body = (
    require_perm-KeepsTo domain write _ (λ may.
        require_some-KeepsTo (RoutePermits auth) body (error 400) _ (λ b e.
          require-KeepsTo (RoutePermits auth) (not (is_empty (option_or b.url []))) (error 400) _
            (λ given. tt))),
    require_perm-Ends domain write _,
  )

  pub url_checked-KeepsTo :
      (w : ImportWorld) (domain : Text) (checked : Run Answer (UrlBody × Text)) (s : ImportState)
      → KeepsTo (RoutePermits auth) checked
      → Ends (λ x. has_permission auth domain write ≡ true) checked
      → KeepsTo (RoutePermits auth) (url_checked w (some auth) domain checked s).0
  unfolding url_checked url_request
  url_checked-KeepsTo w domain (halt a, made) s h e = h
  url_checked-KeepsTo w domain (go (body, address), made) s h may = settle_url-KeepsTo _ _ _ (
      dispatch-KeepsTo (RoutePermits auth) w.sidecar w.fresh _ (λ source. tt)
        (λ doc_id text tags source metadata. (may, tt)) w.now w.job_draw _ _ w.ingest_env s.jobs)
