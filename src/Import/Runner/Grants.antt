-- ===== src/Import/Runner/Grants.antt =====
-- What an import may ask of the sidecar.
use ob2_turbo_quant.Common.{ℕ, suc, Bool, Option, List, [], ◌∷◌, Text, Bool-cases, inl, inr}
use ob2_turbo_quant.Import.Chunker.{Chunk, chunk_markdown, default_max_chars, default_overlap}
use ob2_turbo_quant.Import.Jobs.{JobStore}
use ob2_turbo_quant.Knowledge.{Request, Reply, Metadata, convert_to_markdown, capture}
use ob2_turbo_quant.Knowledge.Run.{
  Outcome, halt, go, pass, KeepsTo, ask->>=-KeepsTo, >>=-KeepsTo, require_some-KeepsTo,
}
use ob2_turbo_quant.Import.Runner.{
  IngestRequest, IngestError, IngestEnv, Found, conversion_failed, capture_request, capture_from,
  capture_chunks, run_ingest, sniff_source, goes_async, label_of, dispatch, dispatch_sniffed,
  SniffedSource, ingested,
}

-- `P` holds of the conversion of a document and of what captures a chunk into the domain.
module _ (P : Request → Type 0) (sidecar : Request → Option Reply) (fresh : ℕ → Text)
    (req : IngestRequest) (converts : (source : Text) → P (convert_to_markdown source))
    (captures : (doc_id text : Text) (tags : List Text) (source : Text) (metadata : Metadata)
      → P (capture req.domain doc_id text tags source metadata)) where
  capture_from-KeepsTo :
      (format source_label : Text) (i : ℕ) (cs : List Chunk)
      → KeepsTo P (capture_from sidecar fresh req format source_label i cs)
  unfolding capture_from capture_request
  capture_from-KeepsTo format source_label i [] = tt
  capture_from-KeepsTo format source_label i (c ∷ cs) =
      ask->>=-KeepsTo P sidecar _ conversion_failed _ (captures _ _ _ _ _) (λ reply.
        >>=-KeepsTo P (capture_from sidecar fresh req format source_label (suc i) cs) _
          (capture_from-KeepsTo format source_label (suc i) cs) (λ doc_ids. tt))

  pub run_ingest-KeepsTo :
      (resolved_path source_label : Text)
      → KeepsTo P (run_ingest sidecar fresh req resolved_path source_label)
  unfolding run_ingest capture_chunks
  run_ingest-KeepsTo resolved_path source_label =
      ask->>=-KeepsTo P sidecar _ conversion_failed _ (converts resolved_path) (λ conv.
        >>=-KeepsTo P
          (capture_chunks sidecar fresh req conv.markdown conv.source_format source_label) _
          (require_some-KeepsTo P (chunk_markdown conv.markdown default_max_chars default_overlap)
            conversion_failed _
            (λ chunks e. capture_from-KeepsTo conv.source_format source_label 0 chunks))
          (λ ids. tt))

  dispatch_sniffed-KeepsTo :
      (now : ℕ) (draw : Text) (is_office_file : Bool) (looked : Outcome IngestError SniffedSource)
      (env : IngestEnv) (jobs : JobStore)
      → KeepsTo P (dispatch_sniffed sidecar fresh now draw is_office_file req looked env jobs).0
  unfolding dispatch_sniffed
  dispatch_sniffed-KeepsTo now draw is_office_file (halt e) env jobs = tt
  dispatch_sniffed-KeepsTo now draw is_office_file (go s) env jobs =
      elim (Bool-cases (goes_async env s is_office_file)) [
        | inl async ↦ rw async tt
        | inr sync ↦ rw sync (
            >>=-KeepsTo P (run_ingest sidecar fresh req s.path (label_of req s))
              (λ r. pass (ingested r)) (run_ingest-KeepsTo s.path (label_of req s)) (λ r. tt))
      ]

  pub dispatch-KeepsTo :
      (now : ℕ) (draw : Text) (is_office_file : Bool) (found : Outcome IngestError Found)
      (env : IngestEnv) (jobs : JobStore)
      → KeepsTo P (dispatch sidecar fresh now draw is_office_file req found env jobs).0
  dispatch-KeepsTo now draw is_office_file found env jobs =
      dispatch_sniffed-KeepsTo now draw is_office_file (sniff_source env found) env jobs
