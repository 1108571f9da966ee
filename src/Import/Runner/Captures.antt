-- ===== src/Import/Runner/Captures.antt =====
-- What an import asks of the sidecar.
use ob2_turbo_quant.Common.{
  ℕ, suc, ◌≡◌, refl, Option, some, List, [], ◌∷◌, ◌++◌, Text, arith, length, Option-cases, inl, inr,
  ap, ◌∙◌, append-nil,
}
use ob2_turbo_quant.Import.Chunker.{Chunk, chunk_markdown, default_max_chars, default_overlap}
use ob2_turbo_quant.Import.Chunker.Chunks.{chunk_markdown_total}
use ob2_turbo_quant.Knowledge.{Request, Reply, convert_to_markdown}
use ob2_turbo_quant.Knowledge.Run.{go, ask, made-pass}
use ob2_turbo_quant.Import.Runner.{
  IngestRequest, IngestResult, capture_request, doc_id_of, capture_from, capture_chunks, run_ingest,
}

module _ (fresh : ℕ → Text) (req : IngestRequest) (format source_label : Text) where
  -- The capture of every chunk, in order, under fresh ids.
  pub captures : ℕ → List Chunk → List Request
  captures i [] = []
  captures i (c ∷ cs) =
      capture_request req format source_label (doc_id_of fresh i) c ∷ captures (suc i) cs

  pub ids_from : ℕ → List Chunk → List Text
  ids_from i [] = []
  ids_from i (c ∷ cs) = doc_id_of fresh i ∷ ids_from (suc i) cs

  -- A sidecar that answers everything gets every chunk.
  capture_from-all :
      (reply : Request → Reply) (i : ℕ) (cs : List Chunk)
      → capture_from (λ r. some (reply r)) fresh req format source_label i cs
        ≡ (go (ids_from i cs), captures i cs)
  unfolding capture_from ask captures ids_from
  capture_from-all reply i [] = refl
  capture_from-all reply i (c ∷ cs) =
      rw (capture_from-all reply (suc i) cs) (rw (append-nil (captures (suc i) cs)) refl)

  -- Any other gets a beginning of them.
  capture_from-prefix :
      (sidecar : Request → Option Reply) (i : ℕ) (cs : List Chunk)
      → (rest : List Request) × ((capture_from sidecar fresh req format source_label i cs).1 ++ rest
          ≡ captures i cs)
  unfolding capture_from ask captures
  capture_from-prefix sidecar i [] = ([], refl)
  capture_from-prefix sidecar i (c ∷ cs) =
      let request = capture_request req format source_label (doc_id_of fresh i) c in
      let later = capture_from sidecar fresh req format source_label (suc i) cs in
      let (rest, e) = capture_from-prefix sidecar (suc i) cs in
      elim (Option-cases (sidecar request)) [
        | inl refused ↦ (captures (suc i) cs, rw refused refl)
        | inr (reply, answered) ↦ (
          rest,
          rw answered (
              ap (λ made. request ∷ (made ++ rest))
                (made-pass later (λ doc_ids. doc_id_of fresh i ∷ doc_ids))
              ∙ ap (◌∷◌ request) e),
        )
      ]

-- The requests of a whole import of the document `markdown`.
abbrev pub import_requests :
    (ℕ → Text) → IngestRequest → Text → Text → Text → List Chunk → List Request
import_requests fresh req resolved_path format source_label cs =
    convert_to_markdown resolved_path ∷ captures fresh req format source_label 0 cs

-- A sidecar that answers every request gets the conversion and then every chunk of the converted
-- document, in order and under the ids that the import returns.
pub run_ingest_complete :
    (reply : Request → Reply) (fresh : ℕ → Text) (req : IngestRequest)
    (resolved_path source_label : Text)
    → let conv = reply (convert_to_markdown resolved_path) in
      (cs : List Chunk) × (chunk_markdown conv.markdown default_max_chars default_overlap ≡ some cs)
      × (run_ingest (λ r. some (reply r)) fresh req resolved_path source_label ≡ (
        go (record {
          doc_ids = ids_from fresh req conv.source_format source_label 0 cs;
          source_format = conv.source_format;
          chunks_captured = length (ids_from fresh req conv.source_format source_label 0 cs);
          warnings = conv.warnings;
          file_id = req.file_id;
        }),
        import_requests fresh req resolved_path conv.source_format source_label cs,
      ))
unfolding run_ingest capture_chunks ask
run_ingest_complete reply fresh req resolved_path source_label =
    let conv = reply (convert_to_markdown resolved_path) in
    let (cs, e) =
      chunk_markdown_total conv.markdown default_max_chars default_overlap (omega arith) in
    let result : IngestResult = record {
      doc_ids = ids_from fresh req conv.source_format source_label 0 cs;
      source_format = conv.source_format;
      chunks_captured = length (ids_from fresh req conv.source_format source_label 0 cs);
      warnings = conv.warnings;
      file_id = req.file_id;
    } in
    (
      cs,
      e,
      rw e (
          rw (capture_from-all fresh req conv.source_format source_label reply 0 cs) (
            ap (λ made. (go result, convert_to_markdown resolved_path ∷ made))
              (append-nil (captures fresh req conv.source_format source_label 0 cs)))),
    )

-- Where the sidecar has answered the conversion, and wherever it fails after that, the requests made are
-- a beginning of those of the whole import, which are the conversion and then each chunk of the
-- converted document once and in order.
pub run_ingest-prefix :
    (sidecar : Request → Option Reply) (fresh : ℕ → Text) (req : IngestRequest)
    (resolved_path source_label : Text) (conv : Reply)
    → sidecar (convert_to_markdown resolved_path) ≡ some conv
    → (cs : List Chunk) × (rest : List Request) × (chunk_markdown conv.markdown default_max_chars
          default_overlap
        ≡ some cs)
      × ((run_ingest sidecar fresh req resolved_path source_label).1 ++ rest
          ≡ import_requests fresh req resolved_path conv.source_format source_label cs)
unfolding run_ingest capture_chunks ask
run_ingest-prefix sidecar fresh req resolved_path source_label conv answered =
    let (cs, e) =
      chunk_markdown_total conv.markdown default_max_chars default_overlap (omega arith) in
    let (rest, p) = capture_from-prefix fresh req conv.source_format source_label sidecar 0 cs in
    (
      cs,
      rest,
      e,
      rw (answered, e)
          (ap (λ made. convert_to_markdown resolved_path ∷ (made ++ rest))
              (made-pass (capture_from sidecar fresh req conv.source_format source_label 0 cs) _)
            ∙ ap (◌∷◌ (convert_to_markdown resolved_path)) p),
    )
