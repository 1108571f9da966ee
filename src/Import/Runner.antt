-- ===== src/Import/Runner.antt =====
-- server/import/runner.ts. `fresh i` is the i-th text that `crypto.randomUUID` draws, and what the
-- file system and the network say of a source is a parameter. An answer is an exception.
pub mod Captures
pub mod Grants
use ob2_turbo_quant.Common.{
  ℕ, suc, Bool, true, false, not, ◌&&◌, ◌||◌, Option, none, some, List, [], ◌∷◌, ◌++◌, ltb, leb,
  if◌then◌else◌, Text, codes, is_empty, option_or, length, starts_with,
}
use ob2_turbo_quant.Import.Chunker.{Chunk, chunk_markdown, default_max_chars, default_overlap}
use ob2_turbo_quant.Import.Jobs.{
  JobRecord, JobStore, JobPatch, JobError, converting, completed, failed, create_job, update_job,
}
use ob2_turbo_quant.Import.Sniffer.{Format, zip, mp3, wav, flac, m4a, ogg, sniff_magic_bytes}
use ob2_turbo_quant.Knowledge.{Request, Reply, ImportMeta, Metadata, convert_to_markdown, capture}
use ob2_turbo_quant.Knowledge.Run.{
  Outcome, halt, go, Run, ◌>>=◌, ◌>>◌, pass, answer, require_some, ask,
}

pub data Source : Type 0 where
  path url : Text → Source

pub record IngestRequest : Type 0 where
  pub domain : Text
  pub source : Source
  pub source_label : Option Text
  pub tags : Option (List Text)
  pub file_id : Option Text
  pub original_filename : Option Text
  pub uploaded_by : Option Text

pub record IngestEnv : Type 0 where
  pub max_bytes : ℕ
  pub sync_threshold_bytes : ℕ

pub record IngestResult : Type 0 where
  pub doc_ids : List Text
  pub source_format : Text
  pub chunks_captured : ℕ
  pub warnings : List Text
  pub file_id : Option Text

-- The exceptions.
pub data IngestError : Type 0 where
  conversion_failed payload_too_large unreadable url_blocked upstream_fetch_failed : IngestError

-- `if (req.x) meta.x = req.x`
abbrev filled : Option Text → Option Text
filled none = none
filled (some t) = if is_empty t then none else some t

unfoldable pub chunk_text : Chunk → Text
chunk_text c = if is_empty c.breadcrumb then c.text else c.breadcrumb ++ (codes "\n\n" ++ c.text)

-- The request for one chunk.
unfoldable pub capture_request : IngestRequest → Text → Text → Text → Chunk → Request
capture_request req format source_label doc_id c =
    capture req.domain doc_id (chunk_text c) (option_or req.tags []) source_label (record {
      uploaded_by = filled req.uploaded_by;
      imported = some (record {
        import_source = source_label;
        import_format = format;
        chunk_index = c.chunk_index;
        chunk_total = c.chunk_total;
        breadcrumb = c.breadcrumb;
        import_file_id = filled req.file_id;
        import_filename = filled req.original_filename;
      });
    })

abbrev pub doc_id_of : (ℕ → Text) → ℕ → Text
doc_id_of fresh i = codes "imp_" ++ fresh i

module _ (sidecar : Request → Option Reply) (fresh : ℕ → Text) where
  -- The loop over the chunks, `i` of them done.
  unfoldable pub capture_from :
      IngestRequest → Text → Text → ℕ → List Chunk → Run IngestError (List Text)
  capture_from req format source_label i [] = pass []
  capture_from req format source_label i (c ∷ cs) = do
    let doc_id = doc_id_of fresh i
    reply ← ask sidecar (capture_request req format source_label doc_id c) conversion_failed
    doc_ids ← capture_from req format source_label (suc i) cs
    pass (doc_id ∷ doc_ids)

  unfoldable pub capture_chunks : IngestRequest → Text → Text → Text → Run IngestError (List Text)
  capture_chunks req markdown format source_label = do
    chunks ←
        require_some (chunk_markdown markdown default_max_chars default_overlap) conversion_failed
    capture_from req format source_label 0 chunks

  unfoldable pub run_ingest : IngestRequest → Text → Text → Run IngestError IngestResult
  run_ingest req resolved_path source_label = do
    conv ← ask sidecar (convert_to_markdown resolved_path) conversion_failed
    ids ← capture_chunks req conv.markdown conv.source_format source_label
    pass (record {
      doc_ids = ids;
      source_format = conv.source_format;
      chunks_captured = length ids;
      warnings = conv.warnings;
      file_id = req.file_id;
    })

-- A source that was looked at.
pub record SniffedSource : Type 0 where
  pub path : Text
  pub sniff : Option Format
  pub size : ℕ
  pub derived_label : Text

-- A file with its size and its first 16 bytes (zeros past its end), or a body that was fetched, with
-- the path it was written to.
pub record Found : Type 0 where
  pub path : Text
  pub size : ℕ
  pub head : List ℕ
  pub derived_label : Text

unfoldable pub sniff_source :
    IngestEnv → Outcome IngestError Found → Outcome IngestError SniffedSource
sniff_source env (halt e) = halt e
sniff_source env (go f) =
    if ltb env.max_bytes f.size
    then halt payload_too_large
    else go (record {
      path = f.path;
      sniff = sniff_magic_bytes f.head;
      size = f.size;
      derived_label = f.derived_label;
    })

-- Membership in `ASYNC_FORMATS`, an Office file apart.
unfoldable pub looks_async : Option Format → Bool → Bool
looks_async none is_office_file = false
looks_async (some zip) is_office_file = not is_office_file
looks_async (some mp3) is_office_file = true
looks_async (some wav) is_office_file = true
looks_async (some flac) is_office_file = true
looks_async (some m4a) is_office_file = true
looks_async (some ogg) is_office_file = true
looks_async (some other) is_office_file = false

unfoldable pub goes_async : IngestEnv → SniffedSource → Bool → Bool
goes_async env s is_office_file =
    ltb env.sync_threshold_bytes s.size || looks_async s.sniff is_office_file

-- `req.source_label || derivedLabel`
unfoldable pub label_of : IngestRequest → SniffedSource → Text
label_of req s =
    let own = option_or req.source_label [] in if is_empty own then s.derived_label else own

-- `dispatch` answers with a result, or with the id of a job that it has created and left to run.
pub data Dispatched : Type 0 where
  ingested : IngestResult → Dispatched
  queued : Text → Dispatched

module _ (sidecar : Request → Option Reply) (fresh : ℕ → Text) where
  -- What follows once the source was looked at.
  unfoldable pub dispatch_sniffed :
      ℕ
      → Text
      → Bool
      → IngestRequest
      → Outcome IngestError SniffedSource
      → IngestEnv
      → JobStore
      → Run IngestError Dispatched × JobStore
  dispatch_sniffed now job_draw is_office_file req (halt e) env jobs = (answer e, jobs)
  dispatch_sniffed now job_draw is_office_file req (go s) env jobs =
      let label = label_of req s in
      let (jobs', job) = create_job now job_draw req.domain label jobs in
      if goes_async env s is_office_file
      then (pass (queued job.id), jobs')
      else (run_ingest sidecar fresh req s.path label >>= λ r. pass (ingested r), jobs)

  -- `is_office_file` is the test of the source's name by the regular expression `officeExt`.
  abbrev pub dispatch :
      ℕ
      → Text
      → Bool
      → IngestRequest
      → Outcome IngestError Found
      → IngestEnv
      → JobStore
      → Run IngestError Dispatched × JobStore
  dispatch now job_draw is_office_file req found env jobs =
      dispatch_sniffed now job_draw is_office_file req (sniff_source env found) env jobs

abbrev no_patch : JobPatch
no_patch = record {
  id = none;
  domain = none;
  source_label = none;
  created_at = none;
  status = none;
  progress = none;
  result = none;
  error = none;
}

-- `encode` is the JSON of a result, `message_of` the message of an exception.
module _ (encode : IngestResult → Text) (message_of : IngestError → Text) where
  unfoldable pub finish_patch : Outcome IngestError IngestResult → JobPatch
  finish_patch (halt e) = record no_patch {
    status = some failed;
    error = some (record { message = message_of e; type = codes "conversion_failed" });
  }
  finish_patch (go r) = record no_patch { status = some completed; result = some (encode r) }

  -- The job left to run: from `start` to `end`, the two times at which it updates its record.
  unfoldable pub run_job :
      (Request → Option Reply)
      → (ℕ → Text)
      → (start end : ℕ) → Text
      → IngestRequest
      → Text
      → Text
      → JobStore
      → List Request × JobStore
  run_job sidecar fresh start end id req resolved_path label jobs =
      let (jobs₁, begun) =
        update_job start id (record no_patch { status = some converting }) jobs in
      let (outcome, made) = run_ingest sidecar fresh req resolved_path label in
      let (jobs₂, finished) = update_job end id (finish_patch outcome) jobs₁ in (made, jobs₂)
