-- ===== src/Tests/ImportTests.antt =====
-- server/import/ at concrete inputs.
use ob2_turbo_quant.Common.{
  text_key, true, ◌≡◌, refl, none, some, List, [], ◌∷◌, arith, codes, length, trim, trim_start,
  is_space,
}
use mathlib.Core.Option
use ob2_turbo_quant.Common.JsMap
use ob2_turbo_quant.Import.Jobs.{embedding, JobRecord, JobStore, missing, persist, get_job}
use ob2_turbo_quant.Import.Jobs.Restart.{restart, get-restart, expected}
use ob2_turbo_quant.Import.Chunker.{Chunk, cut_from, hard_cut, chunk_markdown}
use ob2_turbo_quant.Import.Chunker.HardCut.{hard_cut-endless}
use ob2_turbo_quant.Import.Chunker.Rejoin.{rejoin, hard_cut-rejoin}
use ob2_turbo_quant.Import.Chunker.Chunks.{AreChunks, chunk_markdown-AreChunks}

hard_cut-endless_example : cut_from 1000 (codes "abc") 2 2 0 ≡ none
hard_cut-endless_example = hard_cut-endless 1000 (codes "abc") 2 2 (omega arith) (omega arith)

hard_cut-rejoin_example : rejoin 1 (codes "abc" ∷ codes "cd" ∷ []) ≡ codes "abcd"
unfolding hard_cut cut_from
hard_cut-rejoin_example =
    hard_cut-rejoin (codes "abcd") 3 1 (codes "abc" ∷ codes "cd" ∷ []) (omega arith) refl

chunk_markdown-AreChunks_example :
    (cs : List Chunk) × (chunk_markdown (codes "# A\nbody text") 4 1 ≡ some cs)
    × AreChunks 4 (length cs) 0 cs
unfolding trim trim_start is_space
chunk_markdown-AreChunks_example =
    chunk_markdown-AreChunks (codes "# A\nbody text") 4 1 (omega arith) refl

abbrev test_job : JobRecord
test_job = record {
  id = codes "imp_1";
  domain = codes "d";
  source_label = codes "f.md";
  status = embedding;
  progress = none;
  result = none;
  error = none;
  created_at = 1;
  updated_at = 2;
}

abbrev test_jobs : JobStore
test_jobs = record { jobs = (codes "imp_1", test_job) ∷ []; loaded = true; file = missing }

get-restart_example :
    get_job (codes "imp_1") (restart 9 (persist test_jobs))
    ≡ Option.map (λ j. expected 9 j.status j) (get_job (codes "imp_1") test_jobs)
unfolding JsMap.get
get-restart_example =
    get-restart 9 (codes "imp_1") test_jobs
      (record { are_keyed = (refl, tt); is_distinct = (refl, tt) })
