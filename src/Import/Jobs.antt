-- ===== src/Import/Jobs.antt =====
-- server/import/jobs.ts. `now` is the time of the call and `fresh` what `crypto.randomUUID` drew;
-- a time is the number of milliseconds that its ISO text stands for. A result is some text.
pub mod Restart
use ob2_turbo_quant.Common.{
  ℕ, ◌-◌, ◌*◌, Bool, true, false, not, ◌&&◌, Option, none, some, List, [], ◌∷◌, ◌++◌, ltb,
  if◌then◌else◌, Text, text_key, text_eq, codes, take, keep, length,
}
use ob2_turbo_quant.Common.JsMap
use ob2_turbo_quant.Common.JsMap.{JsMap}

pub data JobStatus : Type 0 where
  queued converting chunking embedding completed failed interrupted : JobStatus

pub record JobError : Type 0 where
  pub message : Text
  pub type : Text

pub record JobRecord : Type 0 where
  pub id : Text
  pub domain : Text
  pub source_label : Text
  pub status : JobStatus
  pub progress : Option ℕ
  pub result : Option Text
  pub error : Option JobError
  pub created_at : ℕ
  pub updated_at : ℕ

-- The file: missing, no JSON, or the records of `{ jobs }`.
pub data StoreFile : Type 0 where
  missing malformed : StoreFile
  stored : List JobRecord → StoreFile

pub record JobStore : Type 0 where
  pub jobs : JsMap Text JobRecord
  pub loaded : Bool
  pub file : StoreFile

-- Membership in `TERMINAL`.
abbrev pub is_terminal : JobStatus → Bool
is_terminal completed = true
is_terminal failed = true
is_terminal interrupted = true
is_terminal queued = false
is_terminal converting = false
is_terminal chunking = false
is_terminal embedding = false

-- What a restart makes of a job of the file.
unfoldable pub settle : ℕ → JobRecord → JobRecord
settle now j = if is_terminal j.status then j else record j {
  status = interrupted;
  error = some (record {
    message = codes "server restarted while job was in flight";
    type = codes "interrupted";
  });
  updated_at = now;
}

unfoldable pub load_jobs : ℕ → List JobRecord → JsMap Text JobRecord → JsMap Text JobRecord
load_jobs now [] m = m
load_jobs now (j ∷ js) m = load_jobs now js (JsMap.set j.id (settle now j) m)

-- A file that cannot be read is logged and left alone.
unfoldable pub read_jobs : ℕ → StoreFile → JsMap Text JobRecord → JsMap Text JobRecord
read_jobs now missing m = m
read_jobs now malformed m = m
read_jobs now (stored js) m = load_jobs now js m

unfoldable pub init_jobs : ℕ → JobStore → JobStore
unfolding read_jobs
init_jobs now st = record st { jobs = read_jobs now st.file st.jobs; loaded = true }

unfoldable pub persist : JobStore → JobStore
persist st = record st { file = stored (JsMap.values st.jobs) }

abbrev day_ms : ℕ
day_ms = 24 * 60 * 60 * 1000

-- Kept by a sweep: in flight, or changed in the last 24 hours. A store without an expired job is not
-- written.
abbrev pub is_fresh : ℕ → JobRecord → Bool
is_fresh now j = not (is_terminal j.status && ltb j.updated_at (now - day_ms))

unfoldable pub sweep : ℕ → JobStore → JobStore
unfolding persist
sweep now st =
    let left = record st { jobs = JsMap.retain (is_fresh now) st.jobs } in
    if ltb (length left.jobs) (length st.jobs) then persist left else left

unfoldable pub create_job : ℕ → Text → Text → Text → JobStore → JobStore × JobRecord
unfolding persist init_jobs
create_job now fresh domain source_label st =
    let st₁ = if st.loaded then st else init_jobs now st in
    let job : JobRecord = record {
      id = codes "imp_" ++ take 12 fresh;
      domain = domain;
      source_label = source_label;
      status = queued;
      progress = none;
      result = none;
      error = none;
      created_at = now;
      updated_at = now;
    } in
    (persist (record st₁ { jobs = JsMap.set job.id job st₁.jobs }), job)

-- `Partial<JobRecord>`. A field that is there sets the job's; `updated_at` is set in any case.
pub record JobPatch : Type 0 where
  pub id : Option Text
  pub domain : Option Text
  pub source_label : Option Text
  pub created_at : Option ℕ
  pub status : Option JobStatus
  pub progress : Option ℕ
  pub result : Option Text
  pub error : Option JobError

abbrev or_old {ℓ} : {A : Type ℓ} → Option A → Option A → Option A
or_old none old = old
or_old (some a) old = some a

abbrev or_same {ℓ} : {A : Type ℓ} → Option A → A → A
or_same none old = old
or_same (some s) old = s

unfoldable pub patch_job : ℕ → JobPatch → JobRecord → JobRecord
patch_job now patch j = record {
  id = or_same patch.id j.id;
  domain = or_same patch.domain j.domain;
  source_label = or_same patch.source_label j.source_label;
  created_at = or_same patch.created_at j.created_at;
  status = or_same patch.status j.status;
  progress = or_old patch.progress j.progress;
  result = or_old patch.result j.result;
  error = or_old patch.error j.error;
  updated_at = now;
}

unfoldable pub update_job : ℕ → Text → JobPatch → JobStore → JobStore × Option JobRecord
unfolding persist
update_job now id patch st = elim (JsMap.get id st.jobs) [
  | none ↦ (st, none)
  | some j ↦
      let next = patch_job now patch j in
      (persist (record st { jobs = JsMap.set id next st.jobs }), some next)
]

unfoldable pub get_job : Text → JobStore → Option JobRecord
get_job id st = JsMap.get id st.jobs

unfoldable pub list_jobs_for_domain : Text → JobStore → List JobRecord
list_jobs_for_domain domain st = keep (λ j. text_eq j.domain domain) (JsMap.values st.jobs)
