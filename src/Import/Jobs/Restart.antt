-- ===== src/Import/Jobs/Restart.antt =====
-- What is left of the jobs after the server restarts.
use ob2_turbo_quant.Common.{
  ℕ, ◌≡◌, refl, All, Bool, true, false, Option, none, some, List, [], ◌∷◌, ◌++◌, ltb, if◌then◌else◌,
  Text, text_key, text_eq, text_eq_iff, codes, take, length, arith, Bool-cases, Option-cases, inl,
  inr, ap, ◌∙◌, sym, subst, some_inj,
}
use mathlib.Core.Option
use mathlib.Core.Option.{none-ne-some}
use ob2_turbo_quant.Common.JsMap
use ob2_turbo_quant.Common.JsMap.{JsMap, IsDistinct, get-set, set-IsDistinct, retain-IsDistinct}
use ob2_turbo_quant.Import.Jobs.{
  JobStatus, queued, converting, chunking, embedding, completed, failed, interrupted, JobRecord,
  JobStore, StoreFile, missing, malformed, stored, JobPatch, settle, load_jobs, read_jobs,
  init_jobs, persist, sweep, create_job, patch_job, update_job, get_job, is_fresh,
}

-- Every job stands under its own id.
abbrev pub AreKeyed : JsMap Text JobRecord → Type 0
AreKeyed [] = Unit
AreKeyed ((k, j) ∷ m) = (k ≡ j.id) × AreKeyed m

abbrev pub or_else : Option JobRecord → Option JobRecord → Option JobRecord
or_else none o = o
or_else (some j) o = some j

get-load_jobs :
    (now : ℕ) (id : Text) (m acc : JsMap Text JobRecord)
    → AreKeyed m
    → IsDistinct m
    → JsMap.get id (load_jobs now (JsMap.values m) acc)
      ≡ or_else (Option.map (settle now) (JsMap.get id m)) (JsMap.get id acc)
unfolding load_jobs JsMap.get
get-load_jobs now id [] acc h d = refl
get-load_jobs now id ((k, j) ∷ m) acc (own, h) (fresh, d) =
    let next = JsMap.set j.id (settle now j) acc in
    let rest = get-load_jobs now id m next h d in
    let here = get-set j.id id (settle now j) acc in
    elim (Bool-cases (text_eq k id)) [
      | inl same ↦
          let none_left : JsMap.get id m ≡ none =
            subst (λ t. JsMap.get t m ≡ none) ((text_eq_iff k id).0 same) fresh in
          let found : text_eq j.id id ≡ true = subst (λ t. text_eq t id ≡ true) own same in
          rw (same, rest, none_left, here, found) refl
      | inr other ↦
          let elsewhere : text_eq j.id id ≡ false = subst (λ t. text_eq t id ≡ false) own other in
          rw (other, rest, here, elsewhere) refl
    ]

or_else-none : (o : Option JobRecord) → or_else o none ≡ o
or_else-none none = refl
or_else-none (some j) = refl

settle-id : (now : ℕ) (j : JobRecord) → j.id ≡ (settle now j).id
unfolding settle
settle-id now j = ground arith

-- The jobs stand under their ids, each once.
pub record IsRegistry (st : JobStore) : Type 0 where
  pub are_keyed : AreKeyed st.jobs
  pub is_distinct : IsDistinct st.jobs

-- The server after a restart at `now`: nothing in memory, then `initJobs`.
abbrev pub restart : ℕ → JobStore → JobStore
restart now st = init_jobs now (record { jobs = []; loaded = false; file = st.file })

-- A job that the restart has stopped.
abbrev cut_off : ℕ → JobRecord → JobRecord
cut_off now j = record j {
  status = interrupted;
  error = some (record {
    message = codes "server restarted while job was in flight";
    type = codes "interrupted";
  });
  updated_at = now;
}

-- What the dashboard may expect of a job after a restart, by the status that it had.
abbrev pub expected : ℕ → JobStatus → JobRecord → JobRecord
expected now completed j = j
expected now failed j = j
expected now interrupted j = j
expected now queued j = cut_off now j
expected now converting j = cut_off now j
expected now chunking j = cut_off now j
expected now embedding j = cut_off now j

settled_as :
    (now : ℕ) (status : JobStatus) (j : JobRecord)
    → j.status ≡ status
    → settle now j ≡ expected now status j
unfolding settle
settled_as now completed j e = rw e refl
settled_as now failed j e = rw e refl
settled_as now interrupted j e = rw e refl
settled_as now queued j e = rw e refl
settled_as now converting j e = rw e refl
settled_as now chunking j e = rw e refl
settled_as now embedding j e = rw e refl

settled_all :
    (now : ℕ) (o : Option JobRecord)
    → Option.map (settle now) o ≡ Option.map (λ j. expected now j.status j) o
settled_all now none = refl
settled_all now (some j) = ap (λ x. some x) (settled_as now j.status j refl)

-- Where every job stands under its own id, and each id once, exactly the jobs that were saved are there
-- after a restart. One that had come to an end, with success, with an error or interrupted, is as it
-- was; one that was in any other status is interrupted, with the error and the time that say so, and
-- otherwise as it was.
pub get-restart :
    (now : ℕ) (id : Text) (st : JobStore)
    → IsRegistry st
    → get_job id (restart now (persist st))
      ≡ Option.map (λ j. expected now j.status j) (get_job id st)
unfolding get_job init_jobs persist JsMap.get
get-restart now id st r =
    get-load_jobs now id st.jobs [] r.are_keyed r.is_distinct ∙ or_else-none _ ∙ settled_all now _

set-AreKeyed :
    (j : JobRecord) (k : Text) (m : JsMap Text JobRecord)
    → k ≡ j.id
    → AreKeyed m
    → AreKeyed (JsMap.set k j m)
unfolding JsMap.set
set-AreKeyed j k [] e h = (e, tt)
set-AreKeyed j k ((i, w) ∷ m) e (own, h) = elim (Bool-cases (text_eq i k)) [
  | inl same ↦ rw same (e, h)
  | inr other ↦ rw other (own, set-AreKeyed j k m e h)
]

retain-AreKeyed :
    (p : JobRecord → Bool) (m : JsMap Text JobRecord) → AreKeyed m → AreKeyed (JsMap.retain p m)
unfolding JsMap.retain
retain-AreKeyed p [] h = tt
retain-AreKeyed p ((i, w) ∷ m) (own, h) = elim (Bool-cases (p w)) [
  | inl stays ↦ rw stays (own, retain-AreKeyed p m h)
  | inr goes ↦ rw goes (retain-AreKeyed p m h)
]

set-IsRegistry :
    (j : JobRecord) (k : Text) (st : JobStore) (loaded : Bool) (file : StoreFile)
    → k ≡ j.id
    → IsRegistry st
    → IsRegistry (record { jobs = JsMap.set k j st.jobs; loaded = loaded; file = file })
set-IsRegistry j k st loaded file e r = record {
  are_keyed = set-AreKeyed j k st.jobs e r.are_keyed;
  is_distinct = set-IsDistinct k j st.jobs r.is_distinct;
}

load_jobs-IsRegistry :
    (now : ℕ) (js : List JobRecord) (m : JsMap Text JobRecord) (file : StoreFile)
    → AreKeyed m
    → IsDistinct m
    → IsRegistry (record { jobs = load_jobs now js m; loaded = true; file = file })
unfolding load_jobs settle
load_jobs-IsRegistry now [] m file h d = record { are_keyed = h; is_distinct = d }
load_jobs-IsRegistry now (j ∷ js) m file h d =
    load_jobs-IsRegistry now js (JsMap.set j.id (settle now j) m) file
      (set-AreKeyed (settle now j) j.id m (settle-id now j) h)
      (set-IsDistinct j.id (settle now j) m d)

read_jobs-IsRegistry :
    (now : ℕ) (file kept_file : StoreFile) (m : JsMap Text JobRecord)
    → AreKeyed m
    → IsDistinct m
    → IsRegistry (record { jobs = read_jobs now file m; loaded = true; file = kept_file })
unfolding read_jobs
read_jobs-IsRegistry now missing kept_file m h d = record { are_keyed = h; is_distinct = d }
read_jobs-IsRegistry now malformed kept_file m h d = record { are_keyed = h; is_distinct = d }
read_jobs-IsRegistry now (stored js) kept_file m h d = load_jobs-IsRegistry now js m kept_file h d

init_jobs-IsRegistry : (now : ℕ) (st : JobStore) → IsRegistry st → IsRegistry (init_jobs now st)
unfolding init_jobs
init_jobs-IsRegistry now st r =
    read_jobs-IsRegistry now st.file st.file st.jobs r.are_keyed r.is_distinct

-- The operations of the registry, and a restart of the server.
pub data JobEvent : Type 0 where
  creates : Text → Text → Text → JobEvent
  updates : Text → JobPatch → JobEvent
  sweeps : JobEvent
  restarts : JobEvent

unfoldable pub after : ℕ → JobEvent → JobStore → JobStore
after now (creates fresh domain source_label) st = (create_job now fresh domain source_label st).0
after now (updates id patch) st = (update_job now id patch st).0
after now sweeps st = sweep now st
after now restarts st = restart now st

unfoldable pub after_all : List (ℕ × JobEvent) → JobStore → JobStore
after_all [] st = st
after_all ((now, e) ∷ es) st = after_all es (after now e st)

start-IsRegistry :
    (now : ℕ) (b : Bool) (st : JobStore)
    → IsRegistry st
    → IsRegistry (if b then st else init_jobs now st)
start-IsRegistry now true st r = r
start-IsRegistry now false st r = init_jobs-IsRegistry now st r

found_key :
    (id : Text) (m : JsMap Text JobRecord) (j : JobRecord)
    → AreKeyed m
    → JsMap.get id m ≡ some j
    → id ≡ j.id
unfolding JsMap.get
found_key id [] j h = λ e. absurd (none-ne-some j e)
found_key id ((k, v) ∷ m) j (own, h) = elim (Bool-cases (text_eq k id)) [
  | inl same ↦
      rw same (λ e. sym ((text_eq_iff k id).0 same) ∙ own ∙ ap (λ x. x.id) (some_inj v j e))
  | inr other ↦ rw other (λ e. found_key id m j h e)
]

update_job-IsRegistry :
    (now : ℕ) (id : Text) (patch : JobPatch) (st : JobStore)
    → patch.id ≡ none
    → IsRegistry st
    → IsRegistry (update_job now id patch st).0
unfolding update_job patch_job
update_job-IsRegistry now id patch st same r = elim (Option-cases (JsMap.get id st.jobs)) [
  | inl absent ↦ rw (update_job, absent) r
  | inr (j, found) ↦
      rw (update_job, found)
        (set-IsRegistry (patch_job now patch j) id st _ _
          (rw same (found_key id st.jobs j r.are_keyed found)) r)
]

-- An update that leaves the id as it is, as all of the importer's do.
abbrev pub LeavesId : JobEvent → Type 0
LeavesId (creates fresh domain source_label) = Unit
LeavesId (updates id patch) = patch.id ≡ none
LeavesId sweeps = Unit
LeavesId restarts = Unit

after-IsRegistry :
    (now : ℕ) (e : JobEvent) (st : JobStore)
    → LeavesId e
    → IsRegistry st
    → IsRegistry (after now e st)
unfolding after create_job sweep
after-IsRegistry now (creates fresh domain source_label) st u r =
    set-IsRegistry _ (codes "imp_" ++ take 12 fresh) (if st.loaded then st else init_jobs now st) _
      _ refl (start-IsRegistry now st.loaded st r)
after-IsRegistry now (updates id patch) st u r = update_job-IsRegistry now id patch st u r
after-IsRegistry now sweeps st u r =
    let left : JsMap Text JobRecord = JsMap.retain (is_fresh now) st.jobs in
    let h = retain-AreKeyed (is_fresh now) st.jobs r.are_keyed in
    let d = retain-IsDistinct (is_fresh now) st.jobs r.is_distinct in
    elim (Bool-cases (ltb (length left) (length st.jobs))) [
      | inl fewer ↦ rw fewer (record { are_keyed = h; is_distinct = d })
      | inr same ↦ rw same (record { are_keyed = h; is_distinct = d })
    ]
after-IsRegistry now restarts st u r =
    init_jobs-IsRegistry now (record { jobs = []; loaded = false; file = st.file })
      (record { are_keyed = tt; is_distinct = tt })

-- Where every job stands under its own id, and each id once, it stays so through any sequence of
-- operations and restarts whose updates leave the ids as they are.
after_all-IsRegistry :
    (es : List (ℕ × JobEvent)) (st : JobStore)
    → All (λ e. LeavesId e.1) es
    → IsRegistry st
    → IsRegistry (after_all es st)
unfolding after_all
after_all-IsRegistry [] st h r = r
after_all-IsRegistry ((now, e) ∷ es) st (u, h) r =
    after_all-IsRegistry es (after now e st) h (after-IsRegistry now e st u r)
