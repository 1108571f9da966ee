-- ===== src/Manager/Supervisor.antt =====
-- `LlamaSupervisor` of llamacpp-manager/process.ts as a state machine. A child process is known by
-- its pid, and what the watchers of a child see comes as events that name that child.
pub mod Generations
use ob2_turbo_quant.Common.{
  ℕ, ◌-◌, Bool, true, false, Option, none, some, List, [], ◌∷◌, ◌++◌, ltb, ◌==◌, if◌then◌else◌,
  Text, codes, is_empty, length, drop,
}

-- Numbers stand as the texts that `String` makes of them.
pub record SpawnOpts : Type 0 where
  pub filename : Text
  pub ctx_size : Text
  pub gpu_layers : Text
  pub parallel_slots : Text
  pub cache_type_k : Option Text
  pub cache_type_v : Option Text

pub record SupervisorConfig : Type 0 where
  pub binary : Text
  pub pre_args : List Text
  pub models_dir : Text
  pub chat_port : Text

-- The state of a running child; `none` is `{ running: false }`.
pub record Running : Type 0 where
  pub pid : ℕ
  pub model : Text
  pub port : Text
  pub started_at : ℕ

pub record Supervisor : Type 0 where
  pub child : Option ℕ
  pub state : Option Running
  pub stderr_buf : Text

abbrev pub stderr_ring_bytes : ℕ
stderr_ring_bytes = 4096

abbrev flag : Text → Option Text → List Text
flag name none = []
flag name (some v) = if is_empty v then [] else name ∷ v ∷ []

pub spawn_args : SupervisorConfig → SpawnOpts → List Text
spawn_args cfg opts =
    cfg.pre_args
    ++ (codes "--port"
        ∷ cfg.chat_port
        ∷ codes "-m"
        ∷ (cfg.models_dir ++ (codes "/" ++ opts.filename))
        ∷ codes "--ctx-size"
        ∷ opts.ctx_size
        ∷ codes "--n-gpu-layers"
        ∷ opts.gpu_layers
        ∷ codes "--parallel"
        ∷ opts.parallel_slots
        ∷ codes "--host"
        ∷ codes "0.0.0.0"
        ∷ codes "--cache-prompt"
        ∷ (flag (codes "--cache-type-k") opts.cache_type_k
            ++ flag (codes "--cache-type-v") opts.cache_type_v))

-- `spawn`, with the pid that the system gave: `none` where there is a child already, and otherwise
-- the arguments of the command and the new state.
unfoldable pub spawn :
    SupervisorConfig → SpawnOpts → ℕ → ℕ → Supervisor → Option (List Text × Supervisor)
spawn cfg opts pid now sup = elim sup.child [
  | some c ↦ none
  | none ↦ some (
    spawn_args cfg opts,
    record {
      child = some pid;
      state =
          some
            (record { pid = pid; model = opts.filename; port = cfg.chat_port; started_at = now });
      stderr_buf = [];
    },
  )
]

abbrev pub is_child : ℕ → Option ℕ → Bool
is_child pid none = false
is_child pid (some c) = c == pid

-- `slice(-STDERR_RING_BYTES)` past that length.
unfoldable pub ring : Text → Text
ring buf =
    if ltb stderr_ring_bytes (length buf) then drop (length buf - stderr_ring_bytes) buf else buf

-- `_captureStderr` of the child `pid` has read `chunk`.
unfoldable pub capture_stderr : ℕ → Text → Supervisor → Supervisor
capture_stderr pid chunk sup =
    if is_child pid sup.child
    then record sup { stderr_buf = ring (sup.stderr_buf ++ chunk) }
    else sup

-- `_watchExit` of the child `pid` has seen its end.
unfoldable pub watch_exit : ℕ → Supervisor → Supervisor
watch_exit pid sup =
    if is_child pid sup.child then record sup { child = none; state = none } else sup

-- The end of `kill`, once the child that it was called on has ended. Where there was no child,
-- `kill` has returned at once.
unfoldable pub kill_done : Supervisor → Supervisor
kill_done sup = record sup { child = none; state = none }

-- One round of `awaitHealth`: whether the deadline is past and what `/health` says (`none` where
-- the request fails).
pub data Health : Type 0 where
  healthy exited timed_out retry : Health

unfoldable pub await_health : Bool → Option Bool → Supervisor → Health
await_health past reply sup = if past then timed_out else elim sup.child [
  | none ↦ exited
  | some c ↦ elim reply [ none ↦ retry | some ok ↦ if ok then healthy else retry ]
]

pub data Event : Type 0 where
  spawns : SpawnOpts → ℕ → ℕ → Event
  writes_stderr : ℕ → Text → Event
  exits : ℕ → Event
  killed : Event

abbrev pub spawned : Supervisor → Option (List Text × Supervisor) → Supervisor
spawned sup none = sup
spawned sup (some (args, next)) = next

unfoldable pub after : SupervisorConfig → Event → Supervisor → Supervisor
after cfg (spawns opts pid now) sup = spawned sup (spawn cfg opts pid now sup)
after cfg (writes_stderr pid chunk) sup = capture_stderr pid chunk sup
after cfg (exits pid) sup = watch_exit pid sup
after cfg killed sup = kill_done sup

unfoldable pub after_all : SupervisorConfig → List Event → Supervisor → Supervisor
after_all cfg [] sup = sup
after_all cfg (e ∷ es) sup = after_all cfg es (after cfg e sup)
