-- ===== src/Manager/Supervisor/Generations.antt =====
-- The supervisor's state always describes its present child, and no earlier one can disturb it.
use ob2_turbo_quant.Common.{
  ℕ, ◌-◌, ◌≤◌, ◌≡◌, refl, false, Option, none, some, List, [], ◌∷◌, ◌++◌, Text, arith, length,
  length-drop, Bool-cases, Option-cases, inl, inr, All, subst, sym,
}
use ob2_turbo_quant.Manager.Supervisor.{
  SpawnOpts, SupervisorConfig, Running, Supervisor, stderr_ring_bytes, spawn, is_child, ring,
  capture_stderr, watch_exit, kill_done, spawned, Event, spawns, writes_stderr, exits, killed,
  after, after_all,
}

-- The state speaks of the child, or both are empty.
abbrev pub Describes : Option ℕ → Option Running → Type 0
Describes none none = Unit
Describes none (some r) = ⊥
Describes (some c) none = ⊥
Describes (some c) (some r) = c ≡ r.pid

pub record IsConsistent (sup : Supervisor) : Type 0 where
  pub describes : Describes sup.child sup.state
  pub is_bounded : length sup.stderr_buf ≤ stderr_ring_bytes

length-ring : (buf : Text) → length (ring buf) ≤ stderr_ring_bytes
unfolding ring
length-ring buf = ground (arith, length-drop (length buf - stderr_ring_bytes) buf)

spawn-IsConsistent :
    (cfg : SupervisorConfig) (opts : SpawnOpts) (pid now : ℕ) (sup : Supervisor)
    → IsConsistent sup
    → IsConsistent (spawned sup (spawn cfg opts pid now sup))
unfolding spawn
spawn-IsConsistent cfg opts pid now sup r = elim (Option-cases sup.child) [
  | inl free ↦ rw (spawn, free) (record { describes = refl; is_bounded = omega arith })
  | inr (c, busy) ↦
      let refused : spawn cfg opts pid now sup ≡ none = rw (spawn, busy) refl in
      subst (λ o. IsConsistent (spawned sup o)) (sym refused) r
]

capture-IsConsistent :
    (pid : ℕ) (chunk : Text) (sup : Supervisor)
    → IsConsistent sup
    → IsConsistent (capture_stderr pid chunk sup)
unfolding capture_stderr
capture-IsConsistent pid chunk sup r = elim (Bool-cases (is_child pid sup.child)) [
  | inl own ↦
      rw own
        (record { describes = r.describes; is_bounded = length-ring (sup.stderr_buf ++ chunk) })
  | inr stale ↦ rw stale r
]

watch-IsConsistent :
    (pid : ℕ) (sup : Supervisor) → IsConsistent sup → IsConsistent (watch_exit pid sup)
unfolding watch_exit
watch-IsConsistent pid sup r = elim (Bool-cases (is_child pid sup.child)) [
  | inl own ↦ rw own (record { describes = tt; is_bounded = r.is_bounded })
  | inr stale ↦ rw stale r
]

after-IsConsistent :
    (cfg : SupervisorConfig) (e : Event) (sup : Supervisor)
    → IsConsistent sup
    → IsConsistent (after cfg e sup)
unfolding after kill_done
after-IsConsistent cfg (spawns opts pid now) sup r = spawn-IsConsistent cfg opts pid now sup r
after-IsConsistent cfg (writes_stderr pid chunk) sup r = capture-IsConsistent pid chunk sup r
after-IsConsistent cfg (exits pid) sup r = watch-IsConsistent pid sup r
after-IsConsistent cfg killed sup r = record { describes = tt; is_bounded = r.is_bounded }

-- From a consistent state, whatever happens, the state shown is that of the present child or of
-- none, and the captured output keeps its bound.
pub after_all-IsConsistent :
    (cfg : SupervisorConfig) (es : List Event) (sup : Supervisor)
    → IsConsistent sup
    → IsConsistent (after_all cfg es sup)
unfolding after_all
after_all-IsConsistent cfg [] sup r = r
after_all-IsConsistent cfg (e ∷ es) sup r =
    after_all-IsConsistent cfg es (after cfg e sup) (after-IsConsistent cfg e sup r)

-- What the watchers of an earlier child see, and a spawn while a child runs.
abbrev pub IsStale : Option ℕ → Event → Type 0
IsStale none (spawns opts pid now) = ⊥
IsStale (some c) (spawns opts pid now) = Unit
IsStale child (writes_stderr pid chunk) = is_child pid child ≡ false
IsStale child (exits pid) = is_child pid child ≡ false
IsStale child killed = ⊥

-- While a child runs, nothing changes by any sequence of these events: another spawn, which is refused,
-- and what earlier children write or how they exit. After an exit or a kill, what earlier children do
-- changes nothing either.
pub after_all_stale :
    (cfg : SupervisorConfig) (es : List Event) (sup : Supervisor)
    → All (IsStale sup.child) es
    → after_all cfg es sup ≡ sup
unfolding after_all after capture_stderr watch_exit spawn
after_all_stale cfg [] sup h = refl
after_all_stale cfg (spawns opts pid now ∷ es) sup (stale, h) = elim (Option-cases sup.child) [
  | inl free ↦ let bad : IsStale none (spawns opts pid now) = rw free at stale in absurd bad
  | inr (c, busy) ↦
      let refused : spawn cfg opts pid now sup ≡ none = rw (spawn, busy) refl in
      subst (λ o. after_all cfg es (spawned sup o) ≡ sup) (sym refused)
        (after_all_stale cfg es sup h)
]
after_all_stale cfg (writes_stderr pid chunk ∷ es) sup (stale, h) =
    rw stale (after_all_stale cfg es sup h)
after_all_stale cfg (exits pid ∷ es) sup (stale, h) = rw stale (after_all_stale cfg es sup h)
after_all_stale cfg (killed ∷ es) sup (stale, h) = absurd stale
