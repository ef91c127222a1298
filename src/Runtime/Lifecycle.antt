-- ===== src/Runtime/Lifecycle.antt =====
-- JobDispatch from Initialize to Shutdown: what is checked, what is bound, and the threads.
use mmo_server.Common.{
  ℕ, ◌<◌, ◌≡◌, ◌≢◌, refl, sym, ◌∙◌, subst, ◌⊎◌, inl, inr, true, false, Bool-cases, none, some, [],
  arith,
}
use mmo_server.Runtime.Phase.{RuntimePhaseId, RuntimeContext}
use mmo_server.Runtime.Graph.{TaskGraph}
use mmo_server.Runtime.Registry.{TaskRegistry, validate_from, validate}
use mmo_server.Runtime.Workers.{stop, join}
use mmo_server.Runtime.Dispatch
use mmo_server.Runtime.Dispatch.{JobDispatch, initialize, shutdown, execute_phase}
use mmo_server.Runtime.Threads.{
  HasFunction, validate_from_iff, join_threads-joinable, join_threads-running,
}

-- The dispatcher runs exactly if its pool does; the threads that have not been joined are those of
-- the pool's workers, and while it does not run there are none.
pub record ThreadsOwned (d : JobDispatch) : Type 0 where
  pub together : d.worker_pool.running ≡ d.running
  pub within :
      (i : ℕ) → (d.worker_pool.threads i).joinable ≡ true → i < d.worker_pool.active_worker_count
  pub joined : d.running ≡ false → (i : ℕ) → (d.worker_pool.threads i).joinable ≡ false

pub construct-ThreadsOwned : ThreadsOwned Dispatch.construct
construct-ThreadsOwned = record {
  together = refl;
  within = λ i e. absurd (false_ne_true e);
  joined = λ e i. refl;
}
  where
    false_ne_true : false ≢ true
    false_ne_true e = cc

-- Initialize of a running dispatcher, or with a graph of which some node has no function, returns
-- false and changes nothing.
initialize_refused :
    (d : JobDispatch) (g : TaskGraph) (context : RuntimeContext) (r : TaskRegistry) (hardware : ℕ)
    → (d.running ≡ true) ⊎ ((i : ℕ) × (i < g.node_count) × ¬ HasFunction r (g.nodes i).id)
    → initialize d g context r hardware ≡ (false, d)
unfolding initialize validate
initialize_refused d g context r hardware (inl on) = ground (arith, on)
initialize_refused d g context r hardware (inr (i, low, missing)) =
    elim (Bool-cases (validate_from r g g.node_count 0)) [
      | inl e ↦ absurd (
          missing (
            subst (λ j. HasFunction r (g.nodes j).id) (omega arith)
              ((validate_from_iff r g g.node_count 0).0 e i low)))
      | inr e ↦ ground (arith, e)
    ]

-- What Shutdown leaves of a running dispatcher.
abbrev closed : JobDispatch → JobDispatch
closed d = record d {
  running = false;
  worker_pool = join (stop d.worker_pool);
  active_task_count = 0;
  phase_epoch = 0;
  current_phase = RuntimePhaseId.input;
  runtime_state = λ _. 0;
  task_graph = none;
  runtime_context = none;
  registry = none;
}

closed-joined :
    (d : JobDispatch)
    → ThreadsOwned d
    → (i : ℕ) → ((closed d).worker_pool.threads i).joinable ≡ false
unfolding join stop
closed-joined d owned i =
    let joined = join_threads-joinable d.worker_pool.active_worker_count 0 (stop d.worker_pool) i in
    elim (Bool-cases (d.worker_pool.threads i).joinable) [
      | inl e ↦ ground (arith, joined, e, owned.within i e)
      | inr e ↦ ground (arith, joined, e)
    ]

closed-ThreadsOwned : (d : JobDispatch) → ThreadsOwned d → ThreadsOwned (closed d)
unfolding join stop
closed-ThreadsOwned d owned = record {
  together = join_threads-running d.worker_pool.active_worker_count 0 (stop d.worker_pool);
  within = λ i e. absurd (false_ne_true (sym (closed-joined d owned i) ∙ e));
  joined = λ _ i. closed-joined d owned i;
}
  where
    false_ne_true : false ≢ true
    false_ne_true e = cc

shutdown_cases :
    (d : JobDispatch)
    → ((d.running ≡ true) × (shutdown d ≡ closed d)) ⊎ ((d.running ≡ false) × (shutdown d ≡ d))
unfolding shutdown
shutdown_cases d = elim (Bool-cases d.running) [
  | inl e ↦ inl (e, ground (arith, e))
  | inr e ↦ inr (e, ground (arith, e))
]

abbrev AllShut : ℕ → TaskGraph → TaskRegistry → RuntimePhaseId → JobDispatch → Type 0
AllShut fuel g r phase d =
    ThreadsOwned d
    × ((i : ℕ) → (d.worker_pool.threads i).joinable ≡ false)
    × (execute_phase fuel g r d phase ≡ some (false, [], d))
    × (shutdown d ≡ d)

all_shut :
    (fuel : ℕ) (g : TaskGraph) (r : TaskRegistry) (phase : RuntimePhaseId) (d : JobDispatch)
    → d.running ≡ false
    → ThreadsOwned d
    → AllShut fuel g r phase d
unfolding shutdown execute_phase
all_shut fuel g r phase d off owned =
    (owned, owned.joined off, ground (arith, off), ground (arith, off))

-- After Shutdown no thread that the dispatcher owned is left unjoined; ExecutePhase then returns
-- false and runs nothing, and a second Shutdown changes nothing.
pub shutdown_joins :
    (d : JobDispatch) (fuel : ℕ) (g : TaskGraph) (r : TaskRegistry) (phase : RuntimePhaseId)
    → ThreadsOwned d
    → ThreadsOwned (shutdown d)
      × ((i : ℕ) → ((shutdown d).worker_pool.threads i).joinable ≡ false)
      × (execute_phase fuel g r (shutdown d) phase ≡ some (false, [], shutdown d))
      × (shutdown (shutdown d) ≡ shutdown d)
shutdown_joins d fuel g r phase owned = elim (shutdown_cases d) [
  | inl (_, e) ↦
      subst (AllShut fuel g r phase) (sym e)
        (all_shut fuel g r phase (closed d) refl (closed-ThreadsOwned d owned))
  | inr (off, e) ↦ subst (AllShut fuel g r phase) (sym e) (all_shut fuel g r phase d off owned)
]
