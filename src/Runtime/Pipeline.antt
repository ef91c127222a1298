-- ===== src/Runtime/Pipeline.antt =====
-- The pipeline executor on the job dispatcher: one tick of the runtime. The dispatcher's state is
-- kept with the tasks that have run, in order; `none` is a main thread that waits for ever.
use mmo_server.Common.{
  ℕ, ◌≡◌, ◌⊎◌, Bool, true, false, Option, none, some, List, [], ◌∷◌, ◌++◌, count, if◌then◌else◌,
}
use mmo_server.Runtime.Phase.{RuntimePhaseId, RuntimePhase, RuntimeContext}
use mmo_server.Runtime.Graph.{TaskGraph}
use mmo_server.Runtime.Registry.{TaskRegistry}
use mmo_server.Runtime.Dispatch
use mmo_server.Runtime.Dispatch.{JobDispatch}
use mmo_server.Runtime.Dispatch.Setup.{IsTask}
use mmo_server.Runtime.Dispatch.Seeding.{Between}
use mmo_server.Runtime.Dispatch.Draining.{InOrder, then_ran, context_after}
use mmo_server.Runtime.Executor
use mmo_server.Runtime.Executor.{IJobDispatch, Executor}

abbrev pub Dispatcher : Type 0
Dispatcher = Option (List ℕ × JobDispatch)

abbrev pub keep_log : List ℕ → Option (Bool × List ℕ × JobDispatch) → Bool × Dispatcher
keep_log ran none = (false, none)
keep_log ran (some (done, ids, d)) = (done, some (ran ++ ids, d))

abbrev pub run_bound :
    ℕ
    → List ℕ
    → JobDispatch
    → RuntimePhaseId
    → Option TaskGraph
    → Option TaskRegistry
    → Bool × Dispatcher
run_bound fuel ran d phase (some g) (some r) =
    keep_log ran (Dispatch.execute_phase fuel g r d phase)
run_bound fuel ran d phase _ _ = (false, if d.running then none else some (ran, d))

abbrev pub run_phase : ℕ → Dispatcher → RuntimePhaseId → Bool × Dispatcher
run_phase fuel none phase = (false, none)
run_phase fuel (some (ran, d)) phase = run_bound fuel ran d phase d.task_graph d.registry

abbrev pub start : TaskGraph → RuntimeContext → TaskRegistry → ℕ → Dispatcher → Bool × Dispatcher
start g context r hardware none = (false, none)
start g context r hardware (some (ran, d)) =
    let (done, d') = Dispatch.initialize d g context r hardware in (done, some (ran, d'))

abbrev pub stop : Dispatcher → Dispatcher
stop none = none
stop (some (ran, d)) = some (ran, Dispatch.shutdown d)

-- JobDispatch behind the executor's interface.
abbrev pub dispatcher : ℕ → TaskGraph → RuntimeContext → TaskRegistry → ℕ → IJobDispatch Dispatcher
dispatcher fuel g context r hardware = record {
  initialize = start g context r hardware;
  execute_phase = run_phase fuel;
  shutdown = stop;
}

-- A dispatcher that may run a phase of the graph.
pub record AtRest (g : TaskGraph) (r : TaskRegistry) (d : JobDispatch) : Type 0 where
  pub running : d.running ≡ true
  pub graph : d.task_graph ≡ some g
  pub registry : d.registry ≡ some r
  pub emptied : d.ready_queue ≡ []
  pub idle : d.active_task_count ≡ 0

-- What the phases before `next` of a tick leave, with the tasks that they ran.
pub record RanUpTo (g : TaskGraph) (r : TaskRegistry) (next : ℕ) (d : JobDispatch) (ids : List ℕ)
    (d' : JobDispatch) : Type 0 where
  pub rest : AtRest g r d'
  pub left : Between g next d' (then_ran [] ids)
  pub ordered : InOrder g [] ids
  pub context : d'.runtime_context ≡ context_after r ids d.runtime_context
  pub same_workers : d'.worker_pool.active_worker_count ≡ d.worker_pool.active_worker_count

-- What the loop has left after a phase of the default pipeline.
abbrev after_post_simulation : List RuntimePhase
after_post_simulation = record { id = RuntimePhaseId.output } ∷ []

abbrev after_simulation : List RuntimePhase
after_simulation = record { id = RuntimePhaseId.post_simulation } ∷ after_post_simulation

abbrev after_input : List RuntimePhase
after_input = record { id = RuntimePhaseId.simulation } ∷ after_simulation

-- What one tick did: each task of the graph ran once and after all its parents, nothing else ran,
-- and the dispatcher may run the next tick.
pub record TickRan (g : TaskGraph) (r : TaskRegistry) (d : JobDispatch) (ids : List ℕ)
    (d' : JobDispatch) : Type 0 where
  pub every : (c : ℕ) → IsTask g c → count c ids ≡ 1
  pub no_other : (c : ℕ) → (count c ids ≡ 0) ⊎ IsTask g c
  pub ordered : InOrder g [] ids
  pub context : d'.runtime_context ≡ context_after r ids d.runtime_context
  pub rest : AtRest g r d'
  pub same_workers : d'.worker_pool.active_worker_count ≡ d.worker_pool.active_worker_count
