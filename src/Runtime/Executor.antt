-- ===== src/Runtime/Executor.antt =====
-- runtime/RuntimePipelineExecutor: runs the phases of the pipeline on a job dispatcher. The
-- dispatcher is the interface IJobDispatch, whatever implements it.
pub mod Lifecycle
use mmo_server.Common.{
  ℕ, Bool, true, false, List, [], ◌∷◌, if◌then◌else◌, Result, returned, thrown, logic_error,
}
use mmo_server.Runtime.Phase.{RuntimePhaseId, RuntimePhase, RuntimePipeline}

-- IJobDispatch over the state `D` of its implementation. Initialize is called with the graph, the
-- context and the registry that the executor was constructed with.
pub record IJobDispatch (D : Type 0) : Type 0 where
  pub initialize : D → Bool × D
  pub execute_phase : D → RuntimePhaseId → Bool × D
  pub shutdown : D → D

pub data State : Type 0 where
  created initialized running stopping stopped : State

pub data ExecutionResult : Type 0 where
  success empty_pipeline invalid_pipeline dispatch_failure cancelled : ExecutionResult

pub record Config : Type 0 where
  pub fail_fast : Bool
  pub enable_profiling : Bool
  pub collect_metrics : Bool

pub record Executor (D : Type 0) : Type 0 where
  pub config : Config
  pub pipeline : RuntimePipeline
  pub job_dispatch : D
  pub state : State

abbrev pub construct : {D : Type 0} → Config → RuntimePipeline → D → Executor D
construct config pipeline d = record {
  config = config;
  pipeline = pipeline;
  job_dispatch = d;
  state = State.created;
}

module _ {D : Type 0} (i : IJobDispatch D) where
  abbrev pub initialize_in : State → Executor D → Result (Bool × Executor D)
  initialize_in State.created x =
      let (done, d) = i.initialize x.job_dispatch in
      returned (
        if done
        then (true, record x { job_dispatch = d; state = State.initialized })
        else (false, record x { job_dispatch = d }))
  initialize_in _ x = thrown logic_error

  unfoldable pub initialize : Executor D → Result (Bool × Executor D)
  initialize x = initialize_in x.state x

  abbrev pub shutdown_in : State → Executor D → Executor D
  shutdown_in State.stopped x = x
  shutdown_in _ x = record x { job_dispatch = i.shutdown x.job_dispatch; state = State.stopped }

  unfoldable pub shutdown : Executor D → Executor D
  shutdown x = shutdown_in x.state x

  unfoldable pub execute_phase : Executor D → RuntimePhase → ExecutionResult × Executor D
  execute_phase x phase =
      let (done, d) = i.execute_phase x.job_dispatch phase.id in
      (
        (if done then ExecutionResult.success else ExecutionResult.dispatch_failure),
        record x { job_dispatch = d },
      )

  -- The loop of ExecutePipeline and what follows it.
  unfoldable pub execute_phases : List RuntimePhase → Executor D → ExecutionResult × Executor D
  unfolding execute_phase
  execute_phases [] x = (ExecutionResult.success, record x { state = State.initialized })
  execute_phases (phase ∷ phases) x =
      let (result, x') = execute_phase x phase in
      let rest = execute_phases phases x' in
      elim result [
        | ExecutionResult.success ↦ rest
        | failure ↦ (failure, record x' { state = State.initialized })
      ]

  abbrev pub execute_in : State → Executor D → Result (ExecutionResult × Executor D)
  execute_in State.created x = thrown logic_error
  execute_in State.stopped x = thrown logic_error
  execute_in _ x = returned (execute_phases x.pipeline.phases (record x { state = State.running }))

  unfoldable pub execute_pipeline : Executor D → Result (ExecutionResult × Executor D)
  unfolding execute_phases
  execute_pipeline x = execute_in x.state x
