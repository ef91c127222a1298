-- ===== src/Runtime/Tests.antt =====
-- The theorems of the runtime at concrete inputs: the graph of three tasks, pools and schedules.
pub mod SmallGraph
mod Workers
use native.Mathlib.Decide.{ℕ_discrete}
use mmo_server.Common.{
  ℕ, zero, suc, ◌+◌, ◌^◌, ◌≤◌, ◌<◌, ◌≡◌, ◌≢◌, refl, sym, subst, ◌⊎◌, inl, inr, true, false, some,
  List, [], ◌∷◌, arith, count, ◌==◌, if◌then◌else◌, not, returned,
}
use mmo_server.Runtime.Phase.{RuntimePhaseId, phase_index, RuntimeMode, default_pipeline}
use mmo_server.Runtime.Graph.{TaskGraph, TaskNode, PhaseRange, max_nodes}
use mmo_server.Runtime.Registry.{TaskRegistry, resolve}
use mmo_server.Runtime.Dispatch
use mmo_server.Runtime.Dispatch.{JobDispatch, execute_phase}
use mmo_server.Runtime.Dispatch.Counting.{sum_to}
use mmo_server.Runtime.Dispatch.Setup.{IsWellFormed, IsTask, children, parents, phase_of, node_id}
use mmo_server.Runtime.Dispatch.Edges.{edges_into}
use mmo_server.Runtime.Dispatch.Seeding.{Between}
use mmo_server.Runtime.Lifecycle.{ThreadsOwned, shutdown_joins}
use mmo_server.Runtime.Executor
use mmo_server.Runtime.Executor.{IJobDispatch, Executor, ExecutionResult}
use mmo_server.Runtime.Executor.Lifecycle.{Runs, Fails, execute_pipeline_outcome}
use mmo_server.Runtime.Scheduler
use mmo_server.Timer
use mmo_server.Timer.Order
use mmo_server.Runtime.Pipeline.{Dispatcher}
use mmo_server.Runtime.Tests.SmallGraph.*

abbrev small_executor : Executor Dispatcher
small_executor = record {
  config = record { fail_fast = true; enable_profiling = false; collect_metrics = false };
  pipeline = default_pipeline;
  job_dispatch = some ([], small_dispatch);
  state = Executor.State.initialized;
}

abbrev pooled_dispatch : JobDispatch
pooled_dispatch = record small_dispatch {
  worker_pool = record (small_dispatch.worker_pool) {
    running = true;
    active_worker_count = 1;
    threads =
        λ i. record { joinable = i == 0; worker_index = 0; executed_tasks = 0; steal_count = 0 };
  };
}

pooled_dispatch-ThreadsOwned : ThreadsOwned pooled_dispatch
pooled_dispatch-ThreadsOwned = record {
  together = refl;
  within = λ i e. ground (arith, e);
  joined = λ e i. cc;
}

shutdown_joins_example :
    ThreadsOwned (Dispatch.shutdown pooled_dispatch)
    × ((i : ℕ) → ((Dispatch.shutdown pooled_dispatch).worker_pool.threads i).joinable ≡ false)
    × (execute_phase 4 small_graph small_registry
          (Dispatch.shutdown pooled_dispatch)
          RuntimePhaseId.input
        ≡ some (false, [], Dispatch.shutdown pooled_dispatch))
    × (Dispatch.shutdown (Dispatch.shutdown pooled_dispatch) ≡ Dispatch.shutdown pooled_dispatch)
shutdown_joins_example =
    shutdown_joins pooled_dispatch 4 small_graph small_registry RuntimePhaseId.input
      pooled_dispatch-ThreadsOwned

-- A dispatcher that counts the phases and refuses the third.
abbrev picky : IJobDispatch ℕ
picky = record {
  initialize = λ n. (true, n);
  execute_phase = λ n phase. (not (phase_index phase == 2), n + 1);
  shutdown = λ n. 100;
}

abbrev picky_executor : Executor ℕ
picky_executor = record (Executor.construct small_executor.config default_pipeline 0) {
  state = Executor.State.initialized;
}

execute_pipeline_outcome_example :
    ((d' : ℕ) × Runs picky default_pipeline.phases 0 d'
      × (Executor.execute_pipeline picky picky_executor
          ≡ returned (ExecutionResult.success, record picky_executor { job_dispatch = d' })))
    ⊎ ((d' : ℕ) × Fails picky default_pipeline.phases 0 d'
        × (Executor.execute_pipeline picky picky_executor
            ≡ returned
                (ExecutionResult.dispatch_failure, record picky_executor { job_dispatch = d' })))
execute_pipeline_outcome_example = execute_pipeline_outcome picky picky_executor (λ e. cc) (λ e. cc)

-- A scheduler with a timer that is due 5 milliseconds after time 0; a callback writes its name down.
abbrev one_timer : Timer.TimerQueue
one_timer = record {
  tasks =
      (record {
        id = 1;
        deadline = 5000000;
        sequence = 0;
        callback = some 10;
        state = Timer.TimerState.scheduled;
      })
      ∷ [];
  cancelled_timers = [];
  next_id = 2;
  next_sequence = 1;
}

abbrev noted : ℕ → List ℕ → Timer.TimerQueue → List ℕ × Timer.TimerQueue
noted callback seen q = (callback ∷ seen, q)

abbrev new_scheduler : Scheduler.TickScheduler
new_scheduler = Scheduler.construct 50 default_pipeline one_timer
