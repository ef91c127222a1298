-- ===== src/Runtime/Dispatch.antt =====
-- runtime/JobDispatch: JobDispatch, which runs the tasks of a phase in the order of the graph.
-- The ready queue is what an MPMCQueue of 256 task ids holds (Queue.Fifo). The counters that the
-- threads share are written out with their wrap-around: `std::uint32_t` dependencies and active
-- tasks, a `std::uint64_t` epoch. The asserts are off, as in a release build, so a full ready queue
-- drops the task. `drain` is the life of one worker while the main thread waits: a worker that
-- finds the queue empty yields, and the main thread goes on when no task is active.
pub mod Setup
pub mod Counting
pub mod Edges
pub mod Draining
pub mod Completion
pub mod Seeding
pub mod Opening
pub mod Phases
pub mod Concurrent
use mmo_server.Common.{
  ℕ, zero, suc, ◌+◌, ◌-◌, ◌%◌, ◌^◌, Bool, true, false, not, ◌&&◌, Option, none, some, List, [], ◌∷◌,
  ◌++◌, update, ltb, ◌==◌, if◌then◌else◌,
}
use mmo_server.Queue.Fifo
use mmo_server.Queue.Fifo.{enqueues, dequeues}
use mmo_server.Runtime.Phase.{RuntimePhaseId, phase_index, RuntimeContext}
use mmo_server.Runtime.Graph.{TaskGraph, TaskNode, PhaseRange, max_nodes, get_node}
use mmo_server.Runtime.Registry.{TaskRegistry, TaskFunction, resolve, validate}
use mmo_server.Runtime.Workers.{WorkerPool, WorkerPoolConfig}
use mmo_server.Runtime.Workers

pub record JobDispatch : Type 0 where
  pub task_graph : Option TaskGraph
  pub runtime_context : Option RuntimeContext
  pub registry : Option TaskRegistry
  pub current_phase : RuntimePhaseId
  pub worker_pool : WorkerPool
  pub ready_queue : List ℕ
  pub runtime_state : ℕ → ℕ
  pub active_task_count : ℕ
  pub phase_epoch : ℕ
  pub running : Bool

abbrev pub construct : JobDispatch
construct = record {
  task_graph = none;
  runtime_context = none;
  registry = none;
  current_phase = RuntimePhaseId.input;
  worker_pool = Workers.construct;
  ready_queue = [];
  runtime_state = λ _. 0;
  active_task_count = 0;
  phase_epoch = 0;
  running = false;
}

-- The configuration that Initialize hands to the pool: all three pointers are set.
abbrev pub own_config : WorkerPoolConfig
own_config = record { executor = true; ready_queue = true; completion_sink = true }

unfoldable pub initialize :
    JobDispatch → TaskGraph → RuntimeContext → TaskRegistry → ℕ → Bool × JobDispatch
initialize d g context r hardware =
    if d.running
    then (false, d)
    else if not (validate r g)
    then (false, d)
    else let bound = record d {
      task_graph = some g;
      runtime_context = some context;
      registry = some r;
    } in
      let (started, pool) = Workers.start d.worker_pool own_config hardware in
      if not started
      then (false, record bound { worker_pool = pool })
      else (true, record bound { worker_pool = pool; running = true })

-- The context after a call of the function, if there is one.
unfoldable pub call_function : Option TaskFunction → Option RuntimeContext → Option RuntimeContext
call_function none context = context
call_function (some f) none = none
call_function (some f) (some context) = some (f context)

unfoldable pub execute_task : JobDispatch → TaskRegistry → ℕ → JobDispatch
unfolding call_function
execute_task d r task = record d {
  runtime_context = call_function (resolve r task) d.runtime_context;
}

-- The loop of BuildRuntimeState, with `n` rounds left and `i` the counter.
unfoldable pub build_from : TaskGraph → ℕ → ℕ → (ℕ → ℕ) → ℕ → ℕ
build_from g zero i state = state
build_from g (suc n) i state =
    build_from g n (i + 1) (update state (g.nodes i).id (g.nodes i).parent_count)

unfoldable pub build_runtime_state : TaskGraph → JobDispatch → JobDispatch
unfolding build_from
build_runtime_state g d = record d { runtime_state = build_from g g.node_count 0 d.runtime_state }

-- `m_readyQueue.Enqueue(id); m_activeTaskCount.fetch_add(1)`
unfoldable pub submit : JobDispatch → ℕ → JobDispatch
unfolding Fifo.step
submit d id = record d {
  ready_queue = (Fifo.step max_nodes d.ready_queue (enqueues id)).1;
  active_task_count = (d.active_task_count + 1) % 2 ^ 32;
}

-- The loop of SeedReadyQueue, with `n` rounds left and `i` the node's index.
unfoldable pub seed_from : TaskGraph → ℕ → ℕ → JobDispatch → JobDispatch
unfolding submit
seed_from g zero i d = d
seed_from g (suc n) i d =
    seed_from g n (i + 1)
      (if d.runtime_state (g.nodes i).id == 0 then submit d (g.nodes i).id else d)

unfoldable pub seed_ready_queue : TaskGraph → JobDispatch → JobDispatch
unfolding seed_from
seed_ready_queue g d =
    seed_from g (g.phase_ranges d.current_phase).count (g.phase_ranges d.current_phase).begin d

-- One edge of ReleaseSuccessors: `fetch_sub` on the child, and the child is submitted if it waited
-- for this parent only and belongs to the current phase.
unfoldable pub release_child : TaskGraph → JobDispatch → ℕ → JobDispatch
unfolding submit
release_child g d child =
    let left = record d {
      runtime_state = update d.runtime_state child ((d.runtime_state child + 2 ^ 32 - 1) % 2 ^ 32);
    } in
    if d.runtime_state child == 1
    then (if phase_index (get_node g child).phase_id == phase_index d.current_phase
        then submit left child
        else left)
    else left

-- The loop of ReleaseSuccessors, with `n` rounds left and `e` the index in the edge table.
unfoldable pub release_from : TaskGraph → ℕ → ℕ → JobDispatch → JobDispatch
unfolding release_child
release_from g zero e d = d
release_from g (suc n) e d = release_from g n (e + 1) (release_child g d (g.child_task_ids e))

unfoldable pub release_successors : TaskGraph → JobDispatch → ℕ → JobDispatch
unfolding release_from
release_successors g d task =
    release_from g (get_node g task).child_count (get_node g task).dependency_offset d

unfoldable pub on_task_completed : TaskGraph → JobDispatch → ℕ → JobDispatch
unfolding release_successors
on_task_completed g d task =
    let released = release_successors g d task in
    record released {
      active_task_count = (released.active_task_count + 2 ^ 32 - 1) % 2 ^ 32;
      phase_epoch =
          if released.active_task_count == 1
          then (released.phase_epoch + 1) % 2 ^ 64
          else released.phase_epoch;
    }

-- One round of WorkerLoop with task `id` taken from the queue.
unfoldable pub work : TaskGraph → TaskRegistry → JobDispatch → ℕ → JobDispatch
unfolding execute_task on_task_completed
work g r d id = on_task_completed g (execute_task d r id) id

-- The rounds of a pool's only worker until the queue is empty, with no other thread in between, with
-- the tasks that ran, in order; `none` when the fuel runs out. Dispatch/Concurrent has any number of
-- workers.
unfoldable pub drain : ℕ → TaskGraph → TaskRegistry → JobDispatch → Option (List ℕ × JobDispatch)
unfolding work
drain zero g r d = none
drain (suc fuel) g r d = elim d.ready_queue [
  | [] ↦ some ([], d)
  | id ∷ rest ↦ elim (drain fuel g r (work g r (record d { ready_queue = rest }) id)) [
    | none ↦ none
    | some (ids, d') ↦ some (id ∷ ids, d')
  ]
]

-- ExecutePhase behind its guard, up to the seeded queue.
unfoldable pub open_phase : TaskGraph → JobDispatch → RuntimePhaseId → JobDispatch
unfolding build_runtime_state seed_ready_queue
open_phase g d phase =
    let entered = record d { current_phase = phase } in
    seed_ready_queue g (if phase_index phase == 0 then build_runtime_state g entered else entered)

-- ExecutePhase in the schedule in which the pool's only worker starts on the phase once it is seeded
-- and the main thread looks at the count of active tasks when the queue is empty: the return value, the
-- tasks that ran and the state. WaitForPhaseCompletion returns when no task is left active; `none` when
-- the fuel runs out or, with tasks active and none queued, the main thread waits for ever.
unfoldable pub execute_phase :
    ℕ
    → TaskGraph
    → TaskRegistry
    → JobDispatch
    → RuntimePhaseId
    → Option (Bool × List ℕ × JobDispatch)
unfolding open_phase drain
execute_phase fuel g r d phase =
    if not d.running then some (false, [], d) else elim (drain fuel g r (open_phase g d phase)) [
      | none ↦ none
      | some (ids, d') ↦ if d'.active_task_count == 0 then some (true, ids, d') else none
    ]

-- The store loop of Shutdown clears every entry of the array.
unfoldable pub shutdown : JobDispatch → JobDispatch
shutdown d = if not d.running then d else record d {
  running = false;
  worker_pool = Workers.join (Workers.stop d.worker_pool);
  active_task_count = 0;
  phase_epoch = 0;
  current_phase = RuntimePhaseId.input;
  runtime_state = λ _. 0;
  task_graph = none;
  runtime_context = none;
  registry = none;
}
