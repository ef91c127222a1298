-- ===== src/Runtime/Tests/Workers.antt =====
-- Two workers of JobDispatch, run in a given order, and the theorems at the states they reach.
use native.Mathlib.Decide.{dec_lt, ℕ_discrete}
use mathlib.Core.Logic.{dite}
use mathlib.Core.List.{foldl}
use mmo_server.Common.{
  ℕ, ◌+◌, ◌≤◌, ◌<◌, ◌≡◌, refl, List, [], ◌∷◌, ◌==◌, if◌then◌else◌, true, length, count, arith,
}
use mmo_server.Runtime.Phase.{RuntimePhaseId, phase_index}
use mmo_server.Runtime.Graph.{TaskGraph, max_nodes, get_node}
use mmo_server.Runtime.Registry.{TaskRegistry}
use mmo_server.Runtime.Dispatch
use mmo_server.Runtime.Dispatch.{JobDispatch, open_phase, execute_task}
use mmo_server.Runtime.Dispatch.Edges.{Progress}
use mmo_server.Runtime.Dispatch.Opening.{open_later-Progress}
use mmo_server.Runtime.Dispatch.Concurrent.{
  Shared, Pc, Move, yield_empty, take, execute, release_last, release_later, release_waiting,
  enqueue, count_active, complete, notify, System, pick, Reach, start, later,
}
use mmo_server.Runtime.Dispatch.Concurrent.Safety.{each_once}
use mmo_server.Runtime.Tests.SmallGraph.{
  small_graph, small_registry, small_graph-IsWellFormed, later_dispatch, later_dispatch-Between,
}

module _ (g : TaskGraph) (r : TaskRegistry) where
  idle_move :
      (m : Shared) (queue : List ℕ)
      → m.dispatch.ready_queue ≡ queue
      → (m' : Shared) × (p' : Pc) × Move g r m Pc.idle m' p'
  idle_move m [] e = (_, _, yield_empty e)
  idle_move m (t ∷ rest) e = (_, _, take e)

  next_move : (m : Shared) (p : Pc) → (m' : Shared) × (p' : Pc) × Move g r m p m' p'
  unfolding idle_move ℕ_discrete
  next_move m Pc.idle = idle_move m m.dispatch.ready_queue refl
  next_move m (Pc.executing t) = (_, _, execute)
  next_move m (Pc.releasing []) = (_, _, complete)
  next_move m (Pc.releasing (child ∷ rest)) =
      dite (ℕ_discrete (m.dispatch.runtime_state child) 1)
        (λ last.
          dite
            (ℕ_discrete (phase_index (get_node g child).phase_id)
              (phase_index m.dispatch.current_phase))
            (λ same. (_, _, release_last last same)) (λ other. (_, _, release_later last other)))
        (λ more. (_, _, release_waiting more))
  next_move m (Pc.submitting child rest) = (_, _, enqueue)
  next_move m (Pc.counting rest) = (_, _, count_active)
  next_move m Pc.notifying = (_, _, notify)

  record Run (d : JobDispatch) (finished : List ℕ) : Type 0 where
    last : System
    reach : Reach g r 2 d finished last

  module _ {d : JobDispatch} {finished : List ℕ} where
    turn : Run d finished → ℕ → Run d finished
    unfolding next_move dec_lt
    turn run i = elim (dec_lt i 2) [
      | yes low ↦ record {
        last = _;
        reach = later run.reach (pick i low (next_move run.last.mem (run.last.pc i)).2);
      }
      | no _ ↦ run
    ]

  run : (d : JobDispatch) (finished : List ℕ) → List ℕ → Run d finished
  unfolding turn
  run d finished = foldl turn (record { last = _; reach = start })

abbrev simulation : JobDispatch
simulation = open_phase small_graph later_dispatch RuntimePhaseId.simulation

simulation-Progress : Progress small_graph 1 simulation (5 ∷ []) [] 0
simulation-Progress =
    open_later-Progress small_graph small_graph-IsWellFormed RuntimePhaseId.simulation
      later_dispatch (5 ∷ []) (omega arith) later_dispatch-Between

-- Worker 0 has run task 2 and is about to count task 7, which it has queued.
abbrev handing_on : Run small_graph small_registry simulation (5 ∷ [])
handing_on = run small_graph small_registry simulation (5 ∷ []) (0 ∷ 1 ∷ 0 ∷ 0 ∷ 0 ∷ [])

each_once_example :
    ((c : ℕ)
      → (count c handing_on.last.mem.dispatch.ready_queue + count c handing_on.last.mem.taken ≤ 1)
        × (count c handing_on.last.mem.executed ≤ count c handing_on.last.mem.taken))
    × ((i child : ℕ) (rest : List ℕ)
        → i < 2
        → handing_on.last.pc i ≡ Pc.submitting child rest
        → length handing_on.last.mem.dispatch.ready_queue < max_nodes)
each_once_example =
    each_once small_graph small_graph-IsWellFormed small_registry 1 2 simulation-Progress
      handing_on.reach

-- Worker 1 runs task 7 while worker 0 is still counting it.
abbrev all_done : Run small_graph small_registry simulation (5 ∷ [])
all_done =
    run small_graph small_registry simulation (5 ∷ [])
      (0 ∷ 1 ∷ 0 ∷ 0 ∷ 0 ∷ 1 ∷ 1 ∷ 1 ∷ 1 ∷ 0 ∷ 0 ∷ 0 ∷ [])

-- Task 0 leads to 1 and 2 of the same phase.
abbrev fork_graph : TaskGraph
fork_graph = record {
  nodes = λ i. record {
    id = i;
    phase_id = RuntimePhaseId.input;
    dependency_offset = 0;
    child_count = if i == 0 then 2 else 0;
    parent_count = if i == 0 then 0 else 1;
  };
  node_count = 3;
  child_task_ids = λ e. e + 1;
  phase_ranges = λ p. record { begin = 0; count = if phase_index p == 0 then 3 else 0 };
  task_id_to_node_index = λ t. t;
  dependency_count = 2;
}

abbrev fork_phase : JobDispatch
fork_phase =
    open_phase fork_graph (record Dispatch.construct { running = true }) RuntimePhaseId.input

-- Worker 0 has queued task 1 and not counted it yet; worker 1 has run it, and its decrement makes the
-- count of active tasks 0: WaitForPhaseCompletion lets the main thread go on, although task 2 of the
-- phase has not been queued.
premature_completion :
    (s : System) × Reach fork_graph small_registry 2 fork_phase [] s
    × (s.mem.dispatch.active_task_count ≡ 0)
    × (s.pc 0 ≡ Pc.counting (2 ∷ []))
    × (s.pc 1 ≡ Pc.notifying)
    × (s.mem.executed ≡ 1 ∷ 0 ∷ [])
unfolding run open_phase execute_task
premature_completion =
    let r = run fork_graph small_registry fork_phase [] (0 ∷ 0 ∷ 0 ∷ 0 ∷ 1 ∷ 1 ∷ 1 ∷ []) in
    (r.last, r.reach, refl, refl, refl, refl)
