-- ===== src/Runtime/Tests/SmallGraph.antt =====
-- A graph of three tasks: task 5 of the Input phase leads to task 2 of the Simulation phase, and that
-- to task 7 of the same phase; with a registry and a dispatcher for it.
use native.Mathlib.Decide.{ℕ_discrete}
use mmo_server.Common.{
  ℕ, zero, suc, ◌+◌, ◌^◌, ◌≤◌, ◌<◌, ◌≡◌, ◌≢◌, refl, sym, subst, ◌⊎◌, inl, inr, true, some, [], ◌∷◌,
  arith, count, ◌==◌, if◌then◌else◌,
}
use mmo_server.Runtime.Phase.{RuntimePhaseId, phase_index, default_context}
use mmo_server.Runtime.Graph.{TaskGraph, TaskNode, PhaseRange, max_nodes}
use mmo_server.Runtime.Registry.{TaskRegistry, resolve}
use mmo_server.Runtime.Workers
use mmo_server.Runtime.Dispatch
use mmo_server.Runtime.Dispatch.{JobDispatch, execute_phase}
use mmo_server.Runtime.Dispatch.Counting.{sum_to}
use mmo_server.Runtime.Dispatch.Setup.{IsWellFormed, IsTask, children, parents, phase_of, node_id}
use mmo_server.Runtime.Dispatch.Edges.{edges_into}
use mmo_server.Runtime.Dispatch.Seeding.{Between}
use mmo_server.Runtime.Pipeline.{AtRest}

abbrev pub small_nodes : ℕ → TaskNode
small_nodes zero = record {
  id = 5;
  phase_id = RuntimePhaseId.input;
  dependency_offset = 0;
  child_count = 1;
  parent_count = 0;
}
small_nodes (suc zero) = record {
  id = 2;
  phase_id = RuntimePhaseId.simulation;
  dependency_offset = 1;
  child_count = 1;
  parent_count = 1;
}
small_nodes _ = record {
  id = 7;
  phase_id = RuntimePhaseId.simulation;
  dependency_offset = 2;
  child_count = 0;
  parent_count = 1;
}

abbrev pub small_ranges : RuntimePhaseId → PhaseRange
small_ranges RuntimePhaseId.input = record { begin = 0; count = 1 }
small_ranges RuntimePhaseId.simulation = record { begin = 1; count = 2 }
small_ranges _ = record { begin = 3; count = 0 }

abbrev pub small_graph : TaskGraph
small_graph = record {
  nodes = small_nodes;
  node_count = 3;
  child_task_ids = λ e. if e == 0 then 2 else 7;
  phase_ranges = small_ranges;
  task_id_to_node_index = λ t. if t == 2 then 1 else if t == 7 then 2 else 0;
  dependency_count = 2;
}

pub index_cases : (i : ℕ) → i < 3 → (i ≡ 0) ⊎ ((i ≡ 1) ⊎ (i ≡ 2))
index_cases zero h = inl refl
index_cases (suc zero) h = inr (inl refl)
index_cases (suc (suc zero)) h = inr (inr refl)
index_cases (suc (suc (suc i))) h = absurd (omega arith)

pub task_cases : (t : ℕ) → IsTask small_graph t → (t ≡ 5) ⊎ ((t ≡ 2) ⊎ (t ≡ 7))
task_cases t (_, e) = elim (ℕ_discrete t 2) [
  | yes h ↦ inr (inl h)
  | no n ↦ elim (ℕ_discrete t 7) [ yes h ↦ inr (inr h) | no m ↦ inl (ground (arith, e, n, m)) ]
]

-- A family that holds at each of the three tasks holds at every task.
pub at_tasks : (F : ℕ → Type 0) → F 5 → F 2 → F 7 → (t : ℕ) → IsTask small_graph t → F t
at_tasks F at5 at2 at7 t task = elim (task_cases t task) [
  | inl e ↦ subst F (sym e) at5
  | inr (inl e) ↦ subst F (sym e) at2
  | inr (inr e) ↦ subst F (sym e) at7
]

pub at_indices : (F : ℕ → Type 0) → F 0 → F 1 → F 2 → (i : ℕ) → i < 3 → F i
at_indices F at0 at1 at2 i h = elim (index_cases i h) [
  | inl e ↦ subst F (sym e) at0
  | inr (inl e) ↦ subst F (sym e) at1
  | inr (inr e) ↦ subst F (sym e) at2
]

only : (a c : ℕ) → count c (a ∷ []) ≢ 0 → a ≡ c
only a c h = ground (arith, h)

-- An edge leads from 5 to 2 or from 2 to 7.
pub edge_cases :
    (F : ℕ → ℕ → Type 0)
    → F 5 2
    → F 2 7
    → (t c : ℕ) → IsTask small_graph t
    → count c (children small_graph t) ≢ 0
    → F t c
edge_cases F f g t c task =
    at_tasks (λ u. count c (children small_graph u) ≢ 0 → F u c) (λ h. subst (F 5) (only 2 c h) f)
      (λ h. subst (F 2) (only 7 c h) g) (λ h. absurd (h refl)) t task

pub small_graph-IsWellFormed : IsWellFormed small_graph
small_graph-IsWellFormed = record {
  few = omega arith;
  ids_small =
      at_indices (λ i. node_id small_graph i < max_nodes) (omega arith) (omega arith) (omega arith);
  indexed =
      at_indices (λ i. small_graph.task_id_to_node_index (node_id small_graph i) ≡ i) refl refl
        refl;
  closed = edge_cases (λ t c. IsTask small_graph c) (omega arith, refl) (omega arith, refl);
  forward =
      edge_cases (λ t c. phase_of small_graph t ≤ phase_of small_graph c) (omega arith)
        (omega arith);
  counted =
      at_tasks
        (λ t.
          parents small_graph t
          ≡ sum_to 3 (λ i. count t (children small_graph (node_id small_graph i))))
        refl refl refl;
  narrow = at_tasks (λ t. parents small_graph t < 2 ^ 32) (omega arith) (omega arith) (omega arith);
  in_range = nodes_in;
  range_nodes = range;
  rank = λ t. if t == 5 then 0 else if t == 2 then 1 else 2;
  ranked =
      edge_cases
        (λ t c.
          (if t == 5 then 0 else if t == 2 then 1 else 2)
          < (if c == 5 then 0 else if c == 2 then 1 else 2))
        (omega arith) (omega arith);
}
  where
    nodes_in :
        (p : RuntimePhaseId) (i : ℕ)
        → i < 3
        → phase_index (small_nodes i).phase_id ≡ phase_index p
        → ((small_ranges p).begin ≤ i) × (i < (small_ranges p).begin + (small_ranges p).count)
    nodes_in RuntimePhaseId.input zero low e = (omega arith, omega arith)
    nodes_in RuntimePhaseId.input (suc zero) low e = absurd (omega (arith, e))
    nodes_in RuntimePhaseId.input (suc (suc i)) low e = absurd (omega (arith, e))
    nodes_in RuntimePhaseId.simulation zero low e = absurd (omega (arith, e))
    nodes_in RuntimePhaseId.simulation (suc zero) low e = (omega arith, omega arith)
    nodes_in RuntimePhaseId.simulation (suc (suc i)) low e = (omega arith, omega arith)
    nodes_in RuntimePhaseId.post_simulation zero low e = absurd (omega (arith, e))
    nodes_in RuntimePhaseId.post_simulation (suc zero) low e = absurd (omega (arith, e))
    nodes_in RuntimePhaseId.post_simulation (suc (suc i)) low e = absurd (omega (arith, e))
    nodes_in RuntimePhaseId.output zero low e = absurd (omega (arith, e))
    nodes_in RuntimePhaseId.output (suc zero) low e = absurd (omega (arith, e))
    nodes_in RuntimePhaseId.output (suc (suc i)) low e = absurd (omega (arith, e))

    range :
        (p : RuntimePhaseId) (k : ℕ)
        → k < (small_ranges p).count
        → ((small_ranges p).begin + k < 3)
          × (phase_index (small_nodes ((small_ranges p).begin + k)).phase_id ≡ phase_index p)
    range RuntimePhaseId.input zero h = (omega arith, refl)
    range RuntimePhaseId.input (suc k) h = absurd (omega arith)
    range RuntimePhaseId.simulation zero h = (omega arith, refl)
    range RuntimePhaseId.simulation (suc zero) h = (omega arith, refl)
    range RuntimePhaseId.simulation (suc (suc k)) h = absurd (omega arith)
    range RuntimePhaseId.post_simulation k h = absurd (omega arith)
    range RuntimePhaseId.output k h = absurd (omega arith)

-- Each task adds its id to a counter of the context.
abbrev pub small_registry : TaskRegistry
small_registry = record {
  functions = λ t. some (λ context. record context { delta_time_ms = context.delta_time_ms + t });
}

pub registered_five : resolve small_registry 5 ≡ small_registry.functions 5
unfolding resolve
registered_five = refl

pub registered_two : resolve small_registry 2 ≡ small_registry.functions 2
unfolding resolve
registered_two = refl

pub registered_seven : resolve small_registry 7 ≡ small_registry.functions 7
unfolding resolve
registered_seven = refl

abbrev pub small_dispatch : JobDispatch
small_dispatch = record Dispatch.construct {
  task_graph = some small_graph;
  runtime_context = some default_context;
  registry = some small_registry;
  worker_pool = record Workers.construct { running = true; active_worker_count = 1 };
  running = true;
}

pub small_dispatch_workers : small_dispatch.worker_pool.active_worker_count ≡ 1
small_dispatch_workers = refl

pub small_dispatch-AtRest : AtRest small_graph small_registry small_dispatch
small_dispatch-AtRest = record {
  running = refl;
  graph = refl;
  registry = refl;
  emptied = refl;
  idle = refl;
}

-- After the Input phase task 5 has run.
abbrev pub later_dispatch : JobDispatch
later_dispatch = record small_dispatch { runtime_state = λ t. if t == 7 then 1 else 0 }

pub later_dispatch-Between : Between small_graph 1 later_dispatch (5 ∷ [])
later_dispatch-Between = record {
  waits =
      at_tasks
        (λ t.
          later_dispatch.runtime_state t + edges_into small_graph t (5 ∷ [])
          ≡ parents small_graph t)
        refl refl refl;
  ran =
      at_tasks (λ t. phase_of small_graph t < 1 → count t (5 ∷ []) ≡ 1) (λ h. refl)
        (λ h. absurd (omega (arith, h))) (λ h. absurd (omega (arith, h)));
  not_yet =
      at_tasks (λ t. 1 ≤ phase_of small_graph t → count t (5 ∷ []) ≡ 0)
        (λ h. absurd (omega (arith, h))) (λ h. refl) (λ h. refl);
  valid = one_task;
  emptied = refl;
  idle = refl;
}
  where
    one_task : (c : ℕ) → (count c (5 ∷ []) ≡ 0) ⊎ IsTask small_graph c
    one_task c = elim (ℕ_discrete c 5) [
      | yes e ↦ inr (subst (IsTask small_graph) (sym e) (omega arith, refl))
      | no ne ↦ inl (ground (arith, ne))
    ]
