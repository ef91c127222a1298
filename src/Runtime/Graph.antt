-- ===== src/Runtime/Graph.antt =====
-- runtime/TaskGraph: the tasks of a tick and their dependencies, as a compressed edge table.
-- A `std::array` is a function of the index.
use mmo_server.Common.{ℕ}
use mmo_server.Runtime.Phase.{RuntimePhaseId}

abbrev pub max_nodes : ℕ
max_nodes = 256

pub record TaskNode : Type 0 where
  pub id : ℕ
  pub phase_id : RuntimePhaseId
  pub dependency_offset : ℕ
  pub child_count : ℕ
  pub parent_count : ℕ

pub record PhaseRange : Type 0 where
  pub begin : ℕ
  pub count : ℕ

pub record TaskGraph : Type 0 where
  pub nodes : ℕ → TaskNode
  pub node_count : ℕ
  pub child_task_ids : ℕ → ℕ
  pub phase_ranges : RuntimePhaseId → PhaseRange
  pub task_id_to_node_index : ℕ → ℕ
  pub dependency_count : ℕ

-- `JobDispatch::GetNode`
abbrev pub get_node : TaskGraph → ℕ → TaskNode
get_node g id = g.nodes (g.task_id_to_node_index id)
