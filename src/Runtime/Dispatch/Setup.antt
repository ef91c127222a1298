-- ===== src/Runtime/Dispatch/Setup.antt =====
-- Well-formed graphs, and the loops of JobDispatch as folds over lists.
use mmo_server.Common.{ℕ, zero, suc, ◌+◌, ◌^◌, ◌≤◌, ◌<◌, ◌≡◌, ◌≢◌, refl, List, [], ◌∷◌, count}
use mmo_server.Runtime.Phase.{RuntimePhaseId, phase_index}
use mmo_server.Runtime.Graph.{TaskGraph, max_nodes, get_node}
use mmo_server.Runtime.Dispatch.{JobDispatch, release_child, release_from, release_successors}
use mmo_server.Runtime.Dispatch.Counting.{sum_to}

-- `n` entries of an array, from index `e` on.
abbrev pub slice : ℕ → ℕ → (ℕ → ℕ) → List ℕ
slice zero e a = []
slice (suc n) e a = a e ∷ slice n (e + 1) a

module _ (g : TaskGraph) where
  -- The id of node `i`, the successors of a task and the position of a task's phase.
  abbrev pub node_id : ℕ → ℕ
  node_id i = (g.nodes i).id

  abbrev pub children : ℕ → List ℕ
  children t = slice (get_node g t).child_count (get_node g t).dependency_offset g.child_task_ids

  abbrev pub parents : ℕ → ℕ
  parents t = (get_node g t).parent_count

  abbrev pub phase_of : ℕ → ℕ
  phase_of t = phase_index (get_node g t).phase_id

  abbrev pub IsTask : ℕ → Type 0
  IsTask t = (g.task_id_to_node_index t < g.node_count) × (node_id (g.task_id_to_node_index t) ≡ t)

  -- What a graph must satisfy before it is handed to JobDispatch: ids are in range and found by the
  -- index table; edges lead to tasks of the same phase or a later one; the parent count of a task
  -- is the number of edges that lead to it; the nodes of a phase are its range; and a rank grows
  -- along every edge, so that there is no cycle.
  pub record IsWellFormed : Type 0 where
    pub few : g.node_count ≤ max_nodes
    pub ids_small : (i : ℕ) → i < g.node_count → node_id i < max_nodes
    pub indexed : (i : ℕ) → i < g.node_count → g.task_id_to_node_index (node_id i) ≡ i
    pub closed : (t c : ℕ) → IsTask t → count c (children t) ≢ 0 → IsTask c
    pub forward : (t c : ℕ) → IsTask t → count c (children t) ≢ 0 → phase_of t ≤ phase_of c
    pub counted :
        (t : ℕ) → IsTask t → parents t ≡ sum_to g.node_count (λ i. count t (children (node_id i)))
    pub narrow : (t : ℕ) → IsTask t → parents t < 2 ^ 32
    pub in_range :
        (p : RuntimePhaseId) (i : ℕ)
        → i < g.node_count
        → phase_index (g.nodes i).phase_id ≡ phase_index p
        → ((g.phase_ranges p).begin ≤ i) × (i < (g.phase_ranges p).begin + (g.phase_ranges p).count)
    pub range_nodes :
        (p : RuntimePhaseId) (k : ℕ)
        → k < (g.phase_ranges p).count
        → ((g.phase_ranges p).begin + k < g.node_count)
          × (phase_index (g.nodes ((g.phase_ranges p).begin + k)).phase_id ≡ phase_index p)
    pub rank : ℕ → ℕ
    pub ranked : (t c : ℕ) → IsTask t → count c (children t) ≢ 0 → rank t < rank c

  -- Releasing a list of children, one after the other.
  unfoldable pub release_list : JobDispatch → List ℕ → JobDispatch
  release_list d [] = d
  release_list d (c ∷ cs) = release_list (release_child g d c) cs

  pub release_from-list :
      (n e : ℕ) (d : JobDispatch)
      → release_from g n e d ≡ release_list d (slice n e g.child_task_ids)
  unfolding release_from release_list
  release_from-list zero e d = refl
  release_from-list (suc n) e d =
      release_from-list n (e + 1) (release_child g d (g.child_task_ids e))

  pub release_successors-list :
      (d : JobDispatch) (t : ℕ) → release_successors g d t ≡ release_list d (children t)
  unfolding release_successors
  release_successors-list d t = release_from-list _ _ d
