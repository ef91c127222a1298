-- ===== src/Runtime/Dispatch/Completion.antt =====
-- A phase whose queue has run empty is complete, because the graph has no cycle.
use native.Mathlib.Decide.{dec_lt, ℕ_discrete}
use mmo_server.Common.{ℕ, zero, suc, ◌*◌, ◌≤◌, ◌<◌, ◌≡◌, ◌≢◌, ap, List, [], arith, count}
use mmo_server.Runtime.Graph.{TaskGraph}
use mmo_server.Runtime.Dispatch.{JobDispatch}
use mmo_server.Runtime.Dispatch.Counting.{sum_over-nodes, sum_to-cong, id-IsTask}
use mmo_server.Runtime.Dispatch.Setup.{IsWellFormed, IsTask, children, phase_of, node_id}
use mmo_server.Runtime.Dispatch.Edges.{Progress}
use mmo_server.Runtime.Dispatch.Draining.{finished_valid}

module _ (g : TaskGraph) (w : IsWellFormed g) (now : ℕ) (d : JobDispatch) (finished : List ℕ)
    (p : Progress g now d finished [] 0) (emptied : d.ready_queue ≡ []) where
  -- A task whose parents have all finished waits for nothing.
  released_by_parents :
      (c : ℕ)
      → IsTask g c
      → ((i : ℕ)
          → i < g.node_count
          → count c (children g (node_id g i)) ≢ 0
          → count (node_id g i) finished ≡ 1)
      → d.runtime_state c ≡ 0
  released_by_parents c task all = omega (
    arith,
    p.waits c task,
    w.counted c task,
    sum_over-nodes g.node_count (node_id g) g.task_id_to_node_index w.indexed
        (λ t. count c (children g t)) finished (finished_valid g w now d finished p),
    sum_to-cong g.node_count
        (λ i. count (node_id g i) finished * count c (children g (node_id g i)))
        (λ i. count c (children g (node_id g i))) (λ i h. share _ _ (all i h)),
  )
    where
      share : (a b : ℕ) → (b ≢ 0 → a ≡ 1) → a * b ≡ b
      share a b one = elim (ℕ_discrete b 0) [ yes e ↦ grind arith | no ne ↦ grind (arith, one ne) ]

  by_rank : (k c : ℕ) → w.rank c < k → IsTask g c → phase_of g c ≤ now → count c finished ≡ 1
  by_rank zero c small task h = absurd (omega arith)
  by_rank (suc k) c small task h = elim (dec_lt (phase_of g c) now) [
    | yes earlier ↦ (p.past c task earlier).1
    | no not_earlier ↦
        let zeroed : d.runtime_state c ≡ 0 = released_by_parents c task λ i low edge.
          let parent : IsTask g (node_id g i) =
            id-IsTask g.node_count (node_id g) g.task_id_to_node_index w.indexed i low in
          by_rank k (node_id g i) (omega (arith, w.ranked (node_id g i) c parent edge)) parent
            (omega (arith, w.forward (node_id g i) c parent edge)) in
        ground (arith, p.present c task (omega arith), zeroed, ap (count c) emptied)
  ]

  -- With the queue empty every task of this phase and of the earlier ones has finished, once.
  pub all_finished : (c : ℕ) → IsTask g c → phase_of g c ≤ now → count c finished ≡ 1
  all_finished c task h = by_rank (suc (w.rank c)) c (omega arith) task h
