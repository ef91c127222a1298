-- ===== src/Runtime/Dispatch/Phases.antt =====
-- ExecutePhase on a well-formed graph, from what the earlier phases have left.
use native.Mathlib.Decide.{dec_lt}
use mmo_server.Common.{
  ℕ, ◌+◌, ◌<◌, ◌≡◌, refl, ap, ◌∙◌, ◌⊎◌, inl, inr, true, some, List, [], ◌∷◌, arith, length, count,
}
use mmo_server.Runtime.Phase.{RuntimePhaseId, phase_index}
use mmo_server.Runtime.Graph.{TaskGraph}
use mmo_server.Runtime.Registry.{TaskRegistry}
use mmo_server.Runtime.Dispatch.{JobDispatch, open_phase, execute_phase}
use mmo_server.Runtime.Dispatch.Setup.{IsWellFormed, IsTask, phase_of}
use mmo_server.Runtime.Dispatch.Edges.{Progress}
use mmo_server.Runtime.Dispatch.Draining.{
  InOrder, then_ran, context_after, drain-Drained, finished_valid,
}
use mmo_server.Runtime.Dispatch.Completion.{all_finished}
use mmo_server.Runtime.Dispatch.Seeding.{Between}
use mmo_server.Runtime.Dispatch.Opening.{open_phase-SameOwner, open_first-Progress}

pub count-then_ran :
    (c : ℕ) (finished ids : List ℕ)
    → count c (then_ran finished ids) ≡ count c finished + count c ids
count-then_ran c finished [] = omega arith
count-then_ran c finished (t ∷ ts) = omega (arith, count-then_ran c (t ∷ finished) ts)

-- What a phase that ran leaves, with the tasks `ids` that it ran.
pub record PhaseRan (g : TaskGraph) (r : TaskRegistry) (phase : RuntimePhaseId) (finished : List ℕ)
    (d : JobDispatch) (ids : List ℕ) (d' : JobDispatch) : Type 0 where
  pub every : (c : ℕ) → IsTask g c → phase_of g c ≡ phase_index phase → count c ids ≡ 1
  pub no_other : (c : ℕ) → (count c ids ≡ 0) ⊎ (IsTask g c × (phase_of g c ≡ phase_index phase))
  pub ordered : InOrder g finished ids
  pub left : Between g (phase_index phase + 1) d' (then_ran finished ids)
  pub context : d'.runtime_context ≡ context_after r ids d.runtime_context
  pub still_running : d'.running ≡ d.running
  pub same_graph : d'.task_graph ≡ d.task_graph
  pub same_registry : d'.registry ≡ d.registry
  pub same_workers : d'.worker_pool.active_worker_count ≡ d.worker_pool.active_worker_count

module _ (g : TaskGraph) (w : IsWellFormed g) (r : TaskRegistry) (fuel : ℕ)
    (enough : g.node_count < fuel) where
  -- A task of another phase does not run.
  others :
      (now : ℕ) (d d' : JobDispatch) (finished ids : List ℕ)
      → Progress g now d finished [] 0
      → Progress g now d' (then_ran finished ids) [] 0
      → (c : ℕ) → (count c ids ≡ 0) ⊎ (IsTask g c × (phase_of g c ≡ now))
  others now d d' finished ids p q c = elim (q.valid c) [
    | inl e ↦ inl (omega (arith, count-then_ran c finished ids))
    | inr task ↦ elim (dec_lt (phase_of g c) now) [
      | yes h ↦ inl (omega (arith, count-then_ran c finished ids, p.past c task h, q.past c task h))
      | no h ↦ elim (dec_lt now (phase_of g c)) [
        | yes k ↦ inl (omega (arith, count-then_ran c finished ids, q.future c task k))
        | no k ↦ inr (task, omega arith)
      ]
    ]
  ]

  -- The phase is run from an account that has started, with nothing of the phase finished.
  run_opened :
      (d : JobDispatch) (phase : RuntimePhaseId) (finished : List ℕ)
      → d.running ≡ true
      → Progress g (phase_index phase) (open_phase g d phase) finished [] 0
      → ((c : ℕ) → IsTask g c → phase_of g c ≡ phase_index phase → count c finished ≡ 0)
      → (ids : List ℕ) × (d' : JobDispatch) × (execute_phase fuel g r d phase
          ≡ some (true, ids, d'))
        × PhaseRan g r phase finished d ids d'
  unfolding execute_phase
  run_opened d phase finished running p fresh =
      let (ids, d', ran, v) =
        drain-Drained g w (phase_index phase) fuel r (open_phase g d phase) finished p
          (omega arith) in
      let q : Progress g (phase_index phase) d' (then_ran finished ids) [] 0 = v.account in
      let rested : d'.active_task_count ≡ 0 = omega (arith, q.active, ap length v.emptied) in
      let (same_running, same_graph, same_registry, same_context, same_workers) =
        open_phase-SameOwner g d phase in
      (
        ids,
        d',
        ground (arith, ran, running, rested),
        record {
          every = λ c task h. omega (
            arith,
            all_finished g w (phase_index phase) d' (then_ran finished ids) q v.emptied c task
                (omega arith),
            count-then_ran c finished ids,
            fresh c task h,
          );
          no_other = λ c. others (phase_index phase) (open_phase g d phase) d' finished ids p q c;
          ordered = v.ordered;
          left = record {
            waits = λ c task. omega (arith, q.waits c task);
            ran = λ c task h.
                all_finished g w (phase_index phase) d' (then_ran finished ids) q v.emptied c task
                  (omega arith);
            not_yet = λ c task h. omega (arith, q.future c task (omega arith));
            valid = finished_valid g w (phase_index phase) d' (then_ran finished ids) q;
            emptied = v.emptied;
            idle = rested;
          };
          context = v.context ∙ ap (context_after r ids) same_context;
          still_running = v.still_running ∙ same_running;
          same_graph = v.same_graph ∙ same_graph;
          same_registry = v.same_registry ∙ same_registry;
          same_workers = v.same_workers ∙ same_workers;
        },
      )

  -- The first phase, from a dispatcher at rest.
  pub run_first :
      (d : JobDispatch)
      → d.running ≡ true
      → d.ready_queue ≡ []
      → d.active_task_count ≡ 0
      → (ids : List ℕ) × (d' : JobDispatch) × (execute_phase fuel g r d RuntimePhaseId.input
          ≡ some (true, ids, d'))
        × PhaseRan g r RuntimePhaseId.input [] d ids d'
  run_first d running emptied idle =
      run_opened d RuntimePhaseId.input [] running (open_first-Progress g w d emptied idle)
        (λ c task h. refl)
