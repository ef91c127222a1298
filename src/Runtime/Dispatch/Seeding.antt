-- ===== src/Runtime/Dispatch/Seeding.antt =====
-- The start of a phase: the seeded queue starts the account of the phase.
use native.Mathlib.Decide.{ℕ_discrete}
use mmo_server.Common.{
  ℕ, zero, suc, ◌+◌, ◌≤◌, ◌<◌, ◌≡◌, ◌≢◌, sym, ap, ◌∙◌, subst, ◌⊎◌, inl, inr, ◌&&◌, List, [], ◌∷◌,
  arith, length, length-append, count, count-append, ◌==◌, ltb, if◌then◌else◌, ==_iff, ne→==,
}
use mmo_server.Runtime.Phase.{RuntimePhaseId, phase_index}
use mmo_server.Runtime.Graph.{TaskGraph, max_nodes}
use mmo_server.Runtime.Dispatch.{JobDispatch, submit, seed_from, seed_ready_queue}
use mmo_server.Runtime.Dispatch.Counting.{id-IsTask}
use mmo_server.Runtime.Dispatch.Setup.{IsWellFormed, IsTask, parents, phase_of, node_id}
use mmo_server.Runtime.Dispatch.Edges.{Progress, edges_into, distinct-length, submit_room}

module _ (g : TaskGraph) where
  -- Between two phases: the tasks of the phases before `next` have finished, no other has, and the
  -- counters are those of the graph less the edges from the finished tasks.
  pub record Between (next : ℕ) (d : JobDispatch) (finished : List ℕ) : Type 0 where
    pub waits : (c : ℕ) → IsTask g c → d.runtime_state c + edges_into g c finished ≡ parents g c
    pub ran : (c : ℕ) → IsTask g c → phase_of g c < next → count c finished ≡ 1
    pub not_yet : (c : ℕ) → IsTask g c → next ≤ phase_of g c → count c finished ≡ 0
    pub valid : (c : ℕ) → (count c finished ≡ 0) ⊎ IsTask g c
    pub emptied : d.ready_queue ≡ []
    pub idle : d.active_task_count ≡ 0

  -- The queue holds the tasks of the phase that wait for nothing and whose nodes stand below `bound`.
  record Seeded (now bound : ℕ) (d : JobDispatch) (finished : List ℕ) : Type 0 where
    at : phase_index d.current_phase ≡ now
    waits : (c : ℕ) → IsTask g c → d.runtime_state c + edges_into g c finished ≡ parents g c
    ran : (c : ℕ) → IsTask g c → phase_of g c < now → count c finished ≡ 1
    not_yet : (c : ℕ) → IsTask g c → now ≤ phase_of g c → count c finished ≡ 0
    valid : (c : ℕ) → (count c finished ≡ 0) ⊎ IsTask g c
    here :
        (c : ℕ)
        → IsTask g c
        → phase_of g c ≡ now
        → count c d.ready_queue
          ≡ (if ltb (g.task_id_to_node_index c) bound && (d.runtime_state c == 0) then 1 else 0)
    elsewhere : (c : ℕ) → IsTask g c → phase_of g c ≢ now → count c d.ready_queue ≡ 0
    stray : (c : ℕ) → (count c d.ready_queue ≡ 0) ⊎ IsTask g c
    active : d.active_task_count ≡ length d.ready_queue

module _ (g : TaskGraph) (w : IsWellFormed g) (now : ℕ) (finished : List ℕ) where
  module _ (i : ℕ) (d : JobDispatch) (low : i < g.node_count)
      (in_phase : phase_of g (node_id g i) ≡ now) (s : Seeded g now i d finished) where
    new_task : IsTask g (node_id g i)
    new_task = id-IsTask g.node_count (node_id g) g.task_id_to_node_index w.indexed i low

    -- Another task stands at another index.
    other_index : (c : ℕ) → IsTask g c → node_id g i ≢ c → g.task_id_to_node_index c ≢ i
    other_index c task ne e = ne (ap (node_id g) (sym e) ∙ task.1)

    new_absent : count (node_id g i) d.ready_queue ≡ 0
    new_absent = ground (arith, s.here (node_id g i) new_task in_phase, w.indexed i low)

    queued_once : (c : ℕ) → count c d.ready_queue ≤ 1
    queued_once c = elim (s.stray c) [
      | inl e ↦ omega arith
      | inr task ↦ elim (ℕ_discrete (phase_of g c) now) [
        | yes h ↦ ground (arith, s.here c task h)
        | no h ↦ omega (arith, s.elsewhere c task h)
      ]
    ]

    free : length d.ready_queue < max_nodes
    free = omega (
      arith,
      w.few,
      distinct-length g w (node_id g i ∷ d.ready_queue)
          (λ c. elim (ℕ_discrete (node_id g i) c) [
            | yes e ↦ inr (subst (IsTask g) e new_task)
            | no ne ↦ ground (arith, s.stray c)
          ])
          (λ c. elim (ℕ_discrete (node_id g i) c) [
            | yes e ↦ ground (arith, subst (λ b. count b d.ready_queue ≡ 0) e new_absent)
            | no ne ↦ ground (arith, queued_once c)
          ]),
    )

    passed_over-Seeded : d.runtime_state (node_id g i) ≢ 0 → Seeded g now (i + 1) d finished
    passed_over-Seeded waits_for = record {
      at = s.at;
      waits = s.waits;
      ran = s.ran;
      not_yet = s.not_yet;
      valid = s.valid;
      here = λ c task h. elim (ℕ_discrete (node_id g i) c) [
        | yes e ↦ ground (arith, s.here c task h, ap d.runtime_state e)
        | no ne ↦ ground (arith, s.here c task h, other_index c task ne)
      ];
      elsewhere = s.elsewhere;
      stray = s.stray;
      active = s.active;
    }

    queued-Seeded :
        d.runtime_state (node_id g i) ≡ 0 → Seeded g now (i + 1) (submit d (node_id g i)) finished
    queued-Seeded zeroed =
        rw (submit_room g w now d finished (node_id g i) free (omega (arith, s.active, free)))
          (record {
            at = s.at;
            waits = s.waits;
            ran = s.ran;
            not_yet = s.not_yet;
            valid = s.valid;
            here = λ c task h. elim (ℕ_discrete (node_id g i) c) [
              | yes e ↦ ground (
                arith,
                subst (λ b. count b d.ready_queue ≡ 0) e new_absent,
                ap d.runtime_state e,
                count-append c d.ready_queue (node_id g i ∷ []),
                ap g.task_id_to_node_index e,
                w.indexed i low,
              )
              | no ne ↦ ground (
                arith,
                s.here c task h,
                other_index c task ne,
                count-append c d.ready_queue (node_id g i ∷ []),
              )
            ];
            elsewhere = λ c task h. ground (
              arith,
              s.elsewhere c task h,
              count-append c d.ready_queue (node_id g i ∷ []),
              ap (phase_of g),
            );
            stray = λ c. elim (ℕ_discrete (node_id g i) c) [
              | yes e ↦ inr (subst (IsTask g) e new_task)
              | no ne ↦ ground (arith, s.stray c, count-append c d.ready_queue (node_id g i ∷ []))
            ];
            active = omega (arith, s.active, length-append d.ready_queue (node_id g i ∷ []));
          })

    -- One node of the range.
    seed_node-Seeded :
        Seeded g now
          (i + 1)
          (if d.runtime_state (node_id g i) == 0 then submit d (node_id g i) else d)
          finished
    seed_node-Seeded = elim (ℕ_discrete (d.runtime_state (node_id g i)) 0) [
      | yes e ↦ rw ((==_iff (d.runtime_state (node_id g i)) 0).1 e) (queued-Seeded e)
      | no ne ↦ rw (ne→== _ _ ne) (passed_over-Seeded ne)
    ]

  seed_from-Seeded :
      (n i : ℕ) (d : JobDispatch)
      → ((k : ℕ) → k < n → (i + k < g.node_count) × (phase_of g (node_id g (i + k)) ≡ now))
      → Seeded g now i d finished
      → Seeded g now (i + n) (seed_from g n i d) finished
  unfolding seed_from
  seed_from-Seeded zero i d nodes s = subst (λ k. Seeded g now k d finished) (omega arith) s
  seed_from-Seeded (suc n) i d nodes s =
      let here : (i < g.node_count) × (phase_of g (node_id g i) ≡ now) =
        subst (λ j. (j < g.node_count) × (phase_of g (node_id g j) ≡ now)) (omega arith)
          (nodes 0 (omega arith)) in
      subst (λ k. Seeded g now k (seed_from g (suc n) i d) finished) (omega arith)
        (seed_from-Seeded n (i + 1)
          (if d.runtime_state (node_id g i) == 0 then submit d (node_id g i) else d)
          (λ k h.
            subst (λ j. (j < g.node_count) × (phase_of g (node_id g j) ≡ now)) (omega arith)
              (nodes (suc k) (omega arith)))
          (seed_node-Seeded i d here.0 here.1 s))

  -- The queue that SeedReadyQueue leaves starts the account of the phase.
  pub seed-Progress :
      (d : JobDispatch)
      → phase_index d.current_phase ≡ now
      → Between g now d finished
      → Progress g now (seed_ready_queue g d) finished [] 0
  unfolding seed_ready_queue
  seed-Progress d at b = record {
    at = s.at;
    waits = λ c task. omega (arith, s.waits c task);
    pending_edges = λ c. omega arith;
    present = λ c task h. ground (arith, s.here c task h, s.not_yet c task, h, in_range c task h);
    future = λ c task h. ground (arith, s.elsewhere c task, s.not_yet c task);
    past = λ c task h. ground (arith, s.elsewhere c task, s.ran c task h);
    valid = λ c. ground (arith, s.stray c, s.valid c);
    active = omega (arith, s.active);
  }
    where
      phase : RuntimePhaseId
      phase = d.current_phase

      in_range :
          (c : ℕ)
          → IsTask g c
          → phase_of g c ≡ now
          → ((g.phase_ranges phase).begin ≤ g.task_id_to_node_index c)
            × (g.task_id_to_node_index c
                < (g.phase_ranges phase).begin + (g.phase_ranges phase).count)
      in_range c task h = w.in_range phase (g.task_id_to_node_index c) task.0 (h ∙ sym at)

      nodes :
          (k : ℕ)
          → k < (g.phase_ranges phase).count
          → ((g.phase_ranges phase).begin + k < g.node_count)
            × (phase_of g (node_id g ((g.phase_ranges phase).begin + k)) ≡ now)
      nodes k h =
          let (low, here) = w.range_nodes phase k h in
          (low, ap (λ j. phase_index (g.nodes j).phase_id) (w.indexed _ low) ∙ here ∙ at)

      unseeded : Seeded g now (g.phase_ranges phase).begin d finished
      unseeded = record {
        at = at;
        waits = b.waits;
        ran = b.ran;
        not_yet = b.not_yet;
        valid = b.valid;
        here = λ c task h. ground (arith, ap (count c) b.emptied, in_range c task h);
        elsewhere = λ c task h. ap (count c) b.emptied;
        stray = λ c. inl (ap (count c) b.emptied);
        active = omega (arith, b.idle, ap length b.emptied);
      }

      s :
          Seeded g now
            ((g.phase_ranges phase).begin + (g.phase_ranges phase).count)
            (seed_ready_queue g d)
            finished
      s = seed_from-Seeded _ _ d nodes unseeded
