-- ===== src/Runtime/Dispatch/Opening.antt =====
-- Opening a phase: the counters are built, the queue is seeded, and the bindings stay.
use native.Mathlib.Decide.{ℕ_discrete}
use mmo_server.Common.{
  ℕ, zero, suc, ◌+◌, ◌≤◌, ◌≡◌, ◌≢◌, refl, sym, ap, ◌∙◌, inl, inr, ◌&&◌, List, [], arith, ◌==◌, leb,
  ltb, if◌then◌else◌, update, Bool-cases, ne→==,
}
use mmo_server.Runtime.Phase.{RuntimePhaseId, phase_index}
use mmo_server.Runtime.Graph.{TaskGraph}
use mmo_server.Runtime.Dispatch.{
  JobDispatch, submit, seed_from, seed_ready_queue, build_from, build_runtime_state, open_phase,
}
use mmo_server.Runtime.Dispatch.Setup.{IsWellFormed, IsTask, parents, node_id}
use mmo_server.Runtime.Dispatch.Edges.{Progress}
use mmo_server.Runtime.Dispatch.Seeding.{Between, seed-Progress}

module _ (g : TaskGraph) (w : IsWellFormed g) where
  -- What BuildRuntimeState writes for a task.
  build_from-task :
      (n i : ℕ) (state : ℕ → ℕ) (c : ℕ)
      → i + n ≤ g.node_count
      → IsTask g c
      → build_from g n i state c ≡ (
          if leb i (g.task_id_to_node_index c) && ltb (g.task_id_to_node_index c) (i + n)
          then parents g c
          else state c)
  unfolding build_from
  build_from-task zero i state c low task = ground arith
  build_from-task (suc n) i state c low task =
      let rest =
        build_from-task n (i + 1) (update state (node_id g i) (g.nodes i).parent_count) c
          (omega arith) task in
      elim (ℕ_discrete (node_id g i) c) [
        | yes e ↦
            let at : i ≡ g.task_id_to_node_index c =
              sym (w.indexed i (omega arith)) ∙ ap g.task_id_to_node_index e in
            ground (arith, rest, at, ap (λ j. (g.nodes j).parent_count) at)
        | no ne ↦
            let away : g.task_id_to_node_index c ≢ i =
              λ at. ne (ap (node_id g) (sym at) ∙ task.1) in
            ground (arith, rest, away)
      ]

  -- Before the first phase, the counters are built anew.
  build-Between :
      (d : JobDispatch)
      → d.ready_queue ≡ []
      → d.active_task_count ≡ 0
      → Between g 0 (build_runtime_state g d) []
  unfolding build_runtime_state
  build-Between d emptied idle = record {
    waits = λ c task.
        ground (arith, build_from-task g.node_count 0 d.runtime_state c (omega arith) task);
    ran = λ c task h. absurd (omega arith);
    not_yet = λ c task h. refl;
    valid = λ c. inl refl;
    emptied = emptied;
    idle = idle;
  }

  -- A phase opens with its account started: the first phase from a dispatcher at rest, a later one
  -- from where the earlier ones have left it.
  pub open_first-Progress :
      (d : JobDispatch)
      → d.ready_queue ≡ []
      → d.active_task_count ≡ 0
      → Progress g 0 (open_phase g d RuntimePhaseId.input) [] [] 0
  unfolding open_phase
  open_first-Progress d emptied idle =
      seed-Progress g w 0 [] _ refl
        (build-Between (record d { current_phase = RuntimePhaseId.input }) emptied idle)

  pub open_later-Progress :
      (phase : RuntimePhaseId) (d : JobDispatch) (finished : List ℕ)
      → phase_index phase ≢ 0
      → Between g (phase_index phase) d finished
      → Progress g (phase_index phase) (open_phase g d phase) finished [] 0
  unfolding open_phase
  open_later-Progress phase d finished later b = rw (ne→== _ _ later) (
      seed-Progress g w (phase_index phase) finished (record d { current_phase = phase }) refl
        (record {
          waits = b.waits;
          ran = b.ran;
          not_yet = b.not_yet;
          valid = b.valid;
          emptied = b.emptied;
          idle = b.idle;
        }))

-- Opening a phase leaves the bindings and the context alone.
abbrev pub SameOwner : JobDispatch → JobDispatch → Type 0
SameOwner d d' =
    (d'.running ≡ d.running)
    × (d'.task_graph ≡ d.task_graph)
    × (d'.registry ≡ d.registry)
    × (d'.runtime_context ≡ d.runtime_context)
    × (d'.worker_pool.active_worker_count ≡ d.worker_pool.active_worker_count)

seed_node-SameOwner :
    (d : JobDispatch) (id : ℕ) → SameOwner d (if d.runtime_state id == 0 then submit d id else d)
unfolding submit
seed_node-SameOwner d id = ground arith

seed_from-SameOwner : (g : TaskGraph) (n i : ℕ) (d : JobDispatch) → SameOwner d (seed_from g n i d)
unfolding seed_from
seed_from-SameOwner g zero i d = (refl, refl, refl, refl, refl)
seed_from-SameOwner g (suc n) i d =
    let (a, b, c, e, f) = seed_node-SameOwner d (node_id g i) in
    let (a', b', c', e', f') =
      seed_from-SameOwner g n (i + 1)
        (if d.runtime_state (node_id g i) == 0 then submit d (node_id g i) else d) in
    (a' ∙ a, b' ∙ b, c' ∙ c, e' ∙ e, f' ∙ f)

seed_ready_queue-SameOwner : (g : TaskGraph) (d : JobDispatch) → SameOwner d (seed_ready_queue g d)
unfolding seed_ready_queue
seed_ready_queue-SameOwner g d =
    seed_from-SameOwner g (g.phase_ranges d.current_phase).count
      (g.phase_ranges d.current_phase).begin d

build-SameOwner : (g : TaskGraph) (d : JobDispatch) → SameOwner d (build_runtime_state g d)
unfolding build_runtime_state
build-SameOwner g d = (refl, refl, refl, refl, refl)

pub open_phase-SameOwner :
    (g : TaskGraph) (d : JobDispatch) (phase : RuntimePhaseId) → SameOwner d (open_phase g d phase)
unfolding open_phase
open_phase-SameOwner g d phase =
    let entered : JobDispatch = record d { current_phase = phase } in
    elim (Bool-cases (phase_index phase == 0)) [
      | inl e ↦
          rw e (seed_after entered (build_runtime_state g entered) (build-SameOwner g entered))
      | inr e ↦ rw e (seed_after entered entered (refl, refl, refl, refl, refl))
    ]
  where
    seed_after : (a b : JobDispatch) → SameOwner a b → SameOwner a (seed_ready_queue g b)
    seed_after a b (h0, h1, h2, h3, h4) =
        let (k0, k1, k2, k3, k4) = seed_ready_queue-SameOwner g b in
        (k0 ∙ h0, k1 ∙ h1, k2 ∙ h2, k3 ∙ h3, k4 ∙ h4)
