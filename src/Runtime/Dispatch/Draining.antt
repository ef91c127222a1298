-- ===== src/Runtime/Dispatch/Draining.antt =====
-- The worker's rounds: each keeps the account of the phase, and they end.
use native.Mathlib.Decide.{dec_lt}
use mmo_server.Common.{
  ℕ, zero, suc, ◌+◌, ◌≤◌, ◌<◌, ◌≡◌, ◌≢◌, refl, ap, ◌∙◌, ◌⊎◌, inl, inr, Option, some, List, [], ◌∷◌,
  arith, length, List-cases, count,
}
use mmo_server.Runtime.Phase.{RuntimeContext}
use mmo_server.Runtime.Graph.{TaskGraph}
use mmo_server.Runtime.Registry.{TaskRegistry, resolve}
use mmo_server.Runtime.Dispatch.{
  JobDispatch, release_child, on_task_completed, execute_task, call_function, work, drain, submit,
}
use mmo_server.Runtime.Dispatch.Setup.{
  IsWellFormed, IsTask, children, phase_of, node_id, release_list, release_successors-list,
}
use mmo_server.Runtime.Dispatch.Edges.{
  Progress, release_child-Progress, once, queue_bound, all_edges-parents,
}

-- The tasks that have run after `ids` ran in this order, the last one first.
abbrev pub then_ran : List ℕ → List ℕ → List ℕ
then_ran finished [] = finished
then_ran finished (t ∷ ts) = then_ran (t ∷ finished) ts

-- Each task of the list runs after all its parents: after those finished before, and those further
-- up in the list.
abbrev pub InOrder : TaskGraph → List ℕ → List ℕ → Type 0
InOrder g finished [] = Unit {0}
InOrder g finished (t ∷ ts) =
    ((i : ℕ)
      → i < g.node_count
      → count t (children g (node_id g i)) ≢ 0
      → count (node_id g i) finished ≡ 1)
    × InOrder g (t ∷ finished) ts

-- The context after the functions of the tasks were called in order.
abbrev pub context_after : TaskRegistry → List ℕ → Option RuntimeContext → Option RuntimeContext
context_after r [] context = context
context_after r (t ∷ ts) context = context_after r ts (call_function (resolve r t) context)

-- What the release of edges leaves alone.
abbrev pub SameBinding : JobDispatch → JobDispatch → Type 0
SameBinding d d' =
    (d'.running ≡ d.running)
    × (d'.task_graph ≡ d.task_graph)
    × (d'.registry ≡ d.registry)
    × (d'.runtime_context ≡ d.runtime_context)
    × (d'.current_phase ≡ d.current_phase)
    × (d'.phase_epoch ≡ d.phase_epoch)
    × (d'.worker_pool.active_worker_count ≡ d.worker_pool.active_worker_count)

module _ (g : TaskGraph) where
  release_child-SameBinding : (d : JobDispatch) (c : ℕ) → SameBinding d (release_child g d c)
  unfolding release_child submit
  release_child-SameBinding d c = ground arith

  release_list-SameBinding : (d : JobDispatch) (cs : List ℕ) → SameBinding d (release_list g d cs)
  unfolding release_list
  release_list-SameBinding d [] = (refl, refl, refl, refl, refl, refl, refl)
  release_list-SameBinding d (c ∷ cs) =
      ground
        (arith, release_child-SameBinding d c, release_list-SameBinding (release_child g d c) cs)

module _ (g : TaskGraph) (w : IsWellFormed g) (now : ℕ) where
  release_list-Progress :
      (d : JobDispatch) (finished cs : List ℕ)
      → ((c : ℕ) → count c cs ≢ 0 → IsTask g c)
      → Progress g now d finished cs 1
      → Progress g now (release_list g d cs) finished [] 1
  unfolding release_list
  release_list-Progress d finished [] tasks p = p
  release_list-Progress d finished (c ∷ cs) tasks p =
      release_list-Progress (release_child g d c) finished cs (λ b h. tasks b (omega arith))
        (release_child-Progress g w now d finished c cs 1 (omega arith) (tasks c (ground arith)) p)

  -- A task is taken from the queue: its edges are now pending.
  taken-Progress :
      (d : JobDispatch) (t : ℕ) (rest finished : List ℕ) (r : TaskRegistry)
      → d.ready_queue ≡ t ∷ rest
      → Progress g now d finished [] 0
      → Progress g now
          (execute_task (record d { ready_queue = rest }) r t)
          (t ∷ finished)
          (children g t)
          1
  unfolding execute_task
  taken-Progress d t rest finished r e p = record {
    at = p.at;
    waits = λ c task. omega (arith, p.waits c task);
    pending_edges = λ c. omega arith;
    present = λ c task h. ground (arith, p.present c task h, ap (count c) e);
    future = λ c task h. ground (arith, p.future c task h, ap (count c) e);
    past = λ c task h. ground (arith, p.past c task h, ap (count c) e);
    valid = λ c. ground (arith, p.valid c, ap (count c) e);
    active = omega (arith, p.active, ap length e);
  }

  -- The task at the head of the queue belongs to the phase and waits for nothing.
  head_task :
      (d : JobDispatch) (t : ℕ) (rest finished : List ℕ)
      → d.ready_queue ≡ t ∷ rest
      → Progress g now d finished [] 0
      → IsTask g t × (phase_of g t ≡ now) × (d.runtime_state t ≡ 0) × (count t finished ≡ 0)
  head_task d t rest finished e p =
      let queued : 0 < count t d.ready_queue = ground (arith, ap (count t) e) in
      let task : IsTask g t = elim (p.valid t) [ inl h ↦ absurd (omega arith) | inr h ↦ h ] in
      let here : phase_of g t ≡ now = elim (dec_lt (phase_of g t) now) [
        | yes h ↦ absurd (omega (arith, p.past t task h))
        | no h ↦ elim (dec_lt now (phase_of g t)) [
          | yes k ↦ absurd (omega (arith, p.future t task k))
          | no k ↦ omega arith
        ]
      ] in
      (task, here, ground (arith, p.present t task here), ground (arith, p.present t task here))

  module _ (d : JobDispatch) (finished : List ℕ) (p : Progress g now d finished [] 0) where
    pub finished_valid : (c : ℕ) → (count c finished ≡ 0) ⊎ IsTask g c
    finished_valid c = elim (p.valid c) [ inl e ↦ inl (omega arith) | inr h ↦ inr h ]

    finished_once : (c : ℕ) → count c finished ≤ 1
    finished_once c = omega (arith, once g w now d finished [] 0 p c)

    -- A task waits for nothing exactly if all its parents have finished.
    pub parents_finished :
        (t : ℕ)
        → IsTask g t
        → d.runtime_state t ≡ 0
        → (i : ℕ) → i < g.node_count
        → count t (children g (node_id g i)) ≢ 0
        → count (node_id g i) finished ≡ 1
    parents_finished t task zeroed =
        all_edges-parents g w finished finished_valid finished_once t task
          (omega (arith, p.waits t task))

  -- A round of the worker with task `t` from the queue.
  work-Progress :
      (d : JobDispatch) (t : ℕ) (rest finished : List ℕ) (r : TaskRegistry)
      → d.ready_queue ≡ t ∷ rest
      → Progress g now d finished [] 0
      → Progress g now (work g r (record d { ready_queue = rest }) t) (t ∷ finished) [] 0
  unfolding work on_task_completed
  work-Progress d t rest finished r e p = rw (release_successors-list g _ t) (record {
    at = q.at;
    waits = q.waits;
    pending_edges = q.pending_edges;
    present = q.present;
    future = q.future;
    past = q.past;
    valid = q.valid;
    active = omega (arith, q.active, queue_bound g w now _ (t ∷ finished) [] 1 q, w.few);
  })
    where
      task : IsTask g t
      task = (head_task d t rest finished e p).0

      q :
          Progress g now
            (release_list g (execute_task (record d { ready_queue = rest }) r t) (children g t))
            (t ∷ finished)
            []
            1
      q =
          release_list-Progress _ (t ∷ finished) (children g t) (λ c h. w.closed t c task h)
            (taken-Progress d t rest finished r e p)

  work_binding :
      (d : JobDispatch) (t : ℕ) (rest : List ℕ) (r : TaskRegistry)
      → ((work g r (record d { ready_queue = rest }) t).running ≡ d.running)
        × ((work g r (record d { ready_queue = rest }) t).task_graph ≡ d.task_graph)
        × ((work g r (record d { ready_queue = rest }) t).registry ≡ d.registry)
        × ((work g r (record d { ready_queue = rest }) t).runtime_context
            ≡ call_function (resolve r t) d.runtime_context)
        × ((work g r (record d { ready_queue = rest }) t).worker_pool.active_worker_count
            ≡ d.worker_pool.active_worker_count)
  unfolding work on_task_completed execute_task
  work_binding d t rest r = rw (release_successors-list g _ t) (
      ground (
        arith,
        release_list-SameBinding g (execute_task (record d { ready_queue = rest }) r t)
            (children g t),
      ))

  -- What the drained queue leaves: nothing queued, the account kept, the order respected.
  pub record Drained (r : TaskRegistry) (d : JobDispatch) (finished ids : List ℕ) (d' : JobDispatch)
      : Type 0 where
    pub emptied : d'.ready_queue ≡ []
    pub account : Progress g now d' (then_ran finished ids) [] 0
    pub ordered : InOrder g finished ids
    pub context : d'.runtime_context ≡ context_after r ids d.runtime_context
    pub still_running : d'.running ≡ d.running
    pub same_graph : d'.task_graph ≡ d.task_graph
    pub same_registry : d'.registry ≡ d.registry
    pub same_workers : d'.worker_pool.active_worker_count ≡ d.worker_pool.active_worker_count

  -- Fuel for every task that has not finished, and one round more, is enough.
  pub drain-Drained :
      (fuel : ℕ) (r : TaskRegistry) (d : JobDispatch) (finished : List ℕ)
      → Progress g now d finished [] 0
      → g.node_count < length finished + fuel
      → (ids : List ℕ) × (d' : JobDispatch) × (drain fuel g r d ≡ some (ids, d'))
        × Drained r d finished ids d'
  unfolding drain
  drain-Drained zero r d finished p enough =
      absurd (omega (arith, queue_bound g w now d finished [] 0 p))
  drain-Drained (suc fuel) r d finished p enough = elim (List-cases d.ready_queue) [
    | inl e ↦ (
      [],
      d,
      ground (arith, e),
      record {
        emptied = e;
        account = p;
        ordered = tt;
        context = refl;
        still_running = refl;
        same_graph = refl;
        same_registry = refl;
        same_workers = refl;
      },
    )
    | inr (t, rest, e) ↦
        let (task, here, zeroed, new) = head_task d t rest finished e p in
        let (ids, d', ran, v) =
          drain-Drained fuel r (work g r (record d { ready_queue = rest }) t) (t ∷ finished)
            (work-Progress d t rest finished r e p) (omega arith) in
        (
          t ∷ ids,
          d',
          ground (arith, e, ran),
          record {
            emptied = v.emptied;
            account = v.account;
            ordered = (parents_finished d finished p t task zeroed, v.ordered);
            context = v.context ∙ ap (context_after r ids) (work_binding d t rest r).3;
            still_running = v.still_running ∙ (work_binding d t rest r).0;
            same_graph = v.same_graph ∙ (work_binding d t rest r).1;
            same_registry = v.same_registry ∙ (work_binding d t rest r).2;
            same_workers = v.same_workers ∙ (work_binding d t rest r).4;
          },
        )
  ]
