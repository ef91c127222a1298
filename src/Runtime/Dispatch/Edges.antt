-- ===== src/Runtime/Dispatch/Edges.antt =====
-- How far a phase has come, and that the release of one edge keeps the account.
use native.Mathlib.Decide.{dec_lt, ℕ_discrete}
use mmo_server.Common.{
  ℕ, ◌+◌, ◌-◌, ◌*◌, ◌%◌, ◌^◌, ◌≤◌, ◌<◌, ◌≡◌, ◌≢◌, ap, subst, ◌⊎◌, inl, inr, List, [], ◌∷◌, ◌++◌,
  arith, length, length-append, count, count-append, ◌==◌, if◌then◌else◌, update,
}
use mmo_server.Queue.Fifo
use mmo_server.Runtime.Phase.{phase_index}
use mmo_server.Runtime.Graph.{TaskGraph, max_nodes}
use mmo_server.Runtime.Dispatch.{JobDispatch, submit, release_child}
use mmo_server.Runtime.Dispatch.Counting.{
  sum_over, sum_to-le, sum_to-one, sum_to-tight, sum_over-one, sum_over-nodes,
}
use mmo_server.Runtime.Dispatch.Setup.{IsWellFormed, IsTask, children, parents, phase_of, node_id}

module _ (g : TaskGraph) where
  -- The edges into `c` from a list of tasks.
  abbrev pub edges_into : ℕ → List ℕ → ℕ
  edges_into c = sum_over (λ t. count c (children g t))

  -- While phase `now` runs: the tasks `finished` were taken from the queue, the edges to `pending` of
  -- the last of them are still to be released, and `running` tasks are out of the queue and counted.
  -- A task of the phase is queued or finished, once, exactly if it waits for no parent.
  pub record Progress (now : ℕ) (d : JobDispatch) (finished pending : List ℕ) (running : ℕ)
      : Type 0 where
    pub at : phase_index d.current_phase ≡ now
    pub waits :
        (c : ℕ)
        → IsTask g c
        → d.runtime_state c + edges_into c finished ≡ parents g c + count c pending
    pub pending_edges : (c : ℕ) → count c pending ≤ edges_into c finished
    pub present :
        (c : ℕ)
        → IsTask g c
        → phase_of g c ≡ now
        → count c d.ready_queue + count c finished ≡ (if d.runtime_state c == 0 then 1 else 0)
    pub future :
        (c : ℕ) → IsTask g c → now < phase_of g c → count c d.ready_queue + count c finished ≡ 0
    pub past :
        (c : ℕ)
        → IsTask g c
        → phase_of g c < now
        → (count c d.ready_queue ≡ 0) × (count c finished ≡ 1)
    pub valid : (c : ℕ) → (count c d.ready_queue + count c finished ≡ 0) ⊎ IsTask g c
    pub active : d.active_task_count ≡ length d.ready_queue + running

module _ (g : TaskGraph) (w : IsWellFormed g) where
  -- A list of distinct tasks is no longer than the graph.
  pub distinct-length :
      (ts : List ℕ)
      → ((c : ℕ) → (count c ts ≡ 0) ⊎ IsTask g c)
      → ((c : ℕ) → count c ts ≤ 1)
      → length ts ≤ g.node_count
  distinct-length ts valid once = omega (
    arith,
    sum_over-one ts,
    sum_over-nodes g.node_count (node_id g) g.task_id_to_node_index w.indexed (λ _. 1) ts valid,
    sum_to-le g.node_count (λ i. count (node_id g i) ts * 1) (λ _. 1)
        (λ i h. omega (arith, once (node_id g i))),
    sum_to-one g.node_count,
  )

  -- Distinct tasks have no more edges into a task than it has parents.
  pub distinct-edges :
      (ts : List ℕ)
      → ((c : ℕ) → (count c ts ≡ 0) ⊎ IsTask g c)
      → ((c : ℕ) → count c ts ≤ 1)
      → (c : ℕ) → IsTask g c
      → edges_into g c ts ≤ parents g c
  distinct-edges ts valid once c task = omega (
    arith,
    sum_over-nodes g.node_count (node_id g) g.task_id_to_node_index w.indexed
        (λ t. count c (children g t)) ts valid,
    sum_to-le g.node_count (λ i. count (node_id g i) ts * count c (children g (node_id g i)))
        (λ i. count c (children g (node_id g i)))
        (λ i h. scale (count (node_id g i) ts) _ (once (node_id g i))),
    w.counted c task,
  )
    where
      scale : (a b : ℕ) → a ≤ 1 → a * b ≤ b
      scale a b h = grind arith

  -- When all edges into a task come from the list, so do all its parents.
  pub all_edges-parents :
      (ts : List ℕ)
      → ((c : ℕ) → (count c ts ≡ 0) ⊎ IsTask g c)
      → ((c : ℕ) → count c ts ≤ 1)
      → (t : ℕ) → IsTask g t
      → edges_into g t ts ≡ parents g t
      → (i : ℕ) → i < g.node_count
      → count t (children g (node_id g i)) ≢ 0
      → count (node_id g i) ts ≡ 1
  all_edges-parents ts valid single t task all i h edge = share _ _ (single (node_id g i)) edge (
      sum_to-tight g.node_count (λ j. count (node_id g j) ts * count t (children g (node_id g j)))
        (λ j. count t (children g (node_id g j))) (λ j k. scale _ _ (single (node_id g j)))
        (omega (
          arith,
          sum_over-nodes g.node_count (node_id g) g.task_id_to_node_index w.indexed
              (λ u. count t (children g u)) ts valid,
          w.counted t task,
          all,
        ))
        i h)
    where
      scale : (a b : ℕ) → a ≤ 1 → a * b ≤ b
      scale a b k = grind arith

      share : (a b : ℕ) → a ≤ 1 → b ≢ 0 → a * b ≡ b → a ≡ 1
      share a b few some_edge e = grind arith

  module _ (now : ℕ) (d : JobDispatch) (finished : List ℕ) where
    module _ (pending : List ℕ) (running : ℕ) (p : Progress g now d finished pending running) where
      pub once : (c : ℕ) → count c d.ready_queue + count c finished ≤ 1
      once c = elim (p.valid c) [
        | inl e ↦ omega arith
        | inr task ↦ elim (dec_lt (phase_of g c) now) [
          | yes h ↦ omega (arith, p.past c task h)
          | no h ↦ elim (dec_lt now (phase_of g c)) [
            | yes k ↦ omega (arith, p.future c task k)
            | no k ↦ ground (arith, p.present c task (omega arith))
          ]
        ]
      ]

      -- The tasks that the queue and the finished ones make up.
      pub queue_bound : length d.ready_queue + length finished ≤ g.node_count
      queue_bound = omega (
        arith,
        length-append d.ready_queue finished,
        distinct-length (d.ready_queue ++ finished)
            (λ c. ground (arith, p.valid c, count-append c d.ready_queue finished))
            (λ c. omega (arith, once c, count-append c d.ready_queue finished)),
      )

      -- A task that is neither queued nor finished finds room in the queue.
      pub room :
          (c : ℕ)
          → IsTask g c
          → count c d.ready_queue + count c finished ≡ 0
          → length d.ready_queue < max_nodes
      room c task absent = omega (
        arith,
        length-append d.ready_queue finished,
        w.few,
        distinct-length (c ∷ d.ready_queue ++ finished)
            (λ b. elim (ℕ_discrete c b) [
              | yes e ↦ inr (subst (IsTask g) e task)
              | no ne ↦ ground (arith, p.valid b, count-append b d.ready_queue finished)
            ])
            (λ b. elim (ℕ_discrete c b) [
              | yes e ↦ ground (
                arith,
                absent,
                subst (λ a. count a d.ready_queue + count a finished ≡ 0) e absent,
                count-append b d.ready_queue finished,
              )
              | no ne ↦ ground (arith, once b, count-append b d.ready_queue finished)
            ]),
      )

    -- `submit` with room in the queue.
    pub submit_room :
        (id : ℕ)
        → length d.ready_queue < max_nodes
        → d.active_task_count + 1 < 2 ^ 32
        → submit d id ≡ record d {
          ready_queue = d.ready_queue ++ id ∷ [];
          active_task_count = d.active_task_count + 1;
        }
    unfolding submit Fifo.step
    submit_room id free small = ground arith

-- `m_runtimeState[c].remainingDependencies.fetch_sub(1)`
abbrev pub released : JobDispatch → ℕ → JobDispatch
released d c = record d {
  runtime_state = update d.runtime_state c ((d.runtime_state c + 2 ^ 32 - 1) % 2 ^ 32);
}

module _ (g : TaskGraph) (w : IsWellFormed g) (now : ℕ) (d : JobDispatch) (finished : List ℕ)
    (c : ℕ) (pending : List ℕ) (running : ℕ) (few : running ≤ 1) (task : IsTask g c)
    (p : Progress g now d finished (c ∷ pending) running) where
  -- The counter of the child is positive, and fits.
  counter : (0 < d.runtime_state c) × (d.runtime_state c ≤ parents g c)
  counter =
      let few_edges : edges_into g c finished ≤ parents g c =
        distinct-edges g w finished
          (λ b. elim (p.valid b) [ inl e ↦ inl (omega arith) | inr h ↦ inr h ])
          (λ b. omega (arith, once g w now d finished (c ∷ pending) running p b)) c task in
      ground (arith, p.waits c task, p.pending_edges c, few_edges)

  decremented : (d.runtime_state c + 2 ^ 32 - 1) % 2 ^ 32 ≡ d.runtime_state c - 1
  decremented = omega (arith, counter, w.narrow c task)

  -- A child that is not submitted.
  released-Progress :
      (d.runtime_state c ≡ 1 → phase_of g c ≢ now)
      → Progress g now (released d c) finished pending running
  released-Progress other = record {
    at = p.at;
    waits = λ b b_task. ground (arith, p.waits b b_task, decremented, counter, ap d.runtime_state);
    pending_edges = λ b. ground (arith, p.pending_edges b);
    present = λ b b_task h. elim (ℕ_discrete c b) [
      | yes e ↦ ground (
        arith,
        p.present b b_task h,
        other,
        ap (phase_of g) e,
        ap d.runtime_state e,
        decremented,
        counter,
      )
      | no ne ↦ ground (arith, p.present b b_task h)
    ];
    future = p.future;
    past = p.past;
    valid = p.valid;
    active = p.active;
  }

  -- A child of the phase that waited for this parent only is neither queued nor finished.
  absent : d.runtime_state c ≡ 1 → phase_of g c ≡ now → count c d.ready_queue + count c finished ≡ 0
  absent last here = ground (arith, p.present c task here)

  -- A child that is submitted.
  submitted-Progress :
      d.runtime_state c ≡ 1
      → phase_of g c ≡ now
      → Progress g now (submit (released d c) c) finished pending running
  submitted-Progress last here =
      rw (submit_room g w now (released d c) finished c free small) (record {
        at = p.at;
        waits =
            λ b b_task. ground (arith, p.waits b b_task, decremented, counter, ap d.runtime_state);
        pending_edges = λ b. ground (arith, p.pending_edges b);
        present = λ b b_task h. elim (ℕ_discrete c b) [
          | yes e ↦ ground (
            arith,
            p.present b b_task h,
            count-append b d.ready_queue (c ∷ []),
            ap d.runtime_state e,
            decremented,
            last,
          )
          | no ne ↦ ground (arith, p.present b b_task h, count-append b d.ready_queue (c ∷ []))
        ];
        future = λ b b_task h. ground (
          arith,
          p.future b b_task h,
          count-append b d.ready_queue (c ∷ []),
          ap (phase_of g),
          here,
        );
        past = λ b b_task h. ground (
          arith,
          p.past b b_task h,
          count-append b d.ready_queue (c ∷ []),
          ap (phase_of g),
          here,
        );
        valid = λ b. elim (ℕ_discrete c b) [
          | yes e ↦ inr (subst (IsTask g) e task)
          | no ne ↦ ground (arith, p.valid b, count-append b d.ready_queue (c ∷ []))
        ];
        active = omega (arith, p.active, length-append d.ready_queue (c ∷ []));
      })
    where
      free : length d.ready_queue < max_nodes
      free = room g w now d finished (c ∷ pending) running p c task (absent last here)

      small : d.active_task_count + 1 < 2 ^ 32
      small = omega (arith, p.active, free)

  -- The release of one edge, whatever the child is.
  pub release_child-Progress : Progress g now (release_child g d c) finished pending running
  unfolding release_child
  release_child-Progress = elim (ℕ_discrete (d.runtime_state c) 1) [
    | no more ↦ ground (arith, released-Progress (λ last. absurd (more last)))
    | yes last ↦ elim (ℕ_discrete (phase_of g c) now) [
      | yes here ↦ ground (arith, submitted-Progress last here, p.at)
      | no there ↦ ground (arith, released-Progress (λ _. there), p.at)
    ]
  ]
