-- ===== src/Runtime/Dispatch/Concurrent/Account.antt =====
-- The account of a phase between the moves of its workers: Progress, where a child that a worker is
-- about to enqueue counts as queued, and the edges of a task that was taken are pending until they are
-- released.
use native.Mathlib.Decide.{ℕ_discrete}
use mmo_server.Common.{
  ℕ, ◌+◌, ◌<◌, ◌≡◌, ◌≢◌, refl, ap, ◌∙◌, ◌⊎◌, inl, inr, List, [], ◌∷◌, ◌++◌, arith, length, count,
  count-append, update,
}
use mmo_server.Runtime.Phase.{phase_index}
use mmo_server.Runtime.Graph.{TaskGraph}
use mmo_server.Runtime.Dispatch.{JobDispatch, release_child}
use mmo_server.Runtime.Dispatch.Setup.{IsWellFormed, IsTask, children}
use mmo_server.Runtime.Dispatch.Edges.{Progress, edges_into, release_child-Progress}
use mmo_server.Runtime.Dispatch.Concurrent.{Shared, Pc}
use mmo_server.Runtime.Dispatch.Concurrent.Gather.{gather, gather-update}

-- The edges that a worker has still to release, the child it is about to enqueue, and the task whose
-- function it is about to call.
abbrev pub pending_of : TaskGraph → Pc → List ℕ
pending_of g (Pc.executing task) = children g task
pending_of g (Pc.releasing rest) = rest
pending_of g (Pc.submitting child rest) = rest
pending_of g (Pc.counting rest) = rest
pending_of g _ = []

abbrev pub held_of : Pc → List ℕ
held_of (Pc.submitting child rest) = child ∷ []
held_of _ = []

abbrev pub executing_of : Pc → List ℕ
executing_of (Pc.executing task) = task ∷ []
executing_of _ = []

abbrev pub queued : ℕ → Shared → (ℕ → Pc) → List ℕ
queued n m pc = m.dispatch.ready_queue ++ gather held_of n pc

abbrev pub settled : ℕ → Shared → (ℕ → Pc) → JobDispatch
settled n m pc = record m.dispatch {
  ready_queue = queued n m pc;
  active_task_count = length (queued n m pc);
}

pub record Inv (g : TaskGraph) (now n : ℕ) (m : Shared) (pc : ℕ → Pc) : Type 0 where
  pub account : Progress g now (settled n m pc) m.taken (gather (pending_of g) n pc) 0
  pub ran : (c : ℕ) → count c m.executed + count c (gather executing_of n pc) ≡ count c m.taken

module _ (g : TaskGraph) (now : ℕ) where
  -- The account reads the queue and the pending edges by what they count.
  pub Progress-cong :
      (d d' : JobDispatch) (taken pending pending' : List ℕ)
      → Progress g now d taken pending 0
      → phase_index d'.current_phase ≡ phase_index d.current_phase
      → ((c : ℕ) → d'.runtime_state c ≡ d.runtime_state c)
      → ((c : ℕ) → count c d'.ready_queue ≡ count c d.ready_queue)
      → ((c : ℕ) → count c pending' ≡ count c pending)
      → d'.active_task_count ≡ length d'.ready_queue
      → Progress g now d' taken pending' 0
  Progress-cong d d' taken pending pending' p at state queue edges active = record {
    at = at ∙ p.at;
    waits = λ c task. omega (arith, p.waits c task, state c, edges c);
    pending_edges = λ c. omega (arith, p.pending_edges c, edges c);
    present = λ c task h. ground (arith, p.present c task h, state c, queue c);
    future = λ c task h. omega (arith, p.future c task h, queue c);
    past = λ c task h. omega (arith, p.past c task h, queue c);
    valid = λ c. ground (arith, p.valid c, queue c);
    active = omega (arith, active);
  }

  -- A task leaves the queue, and its edges are pending.
  pub Progress-take :
      (d d' : JobDispatch) (t : ℕ) (taken pending pending' : List ℕ)
      → Progress g now d taken pending 0
      → phase_index d'.current_phase ≡ phase_index d.current_phase
      → ((c : ℕ) → d'.runtime_state c ≡ d.runtime_state c)
      → ((c : ℕ) → count c d.ready_queue ≡ count c (t ∷ d'.ready_queue))
      → ((c : ℕ) → count c pending' ≡ count c pending + count c (children g t))
      → d'.active_task_count ≡ length d'.ready_queue
      → Progress g now d' (t ∷ taken) pending' 0
  Progress-take d d' t taken pending pending' p at state queue edges active = record {
    at = at ∙ p.at;
    waits = λ c task. omega (arith, p.waits c task, state c, edges c);
    pending_edges = λ c. omega (arith, p.pending_edges c, edges c);
    present = λ c task h. ground (arith, p.present c task h, state c, queue c);
    future = λ c task h. ground (arith, p.future c task h, queue c);
    past = λ c task h. ground (arith, p.past c task h, queue c);
    valid = λ c. ground (arith, p.valid c, queue c);
    active = omega (arith, active);
  }

  module _ (w : IsWellFormed g) {n : ℕ} {m : Shared} {pc : ℕ → Pc} (inv : Inv g now n m pc) (i : ℕ)
      (low : i < n) where
    pub exchanged :
        (f : Pc → List ℕ) (p : Pc) (c : ℕ)
        → count c (gather f n (update pc i p)) + count c (f (pc i))
          ≡ count c (gather f n pc) + count c (f p)
    exchanged f p c = gather-update f n pc i p c low

    pub in_queue :
        (m' : Shared) (pc' : ℕ → Pc) (c : ℕ)
        → count c (queued n m' pc')
          ≡ count c m'.dispatch.ready_queue + count c (gather held_of n pc')
    in_queue m' pc' c = count-append c m'.dispatch.ready_queue (gather held_of n pc')

    -- A move that neither touches an edge nor the queue.
    pub quiet-Progress :
        (m' : Shared) (p' : Pc)
        → m'.taken ≡ m.taken
        → m'.dispatch.current_phase ≡ m.dispatch.current_phase
        → m'.dispatch.runtime_state ≡ m.dispatch.runtime_state
        → m'.dispatch.ready_queue ≡ m.dispatch.ready_queue
        → held_of p' ≡ held_of (pc i)
        → pending_of g p' ≡ pending_of g (pc i)
        → Progress g now
            (settled n m' (update pc i p'))
            m'.taken
            (gather (pending_of g) n (update pc i p'))
            0
    quiet-Progress m' p' same_taken same_phase same_state same_queue same_held same_pending =
        rw same_taken (
          Progress-cong (settled n m pc) (settled n m' (update pc i p')) m.taken
            (gather (pending_of g) n pc) (gather (pending_of g) n (update pc i p')) inv.account
            (ap phase_index same_phase) (λ c. ap (λ f. f c) same_state)
            (λ c. omega (
              arith,
              in_queue m' (update pc i p') c,
              in_queue m pc c,
              exchanged held_of p' c,
              ap (count c) same_held,
              ap (count c) same_queue,
            ))
            (λ c. omega (arith, exchanged (pending_of g) p' c, ap (count c) same_pending)) refl)

    -- An edge leads to a task.
    child_task :
        (c : ℕ) (taken : List ℕ)
        → ((t : ℕ) → (count t taken ≡ 0) ⊎ IsTask g t)
        → edges_into g c taken ≢ 0
        → IsTask g c
    child_task c [] valid some_edge = absurd (some_edge refl)
    child_task c (t ∷ taken) valid some_edge = elim (ℕ_discrete (count c (children g t)) 0) [
      | yes e ↦
          child_task c taken
            (λ u. elim (valid u) [ inl h ↦ inl (omega arith) | inr task ↦ inr task ]) (omega arith)
      | no ne ↦ elim (valid t) [ inl h ↦ absurd (ground arith) | inr task ↦ w.closed t c task ne ]
    ]

    module _ (child : ℕ) (rest : List ℕ) (here : pc i ≡ Pc.releasing (child ∷ rest)) where
      -- The account with the edge that is about to be released in front.
      pub edge_first :
          (p' : Pc)
          → pending_of g p' ≡ rest
          → Progress g now
              (settled n m pc)
              m.taken
              (child ∷ gather (pending_of g) n (update pc i p'))
              0
      edge_first p' left =
          Progress-cong (settled n m pc) (settled n m pc) m.taken (gather (pending_of g) n pc)
            (child ∷ gather (pending_of g) n (update pc i p')) inv.account refl (λ c. refl)
            (λ c. refl)
            (λ c. ground (
              arith,
              exchanged (pending_of g) p' c,
              ap (λ p. count c (pending_of g p)) here,
              ap (count c) left,
            ))
            refl

      pub edge_task : (p' : Pc) → pending_of g p' ≡ rest → IsTask g child
      edge_task p' left =
          let p = edge_first p' left in
          child_task child m.taken
            (λ t. elim (p.valid t) [ inl h ↦ inl (omega arith) | inr task ↦ inr task ])
            (ground (arith, p.pending_edges child))

      pub one_edge :
          (p' : Pc) (left : pending_of g p' ≡ rest)
          → Progress g now
              (release_child g (settled n m pc) child)
              m.taken
              (gather (pending_of g) n (update pc i p'))
              0
      one_edge p' left =
          release_child-Progress g w now (settled n m pc) m.taken child
            (gather (pending_of g) n (update pc i p')) 0 (omega arith) (edge_task p' left)
            (edge_first p' left)
