-- ===== src/Runtime/Dispatch/Concurrent/Releasing.antt =====
-- The release of an edge by one worker among others keeps the account of the phase.
use mmo_server.Common.{
  ℕ, ◌+◌, ◌<◌, ◌≡◌, ◌≢◌, refl, ap, ◌∙◌, List, [], ◌∷◌, ◌++◌, arith, length, length-append, count,
  count-append, update,
}
use mmo_server.Runtime.Phase.{phase_index}
use mmo_server.Runtime.Graph.{TaskGraph, max_nodes, get_node}
use mmo_server.Runtime.Dispatch.{release_child, submit}
use mmo_server.Runtime.Dispatch.Setup.{IsWellFormed}
use mmo_server.Runtime.Dispatch.Edges.{Progress, queue_bound, released, room, submit_room}
use mmo_server.Runtime.Dispatch.Concurrent.{Shared, Pc}
use mmo_server.Runtime.Dispatch.Concurrent.Gather.{gather, count-le-length}
use mmo_server.Runtime.Dispatch.Concurrent.Account.{
  pending_of, held_of, queued, settled, Inv, Progress-cong, exchanged, in_queue, edge_first,
  edge_task, one_edge,
}

module _ (g : TaskGraph) (w : IsWellFormed g) (now : ℕ) {n : ℕ} {m : Shared} {pc : ℕ → Pc}
    (inv : Inv g now n m pc) (i : ℕ) (low : i < n) where
  -- The account after a move to `p'` that leaves `m'`.
  abbrev pub Kept : Shared → Pc → Type 0
  Kept m' p' =
      Progress g now (settled n m' (update pc i p')) m'.taken
        (gather (pending_of g) n (update pc i p')) 0

  pub later_phase :
      (child : ℕ)
      → m.dispatch.runtime_state child ≡ 1
      → phase_index (get_node g child).phase_id ≢ phase_index m.dispatch.current_phase
      → release_child g (settled n m pc) child ≡ released (settled n m pc) child
  unfolding release_child
  later_phase child last other = ground arith

  pub still_waiting :
      (child : ℕ)
      → m.dispatch.runtime_state child ≢ 1
      → release_child g (settled n m pc) child ≡ released (settled n m pc) child
  unfolding release_child
  still_waiting child more = ground arith

  module _ (child : ℕ) (rest : List ℕ) (here : pc i ≡ Pc.releasing (child ∷ rest)) where
    -- An edge whose child is not submitted.
    pub passed_over-Kept :
        release_child g (settled n m pc) child ≡ released (settled n m pc) child
        → Kept (record m { dispatch = released m.dispatch child }) (Pc.releasing rest)
    passed_over-Kept e =
        Progress-cong g now (released (settled n m pc) child) _ m.taken _ _
          (rw (← e) (one_edge g now w inv i low child rest here (Pc.releasing rest) refl)) refl
          (λ c. refl)
          (λ c. omega (
            arith,
            in_queue g now w inv i low m (update pc i (Pc.releasing rest)) c,
            in_queue g now w inv i low m pc c,
            exchanged g now w inv i low held_of (Pc.releasing rest) c,
            ap (λ p. count c (held_of p)) here,
          ))
          (λ c. refl) refl

    -- A child that is submitted: it finds room, and the worker holds it before it is queued.
    module _ (last : m.dispatch.runtime_state child ≡ 1)
        (same_phase : phase_index (get_node g child).phase_id
          ≡ phase_index m.dispatch.current_phase) where
      submitting_phase :
          release_child g (settled n m pc) child ≡ submit (released (settled n m pc) child) child
      unfolding release_child
      submitting_phase = ground arith

      free : length (queued n m pc) < max_nodes
      free =
          let p = edge_first g now w inv i low child rest here (Pc.submitting child rest) refl in
          let task = edge_task g now w inv i low child rest here (Pc.submitting child rest) refl in
          room g w now (settled n m pc) m.taken _ 0 p child task
            (ground (arith, p.present child task (same_phase ∙ p.at)))

      pub submitted-Kept :
          Kept (record m { dispatch = released m.dispatch child }) (Pc.submitting child rest)
      submitted-Kept =
          Progress-cong g now
            (record (released (settled n m pc) child) {
              ready_queue = queued n m pc ++ child ∷ [];
              active_task_count = length (queued n m pc) + 1;
            })
            _ m.taken _ _
            (rw
              (← submit_room g w now (released (settled n m pc) child) m.taken child free
                (omega (arith, free)))
              (rw (← submitting_phase)
                (one_edge g now w inv i low child rest here (Pc.submitting child rest) refl)))
            refl (λ c. refl)
            (λ c. omega (
              arith,
              in_queue g now w inv i low m (update pc i (Pc.submitting child rest)) c,
              in_queue g now w inv i low m pc c,
              exchanged g now w inv i low held_of (Pc.submitting child rest) c,
              ap (λ p. count c (held_of p)) here,
              count-append c (queued n m pc) (child ∷ []),
            ))
            (λ c. refl) refl

  -- The queue has room for a child that a worker is about to enqueue.
  pub submitting_room :
      (child : ℕ) (rest : List ℕ)
      → pc i ≡ Pc.submitting child rest
      → length m.dispatch.ready_queue < max_nodes
  submitting_room child rest here = omega (
    arith,
    w.few,
    queue_bound g w now (settled n m pc) m.taken (gather (pending_of g) n pc) 0 inv.account,
    length-append m.dispatch.ready_queue (gather held_of n pc),
    count-le-length child (gather held_of n pc),
    held,
  )
    where
      held : 0 < count child (gather held_of n pc)
      held = ground (
        arith,
        exchanged g now w inv i low held_of Pc.idle child,
        ap (λ p. count child (held_of p)) here,
      )
