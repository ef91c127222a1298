-- ===== src/Runtime/Dispatch/Concurrent/Moves.antt =====
-- Each move of a worker keeps the account of the phase.
use mmo_server.Common.{
  ℕ, ◌+◌, ◌<◌, ◌≡◌, refl, ap, sym, ◌∙◌, List, [], ◌∷◌, ◌++◌, arith, length, count, count-append,
  update,
}
use mmo_server.Queue.Fifo
use mmo_server.Queue.Fifo.{enqueues}
use mmo_server.Runtime.Graph.{TaskGraph, max_nodes}
use mmo_server.Runtime.Registry.{TaskRegistry}
use mmo_server.Runtime.Dispatch.{JobDispatch, execute_task}
use mmo_server.Runtime.Dispatch.Setup.{IsWellFormed}
use mmo_server.Runtime.Dispatch.Edges.{room}
use mmo_server.Runtime.Dispatch.Concurrent.{
  Shared, Pc, Move, take, execute, release_last, release_later, release_waiting, enqueue, complete,
  after_completed,
}
use mmo_server.Runtime.Dispatch.Concurrent.Gather.{gather}
use mmo_server.Runtime.Dispatch.Concurrent.Account.{
  pending_of, held_of, executing_of, settled, Inv, Progress-cong, Progress-take, exchanged,
  in_queue, quiet-Progress,
}
use mmo_server.Runtime.Dispatch.Concurrent.Releasing.{
  Kept, passed_over-Kept, submitted-Kept, submitting_room, later_phase, still_waiting,
}

stored :
    (queue : List ℕ) (child : ℕ)
    → length queue < max_nodes
    → (Fifo.step max_nodes queue (enqueues child)).1 ≡ queue ++ child ∷ []
unfolding Fifo.step
stored queue child room = ground arith

held-after : (d : JobDispatch) → held_of (after_completed d) ≡ []
held-after d = ground arith

pending-after : (g : TaskGraph) (d : JobDispatch) → pending_of g (after_completed d) ≡ []
pending-after g d = ground arith

executing-after : (d : JobDispatch) → executing_of (after_completed d) ≡ []
executing-after d = ground arith

module _ (g : TaskGraph) (w : IsWellFormed g) (now : ℕ) {n : ℕ} {m : Shared} {pc : ℕ → Pc}
    (inv : Inv g now n m pc) (i : ℕ) (low : i < n) where
  enqueue-Kept :
      (child : ℕ) (rest : List ℕ)
      → pc i ≡ Pc.submitting child rest
      → Kept g w now inv i low
          (record m {
            dispatch = record m.dispatch {
              ready_queue = (Fifo.step max_nodes m.dispatch.ready_queue (enqueues child)).1;
            };
          })
          (Pc.counting rest)
  enqueue-Kept child rest here =
      Progress-cong g now (settled n m pc) _ m.taken _ _ inv.account refl (λ c. refl)
        (λ c. omega (
          arith,
          count-append c (Fifo.step max_nodes m.dispatch.ready_queue (enqueues child)).1
              (gather held_of n (update pc i (Pc.counting rest))),
          ap (count c) (
              stored m.dispatch.ready_queue child
                (submitting_room g w now inv i low child rest here)),
          count-append c m.dispatch.ready_queue (child ∷ []),
          in_queue g now w inv i low m pc c,
          exchanged g now w inv i low held_of (Pc.counting rest) c,
          ap (λ p. count c (held_of p)) here,
        ))
        (λ c. omega (
          arith,
          exchanged g now w inv i low (pending_of g) (Pc.counting rest) c,
          ap (λ p. count c (pending_of g p)) here,
        ))
        refl

  take-Kept :
      (t : ℕ) (rest : List ℕ)
      → pc i ≡ Pc.idle
      → m.dispatch.ready_queue ≡ t ∷ rest
      → Kept g w now inv i low
          (record m { dispatch = record m.dispatch { ready_queue = rest }; taken = t ∷ m.taken })
          (Pc.executing t)
  take-Kept t rest here head =
      Progress-take g now (settled n m pc) _ t m.taken _ _ inv.account refl (λ c. refl)
        (λ c. omega (
          arith,
          count-append c rest (gather held_of n (update pc i (Pc.executing t))),
          ap (count c) head,
          in_queue g now w inv i low m pc c,
          exchanged g now w inv i low held_of (Pc.executing t) c,
          ap (λ p. count c (held_of p)) here,
        ))
        (λ c. omega (
          arith,
          exchanged g now w inv i low (pending_of g) (Pc.executing t) c,
          ap (λ p. count c (pending_of g p)) here,
        ))
        refl

  Move-Kept :
      (r : TaskRegistry) {m' : Shared} {p p' : Pc}
      → Move g r m p m' p'
      → pc i ≡ p
      → Kept g w now inv i low m' p'
  unfolding execute_task
  Move-Kept r (take {task} {rest} e) here = take-Kept task rest here e
  Move-Kept r (release_last {child} {rest} last same) here =
      submitted-Kept g w now inv i low child rest here last same
  Move-Kept r (release_later {child} {rest} last other) here =
      passed_over-Kept g w now inv i low child rest here
        (later_phase g w now inv i low child last other)
  Move-Kept r (release_waiting {child} {rest} more) here =
      passed_over-Kept g w now inv i low child rest here
        (still_waiting g w now inv i low child more)
  Move-Kept r (enqueue {child} {rest}) here = enqueue-Kept child rest here
  Move-Kept r {m'} {p'} complete here =
      quiet-Progress g now w inv i low m' p' refl refl refl refl
        (held-after m.dispatch ∙ sym (ap held_of here))
        (pending-after g m.dispatch ∙ sym (ap (pending_of g) here))
  Move-Kept r {m'} {p'} mv here =
      quiet-Progress g now w inv i low m' p' refl refl refl refl (sym (ap held_of here))
        (sym (ap (pending_of g) here))

  -- A task that was taken has had its function called, or a worker is about to call it.
  Move-ran :
      (r : TaskRegistry) {m' : Shared} {p p' : Pc}
      → Move g r m p m' p'
      → pc i ≡ p
      → (c : ℕ)
      → count c m'.executed + count c (gather executing_of n (update pc i p')) ≡ count c m'.taken
  Move-ran r {p'} (take {task} {rest} e) here c = omega (
    arith,
    inv.ran c,
    exchanged g now w inv i low executing_of p' c,
    ap (λ p. count c (executing_of p)) here,
  )
  Move-ran r {p'} (execute {task}) here c = omega (
    arith,
    inv.ran c,
    exchanged g now w inv i low executing_of p' c,
    ap (λ p. count c (executing_of p)) here,
  )
  Move-ran r complete here c = omega (
    arith,
    inv.ran c,
    exchanged g now w inv i low executing_of (after_completed m.dispatch) c,
    ap (λ p. count c (executing_of p)) here,
    ap (count c) (executing-after m.dispatch),
  )
  Move-ran r {p'} mv here c = omega (
    arith,
    inv.ran c,
    exchanged g now w inv i low executing_of p' c,
    ap (λ p. count c (executing_of p)) here,
  )

  pub Move-Inv :
      (r : TaskRegistry) {m' : Shared} {p' : Pc}
      → Move g r m (pc i) m' p'
      → Inv g now n m' (update pc i p')
  Move-Inv r mv = record { account = Move-Kept r mv refl; ran = Move-ran r mv refl }
