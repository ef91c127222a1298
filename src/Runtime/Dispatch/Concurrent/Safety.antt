-- ===== src/Runtime/Dispatch/Concurrent/Safety.antt =====
-- What holds in every state that the workers reach in a phase, whatever the order of their moves.
use mmo_server.Common.{
  ℕ, ◌+◌, ◌≤◌, ◌<◌, ◌≡◌, refl, ap, List, [], arith, length, count, count-append,
}
use mmo_server.Runtime.Graph.{TaskGraph, max_nodes}
use mmo_server.Runtime.Registry.{TaskRegistry}
use mmo_server.Runtime.Dispatch.{JobDispatch}
use mmo_server.Runtime.Dispatch.Setup.{IsWellFormed}
use mmo_server.Runtime.Dispatch.Edges.{Progress, once}
use mmo_server.Runtime.Dispatch.Concurrent.{Pc, System, pick, Reach, start, later, opened}
use mmo_server.Runtime.Dispatch.Concurrent.Gather.{gather, gather-none}
use mmo_server.Runtime.Dispatch.Concurrent.Account.{
  pending_of, held_of, executing_of, queued, settled, Inv, Progress-cong,
}
use mmo_server.Runtime.Dispatch.Concurrent.Releasing.{submitting_room}
use mmo_server.Runtime.Dispatch.Concurrent.Moves.{Move-Inv}

module _ (g : TaskGraph) (w : IsWellFormed g) (r : TaskRegistry) (now n : ℕ) where
  opened-Inv :
      (d : JobDispatch) (finished : List ℕ)
      → Progress g now d finished [] 0
      → Inv g now n (opened d finished).mem (opened d finished).pc
  opened-Inv d finished p = record {
    account =
        Progress-cong g now d _ finished [] _ p refl (λ c. refl)
          (λ c. omega (
            arith,
            count-append c d.ready_queue (gather held_of n (λ _. Pc.idle)),
            ap (count c) (gather-none held_of n (λ _. Pc.idle) (λ i h. refl)),
          ))
          (λ c. ap (count c) (gather-none (pending_of g) n (λ _. Pc.idle) (λ i h. refl))) refl;
    ran =
        λ c. omega (arith, ap (count c) (gather-none executing_of n (λ _. Pc.idle) (λ i h. refl)));
  }

  Reach-Inv :
      {d : JobDispatch} {finished : List ℕ} {s : System}
      → Progress g now d finished [] 0
      → Reach g r n d finished s
      → Inv g now n s.mem s.pc
  Reach-Inv {d} {finished} p start = opened-Inv d finished p
  Reach-Inv p (later reach (pick i low mv)) = Move-Inv g w now (Reach-Inv p reach) i low r mv

  module _ {d : JobDispatch} {finished : List ℕ} {s : System}
      (opening : Progress g now d finished [] 0) (reach : Reach g r n d finished s) where
    inv : Inv g now n s.mem s.pc
    inv = Reach-Inv opening reach

    taken_once : (c : ℕ) → count c (queued n s.mem s.pc) + count c s.mem.taken ≤ 1
    taken_once c =
        once g w now (settled n s.mem s.pc) s.mem.taken (gather (pending_of g) n s.pc) 0 inv.account
          c

    -- Whatever the order of the workers' moves: no task is taken or run twice, and a released child
    -- always finds room in the ready queue.
    pub each_once :
        ((c : ℕ)
          → (count c s.mem.dispatch.ready_queue + count c s.mem.taken ≤ 1)
            × (count c s.mem.executed ≤ count c s.mem.taken))
        × ((i child : ℕ) (rest : List ℕ)
            → i < n
            → s.pc i ≡ Pc.submitting child rest
            → length s.mem.dispatch.ready_queue < max_nodes)
    each_once = (
      λ c. omega (
        arith,
        taken_once c,
        inv.ran c,
        count-append c s.mem.dispatch.ready_queue (gather held_of n s.pc),
      ),
      λ i child rest low here. submitting_room g w now inv i low child rest here,
    )
