-- ===== src/Queue/Mpmc/Concurrent/Tests.antt =====
-- Threads on a queue of four places, run in a given order, and the theorems at the states they reach.
use native.Mathlib.Decide.{ℕ_discrete}
use mathlib.Core.Logic.{dite}
use mathlib.Core.List.{foldl}
use mmo_server.Common.{
  ℕ, zero, suc, none, ◌+◌, ◌≤◌, ◌≡◌, refl, ap, ◌⊎◌, List, [], ◌∷◌, true, some, length, get_elem?,
  arith, All,
}
use mmo_server.Queue.Window.{Holds}
use mmo_server.Queue.Mpmc.Concurrent.Quiet.{rest_refines}
use mmo_server.Queue.{wrap, probe, Queue, construct, publish}
use mmo_server.Queue.Fifo
use mmo_server.Queue.Fifo.{Call, enqueues, dequeues, accepted, taken}
use mmo_server.Queue.Tests.{four-IsCapacity}
use mmo_server.Queue.Mpmc.{run as run_calls, step, enqueue, enqueue_from}
use mmo_server.Queue.Mpmc.Concurrent.{
  Shared, Pc, slot, answers, Move, load_tail, see_free, see_full, see_claimed, reload_tail,
  win_tail, lose_tail, store_item, publish_slot, load_head, see_item, see_empty, see_taken,
  reload_head, win_head, lose_head, move_item, retire_slot, System, pick, init, Reach, start, later,
}
use mmo_server.Queue.Mpmc.Concurrent.Invariant.{owns}
use mmo_server.Queue.Mpmc.Concurrent.Safety.{delivers_once, exclusive_slot, nothing_lost}
use mmo_server.Queue.Mpmc.Concurrent.SoloRun.{SoloRun}
use mmo_server.Queue.Mpmc.Concurrent.Solo.{found, ready, behind, ahead, entry, Agrees, call_alone}

-- The next move of a thread at `p`, which makes the call `c` when it stands outside; a moved-from item
-- reads 0.
next_move :
    (c : Call ℕ) (m : Shared ℕ) (p : Pc ℕ) → (m' : Shared ℕ) × (p' : Pc ℕ) × Move 4 m p m' p'
unfolding ℕ_discrete found
next_move (enqueues item) m Pc.idle = (_, _, load_tail item)
next_move dequeues m Pc.idle = (_, _, load_head)
next_move c m (Pc.enqueuing item pos) = elim (found (slot 4 m pos).sequence pos) [
  | ready e ↦ (_, _, see_free e)
  | behind e ↦ (_, _, see_full e)
  | ahead e ↦ (_, _, see_claimed e)
]
next_move c m (Pc.claiming item pos) =
    dite (ℕ_discrete m.queue.tail pos) (λ e. (_, _, win_tail e)) (λ _. (_, _, lose_tail))
next_move c m (Pc.reloading_tail item) = (_, _, reload_tail)
next_move c m (Pc.storing item pos) = (_, _, store_item)
next_move c m (Pc.publishing pos) = (_, _, publish_slot)
next_move c m (Pc.dequeuing pos) = elim (found (slot 4 m pos).sequence (wrap (pos + 1))) [
  | ready e ↦ (_, _, see_item e)
  | behind e ↦ (_, _, see_empty e)
  | ahead e ↦ (_, _, see_taken e)
]
next_move c m (Pc.taking pos) =
    dite (ℕ_discrete m.queue.head pos) (λ e. (_, _, win_head e)) (λ _. (_, _, lose_head))
next_move c m Pc.reloading_head = (_, _, reload_head)
next_move c m (Pc.moving pos) = (_, _, move_item 0)
next_move c m (Pc.retiring pos out) = (_, _, retire_slot)

record Run : Type 0 where
  last : System ℕ
  reach : Reach 4 0 last

turn : Run → ℕ × Call ℕ → Run
unfolding next_move
turn r (i, c) = record {
  last = _;
  reach = later r.reach (pick i (next_move c r.last.mem (r.last.pc i)).2);
}

run : List (ℕ × Call ℕ) → Run
unfolding turn
run = foldl turn (record { last = _; reach = start })

-- Two producers race for the first position, and 1 wins it; 0 tries again and is about to store 5 at
-- the second, while consumer 2 has taken the first item and not yet handed on its slot.
abbrev raced : Run
raced = run (
    (0, enqueues 5)
    ∷ (1, enqueues 7)
    ∷ (0, enqueues 5)
    ∷ (1, enqueues 7)
    ∷ (1, enqueues 7)
    ∷ (0, enqueues 5)
    ∷ (1, enqueues 7)
    ∷ (1, enqueues 7)
    ∷ (0, enqueues 5)
    ∷ (0, enqueues 5)
    ∷ (2, dequeues)
    ∷ (2, dequeues)
    ∷ (2, dequeues)
    ∷ (2, dequeues)
    ∷ [])

raced_result :
    (raced.last.mem.entered ≡ 7 ∷ 5 ∷ [])
    × (raced.last.pc 0 ≡ Pc.storing 5 1)
    × (raced.last.pc 2 ≡ Pc.retiring 0 7)
unfolding run construct probe init
raced_result = (refl, refl, refl)

raced_size : length raced.last.mem.entered ≡ 2
raced_size = ap length raced_result.0

-- Consumer 2 has answered with 7.
abbrev answered : Run
answered = turn raced (2, dequeues)

answered_result : (answered.last.mem.left ≡ (0, 7) ∷ []) × (length answered.last.mem.entered ≡ 2)
unfolding run turn construct probe init
answered_result = (refl, refl)

delivers_once_example :
    All (λ e. get_elem? answered.last.mem.entered e.0 ≡ some e.1) answered.last.mem.left
    × ((pos : ℕ) → answers pos answered.last.mem.left ≤ 1)
delivers_once_example =
    delivers_once four-IsCapacity answered.reach (omega (arith, answered_result.1))

exclusive_slot_example : ◌≡◌ {A = ℕ} 2 2
exclusive_slot_example =
    exclusive_slot four-IsCapacity raced.reach (omega (arith, raced_size)) 2 2 0 0
      (ap owns raced_result.2) (ap owns raced_result.2) refl

nothing_lost_example :
    (answers 1 raced.last.mem.left ≡ 1)
    ⊎ (((i : ℕ) × (owns (raced.last.pc i) ≡ some 1))
        ⊎ ((raced.last.mem.queue.head ≤ 1)
            × ((slot 4 raced.last.mem 1).sequence ≡ 1 + 1)
            × (get_elem? raced.last.mem.entered 1 ≡ some (slot 4 raced.last.mem 1).item)))
nothing_lost_example =
    nothing_lost four-IsCapacity raced.reach (omega (arith, raced_size)) 1
      (omega (arith, raced_size))

abbrev fresh : Shared ℕ
fresh = record { queue = construct 4 0; entered = []; left = [] }

call_alone_example :
    ((m : Shared ℕ) × SoloRun 4 fresh (entry 4 (enqueues 7) fresh) m)
    × ((m : Shared ℕ)
        → SoloRun 4 fresh (entry 4 (enqueues 7) fresh) m
        → Agrees 4 fresh (enqueues 7) m (accepted true) (publish 4 (construct 4 0) 7 0))
unfolding step enqueue enqueue_from construct probe
call_alone_example = call_alone 4 0 fresh (enqueues 7) (accepted true) _ refl

-- Producer 0 has returned too, and no thread is in a call.
abbrev settled : Run
settled = turn (turn answered (0, enqueues 5)) (0, enqueues 5)

settled_result : (settled.last.mem.entered ≡ 7 ∷ 5 ∷ []) × (settled.last.mem.queue.head ≡ 1)
unfolding run turn construct probe init
settled_result = (refl, refl)

settled_outside : (i : ℕ) → settled.last.pc i ≡ Pc.idle
unfolding run turn construct probe init
settled_outside zero = refl
settled_outside (suc zero) = refl
settled_outside (suc (suc zero)) = refl
settled_outside (suc (suc (suc i))) = ground arith

rest_refines_example :
    (q' : Queue ℕ) × (h' : ℕ) × (run_calls 4 1 settled.last.mem.queue (dequeues ∷ dequeues ∷ [])
      ≡ some ((taken (some 5) ∷ taken none ∷ []), q'))
    × Holds 4 q' h' []
unfolding run construct probe init Fifo.run
rest_refines_example =
    rest_refines four-IsCapacity settled.reach (omega (arith, ap length settled_result.0))
      settled_outside 0 (dequeues ∷ dequeues ∷ [])
