-- ===== src/Queue/Mpsc/Concurrent/Tests.antt =====
-- Threads on an MPSCQueue of four places, run in a given order, and the theorem at the state they reach.
use native.Mathlib.Decide.{ℕ_discrete}
use mathlib.Core.Logic.{dite}
use mathlib.Core.List.{foldl}
use mmo_server.Common.{
  ℕ, ◌+◌, ◌≡◌, refl, ap, List, [], ◌∷◌, length, take, arith, Option, none, some,
}
use mmo_server.Queue.{wrap, probe, construct}
use mmo_server.Queue.Tests.{four-IsCapacity}
use mmo_server.Queue.Mpmc.Concurrent.{Shared, slot}
use mmo_server.Queue.Mpmc.Concurrent.Solo.{found, ready, behind, ahead}
use mmo_server.Queue.Mpsc.Concurrent.{
  Producer, Consumer, EnqueueMove, DequeueMove, System, produces, consumes, init, Reach, start,
  later,
}
use mmo_server.Queue.Mpsc.Concurrent.Order.{in_order, consumer_order}

-- The next move of a producer at `p`, which enqueues `item` when it stands outside.
next_enqueue :
    (item : ℕ) (m : Shared ℕ) (p : Producer ℕ)
    → (m' : Shared ℕ) × (p' : Producer ℕ) × EnqueueMove 4 m p m' p'
unfolding ℕ_discrete found
next_enqueue item m Producer.outside = (_, _, EnqueueMove.load_position item)
next_enqueue _ m (Producer.enqueuing item pos) = elim (found (slot 4 m pos).sequence pos) [
  | ready e ↦ (_, _, EnqueueMove.see_free e)
  | behind e ↦ (_, _, EnqueueMove.see_full e)
  | ahead e ↦ (_, _, EnqueueMove.see_claimed e)
]
next_enqueue _ m (Producer.claiming item pos) =
    dite (ℕ_discrete m.queue.tail pos) (λ e. (_, _, EnqueueMove.win_position e))
      (λ _. (_, _, EnqueueMove.lose_position))
next_enqueue _ m (Producer.reloading item) = (_, _, EnqueueMove.reload_position)
next_enqueue _ m (Producer.storing item pos) = (_, _, EnqueueMove.store_item)
next_enqueue _ m (Producer.publishing pos) = (_, _, EnqueueMove.publish_slot)

-- The next move of the consumer; a moved-from item reads 0.
next_dequeue :
    (m : Shared ℕ) (p : Consumer ℕ) → (m' : Shared ℕ) × (p' : Consumer ℕ) × DequeueMove 4 m p m' p'
unfolding found
next_dequeue m Consumer.outside = (_, _, DequeueMove.load_position)
next_dequeue m (Consumer.dequeuing pos) = elim (found (slot 4 m pos).sequence (wrap (pos + 1))) [
  | ready e ↦ (_, _, DequeueMove.see_item e)
  | behind e ↦ (_, _, DequeueMove.see_nothing (λ z. cc))
  | ahead e ↦ (_, _, DequeueMove.see_nothing (λ z. cc))
]
next_dequeue m (Consumer.moving pos) = (_, _, DequeueMove.move_item 0)
next_dequeue m (Consumer.retiring pos out) = (_, _, DequeueMove.retire_slot)
next_dequeue m (Consumer.advancing pos) = (_, _, DequeueMove.store_position)

record Run : Type 0 where
  last : System ℕ
  reach : Reach 4 0 last

-- A turn of a producer with its item, or of the consumer.
turn : Run → Option (ℕ × ℕ) → Run
unfolding next_enqueue next_dequeue
turn r none = record {
  last = _;
  reach = later r.reach (consumes (next_dequeue r.last.mem r.last.consumer).2);
}
turn r (some (i, item)) = record {
  last = _;
  reach = later r.reach (produces i (next_enqueue item r.last.mem (r.last.producers i)).2);
}

run : List (Option (ℕ × ℕ)) → Run
unfolding turn
run = foldl turn (record { last = _; reach = start })

-- Two producers race for the first position, and 1 wins it. The consumer looks before 1 has published
-- its item and sees nothing, and takes it at the second attempt, while 0 stores at the next position.
abbrev raced : Run
raced = run (
    some (0, 5)
    ∷ some (1, 7)
    ∷ some (0, 5)
    ∷ some (1, 7)
    ∷ some (1, 7)
    ∷ some (0, 5)
    ∷ none
    ∷ none
    ∷ some (1, 7)
    ∷ some (1, 7)
    ∷ none
    ∷ none
    ∷ some (0, 5)
    ∷ some (0, 5)
    ∷ none
    ∷ none
    ∷ none
    ∷ [])

raced_result :
    (raced.last.mem.entered ≡ 7 ∷ 5 ∷ [])
    × (raced.last.mem.left ≡ (0, 7) ∷ [])
    × (raced.last.mem.queue.head ≡ 1)
unfolding run construct probe init
raced_result = (refl, refl, refl)

consumer_order_example :
    in_order raced.last.mem.left ≡ take (length raced.last.mem.left) raced.last.mem.entered
consumer_order_example =
    consumer_order four-IsCapacity raced.reach (omega (arith, ap length raced_result.0))
